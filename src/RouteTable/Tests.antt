-- ===== src/RouteTable/Tests.antt =====
-- The theorems on the route table, at a table of two slots.
use arduino_nrf_zigbee.Prelude.{false, [], ◌∷◌, arith}
use arduino_nrf_zigbee.RouteTable.{begin}
use arduino_nrf_zigbee.RouteTable.Refine.{
  run, view, upserts, removes, purges, AllowedRun, route_run-Allowed,
}

route_run-Allowed_example :
    AllowedRun
      (view (begin 2))
      (upserts 7 3 0 false false 100 ∷ removes 7 ∷ purges ∷ [])
      (view (run (begin 2) (upserts 7 3 0 false false 100 ∷ removes 7 ∷ purges ∷ [])))
route_run-Allowed_example =
    route_run-Allowed 2 (upserts 7 3 0 false false 100 ∷ removes 7 ∷ purges ∷ []) (omega arith)
