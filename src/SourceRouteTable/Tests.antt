-- ===== src/SourceRouteTable/Tests.antt =====
-- The theorems on the source route table, at a table of two slots of which one holds a path.
use mathlib.Core.List.{reverse}
use arduino_nrf_zigbee.Prelude.{◌≡◌, refl, true, some, [], ◌∷◌, arith, take}
use arduino_nrf_zigbee.SourceRouteTable.Unique.{IsValid}
use arduino_nrf_zigbee.SourceRouteTable.{
  SourceRouteEntry, SourceRouteTable, empty_entry, begin, install, downstream_route,
}
use arduino_nrf_zigbee.SourceRouteTable.Routes.{
  run, KeptRoute, installs, removes, source_route_run-IsValid, downstream_route-install,
}

abbrev entry : SourceRouteEntry
entry = record {
  used = true;
  dest_addr = 7;
  relay_count = 2;
  relays = 1 ∷ 2 ∷ 0 ∷ 0 ∷ 0 ∷ 0 ∷ 0 ∷ 0 ∷ [];
  updated_ms = 100;
}

abbrev held : SourceRouteTable
held = record { attached = true; entries = entry ∷ empty_entry ∷ [] }

held-IsValid : IsValid held
held-IsValid = record { is_attached = refl; nonempty = omega arith; unique = λ d. ground arith }

source_route_run-IsValid_example :
    IsValid (run (begin 2) (installs 7 (some (1 ∷ 2 ∷ [])) 2 100 ∷ removes 7 ∷ []))
source_route_run-IsValid_example =
    source_route_run-IsValid 2 (installs 7 (some (1 ∷ 2 ∷ [])) 2 100 ∷ removes 7 ∷ []) (omega arith)

downstream_route-install_example :
    let (t', done) = install held 9 (some (3 ∷ 4 ∷ 5 ∷ [])) 3 200 in
    (done ≡ true)
    × (downstream_route t' 9 8 ≡ (3, reverse (take 3 (3 ∷ 4 ∷ 5 ∷ []))))
    × KeptRoute held t' 7
downstream_route-install_example =
    downstream_route-install held 9 (3 ∷ 4 ∷ 5 ∷ []) 3 200 8 7 held-IsValid (omega arith)
      (omega arith) (omega arith) refl
