-- ===== src/NeighborTable/Tests.antt =====
-- The theorems on the neighbor table, at a table of two slots of which one holds a router.
use arduino_nrf_zigbee.Prelude.{
  ℕ, [], ◌∷◌, ◌≡◌, refl, ◌⊎◌, true, false, none, some, arith, get_elem?,
}
use arduino_nrf_zigbee.NeighborTable.{
  NeighborTable, Report, begin, upsert, remove_stale_routers, ZigbeeNeighbor, no_neighbor, has_nwk,
  can_parent, best_parent_candidate,
}
use arduino_nrf_zigbee.NeighborTable.Unique.{IsValid, known, upsert-lookup}
use arduino_nrf_zigbee.Slots.{find?, count}
use arduino_nrf_zigbee.NeighborTable.Runs.{run, upserts, removes, neighbor_run-IsValid}
use arduino_nrf_zigbee.NeighborTable.Aging.{is_lease, remove_stale_routers_again}
use arduino_nrf_zigbee.NeighborTable.Parent.{IsBest, best_parent_candidate_lem}

abbrev router : ZigbeeNeighbor
router = record no_neighbor {
  used = true;
  nwk_address = 7;
  ieee_address = 70;
  device_type = 1;
  relationship = 1;
  lqi = 200;
  permit_joining = true;
  last_seen_ms = 100;
}

abbrev report : Report
report = record {
  nwk_address = 9;
  ieee_address = 90;
  device_type = 2;
  relationship = 1;
  depth = 1;
  lqi = 120;
  rx_on_when_idle = false;
  permit_joining = false;
}

abbrev held : NeighborTable
held = record { attached = true; entries = router ∷ no_neighbor ∷ [] }

held-IsValid : IsValid held
held-IsValid = record { is_attached = refl; nonempty = omega arith; unique = λ n. ground arith }

neighbor_run-IsValid_example : IsValid (run (begin 2) (upserts report 100 ∷ removes 9 ∷ []))
neighbor_run-IsValid_example =
    neighbor_run-IsValid 2 (upserts report 100 ∷ removes 9 ∷ []) (omega arith)

upsert-lookup_example :
    IsValid (upsert held report 500).0
    × (find? (has_nwk report.nwk_address) (upsert held report 500).0.entries
        ≡ some (record {
          used = true;
          nwk_address = report.nwk_address;
          ieee_address = report.ieee_address;
          device_type = report.device_type;
          relationship = report.relationship;
          depth = report.depth;
          lqi = report.lqi;
          incoming_cost = (known held report.nwk_address).incoming_cost;
          outgoing_cost = (known held report.nwk_address).outgoing_cost;
          rx_on_when_idle = report.rx_on_when_idle;
          permit_joining = report.permit_joining;
          last_seen_ms = 500;
        }))
upsert-lookup_example = upsert-lookup held report 500 held-IsValid

remove_stale_routers_again_example :
    let t' = (remove_stale_routers held 5000 0xffff).0 in
    (count (is_lease 7 70) t'.entries ≡ count (is_lease 7 70) held.entries)
    × (remove_stale_routers t' 5000 0xffff ≡ (t', 0))
remove_stale_routers_again_example =
    remove_stale_routers_again held 5000 0xffff 7 70 refl (λ e. omega arith)

best_parent_candidate_lem_example :
    ((best_parent_candidate held ≡ none) × (count can_parent held.entries ≡ 0))
    ⊎ ((i : ℕ) × (x : ZigbeeNeighbor) × (best_parent_candidate held ≡ some i)
        × (get_elem? held.entries i ≡ some x)
        × (can_parent x ≡ true)
        × IsBest held x)
best_parent_candidate_lem_example = best_parent_candidate_lem held refl
