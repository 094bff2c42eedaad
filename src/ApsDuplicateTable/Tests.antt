-- ===== src/ApsDuplicateTable/Tests.antt =====
-- The theorems on the APS duplicate table, at a table of two slots of which one holds a peer.
use arduino_nrf_zigbee.Prelude.{ltb, ◌≡◌, refl, true, some, arith, [], ◌∷◌}
use arduino_nrf_zigbee.Slots.Spare.{Kept}
use arduino_nrf_zigbee.ApsDuplicateTable.{
  ApsDuplicateTable, empty_entry, matches, is_free, peer, check_and_record,
}
use arduino_nrf_zigbee.ApsDuplicateTable.Peers.{
  IsValid, lookup, is_new, counter_of, check_and_record_lem,
}

abbrev held : ApsDuplicateTable
held = record { attached = true; entries = peer 7 1 40 100 ∷ empty_entry ∷ [] }

held-IsValid : IsValid held
held-IsValid = record { is_attached = refl; nonempty = omega arith; unique = λ s e. ground arith }

check_and_record_lem_example :
    let (t', new) = check_and_record held 7 1 41 200 in
    (new ≡ is_new (lookup held 7 1) 41)
    × (counter_of (lookup t' 7 1) ≡ some 41)
    × Kept is_free (λ a b. ltb a.last_seen_ms b.last_seen_ms) (matches 9 1) held.entries t'.entries
check_and_record_lem_example = check_and_record_lem held 7 1 41 200 9 1 held-IsValid refl
