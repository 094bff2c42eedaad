-- ===== src/GroupTable/Tests.antt =====
-- The theorem on the group table, at a table of three places with two groups.
use arduino_nrf_zigbee.Prelude.{◌≡◌, refl, true, not, [], ◌∷◌, arith, ◌&&◌, ◌==◌}
use arduino_nrf_zigbee.GroupTable.{GroupTable, is_member, remove}
use arduino_nrf_zigbee.GroupTable.Members.{IsValid, group_remove_lem}

abbrev held : GroupTable
held = record { attached = true; groups = 5 ∷ 6 ∷ 0 ∷ []; group_count = 2 }

held-IsValid : IsValid held
held-IsValid = record { is_attached = refl; within = omega arith; distinct = λ g. ground arith }

group_remove_lem_example :
    let (t', found) = remove held 5 in
    (found ≡ is_member held 5) × (is_member t' 6 ≡ (is_member held 6 && not (5 == 6))) × IsValid t'
group_remove_lem_example = group_remove_lem held 5 6 held-IsValid
