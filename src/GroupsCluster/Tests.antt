-- ===== src/GroupsCluster/Tests.antt =====
-- The theorem on the Groups cluster, at a table of three places with two groups.
use arduino_nrf_zigbee.Prelude.{◌≡◌, refl, true, ◌&&◌, ◌||◌, [], ◌∷◌, ltb, ◌==◌, arith, length}
use arduino_nrf_zigbee.GroupTable.{GroupTable, is_member}
use arduino_nrf_zigbee.GroupTable.Members.{IsValid}
use arduino_nrf_zigbee.GroupsCluster.{handle, build_add_group, cmd_add}
use arduino_nrf_zigbee.GroupsCluster.Commands.{status_answer, add_status, add_group_answered}

abbrev held : GroupTable
held = record { attached = true; groups = 5 ∷ 6 ∷ 0 ∷ []; group_count = 2 }

held-IsValid : IsValid held
held-IsValid = record { is_attached = refl; within = omega arith; distinct = λ g. ground arith }

add_group_answered_example :
    let b = build_add_group true 10 9 in
    let r = handle held cmd_add b.written b.size 1 true 10 in
    IsValid r.table
    × (is_member r.table 5
        ≡ (is_member held 5 || (ltb held.group_count (length held.groups) && 9 == 5)))
    × (r.resp_cmd_id ≡ cmd_add)
    × (r.response ≡ status_answer (add_status held 9) 9)
add_group_answered_example =
    add_group_answered held 10 9 5 1 10 held-IsValid (omega arith) (omega arith) (omega arith)
