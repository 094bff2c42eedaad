-- ===== src/GroupsCluster/Commands.antt =====
-- src/ZigbeeGroupsCluster.h: what the commands of a client do to the table of the server.
use arduino_nrf_zigbee.Prelude.{
  ℕ, ◌≡◌, refl, sym, ap, ◌∙◌, inl, inr, ◌≤◌, Bool, true, false, ◌&&◌, ◌||◌, List, [], ◌∷◌,
  if◌then◌else◌, ltb, ◌==◌, arith, length, Bool-cases, IsU16,
}
use arduino_nrf_zigbee.Bytes.{Built, read_le16_at, write_le16}
use arduino_nrf_zigbee.Bytes.RoundTrip.{le16}
use arduino_nrf_zigbee.GroupTable.{GroupTable, is_member}
use arduino_nrf_zigbee.GroupTable.Members.{IsValid, group_add_lem, group_remove_lem, clear-IsValid}
use arduino_nrf_zigbee.GroupsCluster.{
  handle, handle_add, build_add_group, cmd_add, cmd_add_if_identifying, cmd_remove, cmd_remove_all,
  cmd_get_membership, status_success, status_insufficient_space, status_duplicate_exists,
  build_status_response,
}

-- What a valid table does with a command that adds a group.
added_lem :
    (t : GroupTable) (g h resp_max : ℕ) (resp : Bool)
    → IsValid t
    → IsValid (handle_add t g resp resp_max).table
      × (is_member (handle_add t g resp resp_max).table h
          ≡ (is_member t h || (ltb t.group_count (length t.groups) && g == h)))
added_lem t g h resp_max resp v = elim (Bool-cases (is_member t g)) [
  | inl known ↦ rw known (
    v,
    elim (Bool-cases (g == h)) [
      | inl same ↦
          let e : g ≡ h = ground arith in
          let here : is_member t h ≡ true = ap (is_member t) (sym e) ∙ known in ground (arith, here)
      | inr other ↦ ground (arith, other)
    ],
  )
  | inr new ↦
      let (done, member, valid) = group_add_lem t g h v in
      rw new (valid, ground (arith, done, member, new))
]

handle-IsValid :
    (t : GroupTable) (command : ℕ) (payload : List ℕ) (len id : ℕ) (resp : Bool) (resp_max : ℕ)
    → IsValid t
    → IsValid (handle t command payload len id resp resp_max).table
unfolding handle
handle-IsValid t command payload len id resp resp_max v =
    elim (Bool-cases (command == cmd_add || command == cmd_add_if_identifying)) [
      | inl adds ↦ elim (Bool-cases (ltb len 2)) [
        | inl short ↦ rw (handle, adds, short) v
        | inr long ↦
            rw (handle, adds, long) (added_lem t (read_le16_at payload 0) 0 resp_max resp v).0
      ]
      | inr not_add ↦ elim (Bool-cases (command == cmd_remove)) [
        | inl removes ↦ elim (Bool-cases (ltb len 2)) [
          | inl short ↦ rw (handle, not_add, removes, short) v
          | inr long ↦
              rw (handle, not_add, removes, long)
                (group_remove_lem t (read_le16_at payload 0) 0 v).2
        ]
        | inr not_remove ↦ elim (Bool-cases (command == cmd_remove_all)) [
          | inl clears ↦ rw (handle, not_add, not_remove, clears) (clear-IsValid v)
          | inr not_clear ↦ elim (Bool-cases (command == cmd_get_membership)) [
            | inl gets ↦ elim (Bool-cases (ltb len 1)) [
              | inl short ↦ rw (handle, not_add, not_remove, not_clear, gets, short) v
              | inr long ↦ rw (handle, not_add, not_remove, not_clear, gets, long) v
            ]
            | inr other ↦ rw (handle, not_add, not_remove, not_clear, other) v
          ]
        ]
      ]
    ]

-- A command that a client sends.
pub record Request : Type 0 where
  pub command_id : ℕ
  pub payload : List ℕ
  pub payload_len : ℕ

pub serve : GroupTable → List Request → GroupTable
serve t [] = t
serve t (r ∷ requests) =
    serve (handle t r.command_id r.payload r.payload_len 0 true 255).table requests

-- Whatever commands a server receives, well-formed or not, its table stays valid: no group is in it twice.
pub groups_serve-IsValid :
    (t : GroupTable) (requests : List Request) → IsValid t → IsValid (serve t requests)
unfolding serve
groups_serve-IsValid t [] v = v
groups_serve-IsValid t (r ∷ requests) v =
    groups_serve-IsValid (handle t r.command_id r.payload r.payload_len 0 true 255).table requests
      (handle-IsValid t r.command_id r.payload r.payload_len 0 true 255 v)

-- The status that answers the command to add a group.
abbrev pub add_status : GroupTable → ℕ → ℕ
add_status t g =
    if is_member t g
    then status_duplicate_exists
    else if ltb t.group_count (length t.groups)
    then status_success
    else status_insufficient_space

abbrev pub status_answer : ℕ → ℕ → Built
status_answer status g = record { size = 3; written = status ∷ write_le16 g }

add_answer :
    (t : GroupTable) (g resp_max : ℕ)
    → IsValid t
    → 3 ≤ resp_max
    → (handle_add t g true resp_max).response ≡ status_answer (add_status t g) g
unfolding build_status_response
add_answer t g resp_max v room =
    let fits : ltb resp_max 3 ≡ false = ground arith in
    elim (Bool-cases (is_member t g)) [
      | inl known ↦ rw (known, fits) refl
      | inr new ↦ let (done, _, _) = group_add_lem t g g v in rw (new, fits, done, new) refl
    ]

add_id : (t : GroupTable) (g resp_max : ℕ) → (handle_add t g true resp_max).resp_cmd_id ≡ cmd_add
add_id t g resp_max = elim (Bool-cases (is_member t g)) [
  | inl known ↦ rw known refl
  | inr new ↦ rw new refl
]

-- The Add Group command that a client builds, applied by a server with a valid table, makes the server a
-- member of that group, if it was one or has a place left, and changes no other membership. The response
-- names the group, and says whether it was a duplicate, was added, or found no space.
pub add_group_answered :
    (t : GroupTable) (out_max group_id other resp_cmd_id resp_max : ℕ)
    → IsValid t
    → 3 ≤ out_max
    → 3 ≤ resp_max
    → IsU16 group_id
    → let b = build_add_group true out_max group_id in
      let r = handle t cmd_add b.written b.size resp_cmd_id true resp_max in
      IsValid r.table
      × (is_member r.table other
          ≡ (is_member t other || (ltb t.group_count (length t.groups) && group_id == other)))
      × (r.resp_cmd_id ≡ cmd_add)
      × (r.response ≡ status_answer (add_status t group_id) group_id)
unfolding handle build_add_group
add_group_answered t out_max g h id resp_max v room resp_room w =
    let fits : ltb out_max 3 ≡ false = ground arith in
    let (valid, member) = added_lem t g h resp_max true v in
    rw (build_add_group, fits, handle, le16 g w)
      (valid, member, add_id t g resp_max, add_answer t g resp_max v resp_room)
