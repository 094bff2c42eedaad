-- ===== src/GroupsCluster.antt =====
-- src/ZigbeeGroupsCluster.h: the Groups cluster, whose server applies its commands to the group table.
pub mod Commands
mod Tests
use arduino_nrf_zigbee.Prelude.{
  ℕ, zero, suc, ◌+◌, ◌-◌, ◌*◌, Bool, true, false, not, ◌&&◌, ◌||◌, Option, none, some, List, [],
  ◌∷◌, ◌++◌, if◌then◌else◌, ltb, ◌==◌, length, min, take, u8,
}
use arduino_nrf_zigbee.Bytes.{Built, refused, byte_at, read_le16_at, write_le16}
use arduino_nrf_zigbee.GroupTable.{GroupTable, capacity, is_member, add, remove, group_at, clear}

abbrev pub cmd_add : ℕ
cmd_add = 0x00

abbrev pub cmd_get_membership : ℕ
cmd_get_membership = 0x02

abbrev pub cmd_remove : ℕ
cmd_remove = 0x03

abbrev pub cmd_remove_all : ℕ
cmd_remove_all = 0x04

abbrev pub cmd_add_if_identifying : ℕ
cmd_add_if_identifying = 0x05

abbrev pub status_success : ℕ
status_success = 0x00

abbrev pub status_insufficient_space : ℕ
status_insufficient_space = 0x89

abbrev pub status_duplicate_exists : ℕ
status_duplicate_exists = 0x8A

abbrev pub status_not_found : ℕ
status_not_found = 0x8B

abbrev pub write_groups : List ℕ → List ℕ
write_groups [] = []
write_groups (g ∷ groups) = write_le16 g ++ write_groups groups

pub build_add_group : Bool → ℕ → ℕ → Built
build_add_group out out_max group_id =
    if not out || ltb out_max 3
    then refused
    else record { size = 3; written = write_le16 group_id ++ (0 ∷ []) }

pub build_group_id : Bool → ℕ → ℕ → Built
build_group_id out out_max group_id =
    if not out || ltb out_max 2 then refused else record { size = 2; written = write_le16 group_id }

pub build_get_membership : Bool → ℕ → List ℕ → ℕ → Built
build_get_membership out out_max groups count =
    let need = u8 (1 + count * 2) in
    if not out || ltb out_max need
    then refused
    else record { size = need; written = count ∷ write_groups (take count groups) }

pub build_status_response : Bool → ℕ → ℕ → ℕ → Built
build_status_response out out_max status group_id =
    if not out || ltb out_max 3
    then refused
    else record { size = 3; written = status ∷ write_le16 group_id }

pub build_membership_response : Bool → ℕ → ℕ → List ℕ → ℕ → Built
build_membership_response out out_max room groups count =
    let need = u8 (2 + count * 2) in
    if not out || ltb out_max need
    then refused
    else record { size = need; written = room ∷ count ∷ write_groups (take count groups) }

-- for (i = 0; i < count && n < 16; ++i) mine[n++] = table.at(i), from `i` on
abbrev pub own_groups : GroupTable → ℕ → ℕ → List ℕ
own_groups t zero i = []
own_groups t (suc k) i = group_at t i ∷ own_groups t k (suc i)

-- The loop over the `k` groups of the request that are left, from `i` on, with `n` found.
pub asked_groups : GroupTable → List ℕ → ℕ → ℕ → ℕ → ℕ → List ℕ
asked_groups t payload payload_len zero i n = []
asked_groups t payload payload_len (suc k) i n =
    let off = u8 (1 + i * 2) in
    let g = read_le16_at payload off in
    elim (ltb payload_len (u8 (off + 2))) [
      | true ↦ []
      | false ↦ elim (is_member t g && ltb n 16) [
        | true ↦ g ∷ asked_groups t payload payload_len k (suc i) (suc n)
        | false ↦ asked_groups t payload payload_len k (suc i) n
      ]
    ]

-- What handle leaves: the table, `respCmdId`, and the response.
pub record Handled : Type 0 where
  pub table : GroupTable
  pub resp_cmd_id : ℕ
  pub response : Built

abbrev pub handle_add : GroupTable → ℕ → Bool → ℕ → Handled
handle_add t g resp resp_max =
    let (t', done) = add t g in
    if is_member t g
    then record {
      table = t;
      resp_cmd_id = cmd_add;
      response = build_status_response resp resp_max status_duplicate_exists g;
    }
    else record {
      table = t';
      resp_cmd_id = cmd_add;
      response =
          build_status_response resp resp_max
            (if done then status_success else status_insufficient_space) g;
    }

abbrev pub handle_remove : GroupTable → ℕ → Bool → ℕ → Handled
handle_remove t g resp resp_max =
    let (t', found) = remove t g in
    record {
      table = t';
      resp_cmd_id = cmd_remove;
      response =
          build_status_response resp resp_max (if found then status_success else status_not_found)
            g;
    }

abbrev pub handle_get_membership : GroupTable → List ℕ → ℕ → Bool → ℕ → Handled
handle_get_membership t payload payload_len resp resp_max =
    let mine =
      (if byte_at payload 0 == 0
        then own_groups t (min t.group_count 16) 0
        else asked_groups t payload payload_len (byte_at payload 0) 0 0) in
    record {
      table = t;
      resp_cmd_id = cmd_get_membership;
      response =
          build_membership_response resp resp_max (u8 (capacity t + 256 - t.group_count)) mine
            (length mine);
    }

-- `resp_cmd_id` is the value of `respCmdId` before the call.
pub handle : GroupTable → ℕ → List ℕ → ℕ → ℕ → Bool → ℕ → Handled
handle t command_id payload payload_len resp_cmd_id resp resp_max =
    let silent : Handled = record { table = t; resp_cmd_id = resp_cmd_id; response = refused } in
    if command_id == cmd_add || command_id == cmd_add_if_identifying
    then if ltb payload_len 2 then silent else handle_add t (read_le16_at payload 0) resp resp_max
    else if command_id == cmd_remove
    then if ltb payload_len 2
      then silent
      else handle_remove t (read_le16_at payload 0) resp resp_max
    else if command_id == cmd_remove_all
    then record silent { table = clear t }
    else if command_id == cmd_get_membership
    then if ltb payload_len 1
      then silent
      else handle_get_membership t payload payload_len resp resp_max
    else silent
