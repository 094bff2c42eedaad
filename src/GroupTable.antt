-- ===== src/GroupTable.antt =====
-- src/ZigbeeGroupTable.h: the groups that a device is a member of. A method that changes the table
-- returns the new one beside its result.
pub mod Members
mod Tests
use arduino_nrf_zigbee.Prelude.{
  ℕ, ◌+◌, ◌-◌, Bool, true, false, not, Option, none, some, List, [], ◌∷◌, if◌then◌else◌, ltb, leb,
  ◌==◌, is_some, get_or, length, replicate, set, take,
}
use arduino_nrf_zigbee.Slots.{find_index?}

-- `groups` is the array of `capacity_` addresses, of which the first `group_count` are the groups.
pub record GroupTable : Type 0 where
  pub attached : Bool
  pub groups : List ℕ
  pub group_count : ℕ

-- `storage`, an array of `capacity` addresses
pub begin : List ℕ → GroupTable
begin storage = record { attached = true; groups = storage; group_count = 0 }

pub capacity : GroupTable → ℕ
capacity t = length t.groups

-- The loops run over the first `count_` addresses.
abbrev pub members : GroupTable → List ℕ
members t = take t.group_count t.groups

pub is_member : GroupTable → ℕ → Bool
is_member t group_id = is_some (find_index? (λ g. g == group_id) (members t))

-- `count_ < capacity_ <= 255` where it grows, so it does not wrap.
pub add : GroupTable → ℕ → GroupTable × Bool
add t group_id =
    if not t.attached
    then (t, false)
    else if is_member t group_id
    then (t, true)
    else if leb (length t.groups) t.group_count
    then (t, false)
    else (
      record t { groups = set t.groups t.group_count group_id; group_count = t.group_count + 1 },
      true,
    )

-- The last group takes the place of the one that leaves.
pub remove : GroupTable → ℕ → GroupTable × Bool
remove t group_id =
    if not t.attached then (t, false) else (elim (find_index? (λ g. g == group_id) (members t)) [
      | none ↦ (t, false)
      | some i ↦ (
        record t {
          groups = set t.groups i (get_or t.groups (t.group_count - 1) 0);
          group_count = t.group_count - 1;
        },
        true,
      )
    ])

pub group_at : GroupTable → ℕ → ℕ
group_at t index = if ltb index t.group_count then get_or t.groups index 0 else 0xffff

pub clear : GroupTable → GroupTable
clear t = record t { group_count = 0 }
