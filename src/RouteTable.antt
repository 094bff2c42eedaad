-- ===== src/RouteTable.antt =====
-- ZigbeeRouteTable of src/ZigbeeTables.h and src/ZigbeeTables.cpp: the next hop to each destination. A
-- method that changes the table returns the new one beside its result.
pub mod Unique
pub mod Refine
mod Tests
use arduino_nrf_zigbee.Prelude.{
  ℕ, Bool, true, false, not, ◌&&◌, Option, none, some, List, if◌then◌else◌, ltb, ◌==◌, or_else,
  length, replicate,
}
use arduino_nrf_zigbee.Slots.{Table, find_index?, best?, count, modify, update_where}

-- enum ZigbeeRouteStatus
abbrev pub route_active : ℕ
route_active = 0

abbrev pub discovery_underway : ℕ
discovery_underway = 1

pub record ZigbeeRoute : Type 0 where
  pub used : Bool
  pub dst_address : ℕ
  pub next_hop : ℕ
  pub status : ℕ
  pub many_to_one : Bool
  pub route_record_required : Bool
  pub updated_ms : ℕ

abbrev pub no_route : ZigbeeRoute
no_route = record {
  used = false;
  dst_address = 0;
  next_hop = 0;
  status = 0;
  many_to_one = false;
  route_record_required = false;
  updated_ms = 0;
}

abbrev pub RouteTable : Type 0
RouteTable = Table ZigbeeRoute

-- `entries` of `capacity` routes
unfoldable pub begin : ℕ → RouteTable
begin capacity = record { attached = true; entries = replicate capacity no_route }

pub clear : RouteTable → RouteTable
clear t = if t.attached then record t { entries = replicate (length t.entries) no_route } else t

pub route_count : RouteTable → ℕ
route_count t = if t.attached then count (λ e. e.used) t.entries else 0

abbrev pub matches : ℕ → ZigbeeRoute → Bool
matches dst e = e.used && e.dst_address == dst

unfoldable pub find : RouteTable → ℕ → Option ℕ
find t dst = if t.attached then find_index? (matches dst) t.entries else none

abbrev pub is_free : ZigbeeRoute → Bool
is_free e = not e.used

pub first_free : RouteTable → Option ℕ
first_free t = if t.attached then find_index? is_free t.entries else none

-- By the stamps as plain numbers, also where the clock has wrapped between them.
abbrev pub updated_before : ZigbeeRoute → ZigbeeRoute → Bool
updated_before a b = ltb a.updated_ms b.updated_ms

pub least_recently_updated : RouteTable → Option ℕ
least_recently_updated t = if t.attached then best? (λ e. e.used) updated_before t.entries else none

-- The writes of `upsert`, to every field.
abbrev pub route : ℕ → ℕ → ℕ → Bool → Bool → ℕ → ZigbeeRoute
route dst next_hop status many_to_one route_record_required now = record {
  used = true;
  dst_address = dst;
  next_hop = next_hop;
  status = status;
  many_to_one = many_to_one;
  route_record_required = route_record_required;
  updated_ms = now;
}

unfoldable pub upsert : RouteTable → ℕ → ℕ → ℕ → Bool → Bool → ℕ → RouteTable × Option ℕ
unfolding first_free least_recently_updated
upsert t dst next_hop status many_to_one route_record_required now =
    elim (or_else (find t dst) (or_else (first_free t) (least_recently_updated t))) [
      | none ↦ (t, none)
      | some i ↦ (
        record t {
          entries =
              modify t.entries i
                (λ _. route dst next_hop status many_to_one route_record_required now);
        },
        some i,
      )
    ]

pub remove : RouteTable → ℕ → RouteTable × Bool
remove t dst = elim (find t dst) [
  | none ↦ (t, false)
  | some i ↦ (record t { entries = modify t.entries i (λ _. no_route) }, true)
]

abbrev pub is_inactive : ZigbeeRoute → Bool
is_inactive e = e.used && not (e.status == route_active)

pub remove_inactive : RouteTable → RouteTable × ℕ
remove_inactive t =
    if t.attached
    then (
      record t { entries = update_where is_inactive (λ _. no_route) t.entries },
      count is_inactive t.entries,
    )
    else (t, 0)
