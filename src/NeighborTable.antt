-- ===== src/NeighborTable.antt =====
-- ZigbeeNeighborTable of src/ZigbeeTables.h and src/ZigbeeTables.cpp: the devices in radio range. A
-- method that changes the table returns the new one beside its result.
pub mod Unique
pub mod Aging
pub mod Parent
pub mod Runs
mod Tests
use arduino_nrf_zigbee.Prelude.{
  ℕ, Bool, true, false, not, ◌&&◌, ◌||◌, Option, none, some, List, if◌then◌else◌, ltb, ◌==◌,
  or_else, length, get_elem?, replicate,
}
use arduino_nrf_zigbee.Slots.{Table, find_index?, best?, count, modify, update_where}

-- enum ZigbeeDeviceType
abbrev pub device_coordinator : ℕ
device_coordinator = 0

abbrev pub device_router : ℕ
device_router = 1

-- enum ZigbeeNeighborRelationship
abbrev pub rel_child : ℕ
rel_child = 1

abbrev pub rel_previous_child : ℕ
rel_previous_child = 4

pub record ZigbeeNeighbor : Type 0 where
  pub used : Bool
  pub nwk_address : ℕ
  pub ieee_address : ℕ
  pub device_type : ℕ
  pub relationship : ℕ
  pub depth : ℕ
  pub lqi : ℕ
  pub incoming_cost : ℕ
  pub outgoing_cost : ℕ
  pub rx_on_when_idle : Bool
  pub permit_joining : Bool
  pub last_seen_ms : ℕ

abbrev pub no_neighbor : ZigbeeNeighbor
no_neighbor = record {
  used = false;
  nwk_address = 0;
  ieee_address = 0;
  device_type = 0;
  relationship = 0;
  depth = 0;
  lqi = 0;
  incoming_cost = 0;
  outgoing_cost = 0;
  rx_on_when_idle = false;
  permit_joining = false;
  last_seen_ms = 0;
}

abbrev pub NeighborTable : Type 0
NeighborTable = Table ZigbeeNeighbor

-- `entries` of `capacity` neighbors
pub begin : ℕ → NeighborTable
begin capacity = record { attached = true; entries = replicate capacity no_neighbor }

pub clear : NeighborTable → NeighborTable
clear t = if t.attached then record t { entries = replicate (length t.entries) no_neighbor } else t

pub neighbor_count : NeighborTable → ℕ
neighbor_count t = if t.attached then count (λ e. e.used) t.entries else 0

pub slot : NeighborTable → ℕ → Option ZigbeeNeighbor
slot t i = if t.attached && ltb i (length t.entries) then get_elem? t.entries i else none

abbrev pub has_nwk : ℕ → ZigbeeNeighbor → Bool
has_nwk nwk e = e.used && e.nwk_address == nwk

abbrev pub has_ieee : ℕ → ZigbeeNeighbor → Bool
has_ieee ieee e = e.used && e.ieee_address == ieee

pub find_by_nwk : NeighborTable → ℕ → Option ℕ
find_by_nwk t nwk = if t.attached then find_index? (has_nwk nwk) t.entries else none

pub find_by_ieee : NeighborTable → ℕ → Option ℕ
find_by_ieee t ieee = if t.attached then find_index? (has_ieee ieee) t.entries else none

abbrev pub is_free : ZigbeeNeighbor → Bool
is_free e = not e.used

pub first_free : NeighborTable → Option ℕ
first_free t = if t.attached then find_index? is_free t.entries else none

-- By the stamps as plain numbers, also where the clock has wrapped between them.
abbrev pub seen_before : ZigbeeNeighbor → ZigbeeNeighbor → Bool
seen_before a b = ltb a.last_seen_ms b.last_seen_ms

pub least_recently_seen : NeighborTable → Option ℕ
least_recently_seen t = if t.attached then best? (λ e. e.used) seen_before t.entries else none

-- What `upsert` is told of a device.
pub record Report : Type 0 where
  pub nwk_address : ℕ
  pub ieee_address : ℕ
  pub device_type : ℕ
  pub relationship : ℕ
  pub depth : ℕ
  pub lqi : ℕ
  pub rx_on_when_idle : Bool
  pub permit_joining : Bool

-- `!entry->used || entry->nwkAddress != nwkAddress`
abbrev pub is_fresh : ℕ → ZigbeeNeighbor → Bool
is_fresh nwk e = not e.used || not (e.nwk_address == nwk)

-- The writes of `upsert`: the link costs of a known neighbor stay.
abbrev pub refreshed : Report → ℕ → ZigbeeNeighbor → ZigbeeNeighbor
refreshed r now e = record {
  used = true;
  nwk_address = r.nwk_address;
  ieee_address = r.ieee_address;
  device_type = r.device_type;
  relationship = r.relationship;
  depth = r.depth;
  lqi = r.lqi;
  incoming_cost = if is_fresh r.nwk_address e then 0 else e.incoming_cost;
  outgoing_cost = if is_fresh r.nwk_address e then 0 else e.outgoing_cost;
  rx_on_when_idle = r.rx_on_when_idle;
  permit_joining = r.permit_joining;
  last_seen_ms = now;
}

-- The slot that `upsert` writes.
pub upsert_slot : NeighborTable → Report → Option ℕ
upsert_slot t r = or_else (find_by_nwk t r.nwk_address) (
    or_else (if not (r.ieee_address == 0) then find_by_ieee t r.ieee_address else none)
      (or_else (first_free t) (least_recently_seen t)))

pub upsert : NeighborTable → Report → ℕ → NeighborTable × Option ℕ
upsert t r now = elim (upsert_slot t r) [
  | none ↦ (t, none)
  | some i ↦ (record t { entries = modify t.entries i (refreshed r now) }, some i)
]

abbrev pub is_router : ZigbeeNeighbor → Bool
is_router e = e.device_type == device_router || e.device_type == device_coordinator

-- The entries that `removeStaleRouters` ages: a previous child is left for replacement.
abbrev pub is_aged : ℕ → ℕ → ZigbeeNeighbor → Bool
is_aged cutoff spare e =
    (e.used && not (e.nwk_address == spare))
    && (is_router e && (ltb e.last_seen_ms cutoff && not (e.relationship == rel_previous_child)))

-- A child keeps its address, any other router goes.
abbrev pub aged : ZigbeeNeighbor → ZigbeeNeighbor
aged e =
    if e.relationship == rel_child && not (e.ieee_address == 0)
    then record e {
      relationship = rel_previous_child;
      incoming_cost = 0;
      outgoing_cost = 0;
      permit_joining = false;
    }
    else no_neighbor

pub remove_stale_routers : NeighborTable → ℕ → ℕ → NeighborTable × ℕ
remove_stale_routers t cutoff spare =
    if t.attached
    then (
      record t { entries = update_where (is_aged cutoff spare) aged t.entries },
      count (is_aged cutoff spare) t.entries,
    )
    else (t, 0)

pub remove_by_nwk : NeighborTable → ℕ → NeighborTable × Bool
remove_by_nwk t nwk = elim (find_by_nwk t nwk) [
  | none ↦ (t, false)
  | some i ↦ (record t { entries = modify t.entries i (λ _. no_neighbor) }, true)
]

abbrev pub is_older : ℕ → ZigbeeNeighbor → Bool
is_older cutoff e = e.used && ltb e.last_seen_ms cutoff

pub remove_older_than : NeighborTable → ℕ → NeighborTable × ℕ
remove_older_than t cutoff =
    if t.attached
    then (
      record t { entries = update_where (is_older cutoff) (λ _. no_neighbor) t.entries },
      count (is_older cutoff) t.entries,
    )
    else (t, 0)

abbrev pub can_parent : ZigbeeNeighbor → Bool
can_parent e = (e.used && e.permit_joining) && is_router e

-- `a.lqi > b.lqi || (a.lqi == b.lqi && a.depth < b.depth)`
abbrev pub preferred : ZigbeeNeighbor → ZigbeeNeighbor → Bool
preferred a b = ltb b.lqi a.lqi || (a.lqi == b.lqi && ltb a.depth b.depth)

pub best_parent_candidate : NeighborTable → Option ℕ
best_parent_candidate t = if t.attached then best? can_parent preferred t.entries else none
