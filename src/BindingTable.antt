-- ===== src/BindingTable.antt =====
-- src/ZigbeeBindingTable.h: the destinations that the local endpoints are bound to. A method that
-- changes the table returns the new one beside its result.
pub mod Iterate
pub mod Bound
mod Tests
use arduino_nrf_zigbee.Prelude.{
  ℕ, suc, Bool, true, false, not, ◌&&◌, Option, none, some, List, [], ◌∷◌, if◌then◌else◌, ltb, ◌==◌,
  is_some, get_elem?, set, length, replicate, drop,
}
use arduino_nrf_zigbee.Slots.{Table, find_index?, count}

-- enum ZigbeeBindAddrMode
abbrev pub addr_group : ℕ
addr_group = 0x01

pub record ZigbeeBinding : Type 0 where
  pub used : Bool
  pub src_ieee : ℕ
  pub src_endpoint : ℕ
  pub cluster_id : ℕ
  pub dst_addr_mode : ℕ
  pub dst_group : ℕ
  pub dst_ieee : ℕ
  pub dst_endpoint : ℕ

abbrev pub no_binding : ZigbeeBinding
no_binding = record {
  used = false;
  src_ieee = 0;
  src_endpoint = 0;
  cluster_id = 0;
  dst_addr_mode = 0;
  dst_group = 0;
  dst_ieee = 0;
  dst_endpoint = 0;
}

abbrev pub BindingTable : Type 0
BindingTable = Table ZigbeeBinding

-- `storage` of `capacity` entries
pub begin : ℕ → BindingTable
begin capacity = record { attached = true; entries = replicate capacity no_binding }

pub capacity : BindingTable → ℕ
capacity t = length t.entries

pub used_count : BindingTable → ℕ
used_count t = count (λ e. e.used) t.entries

-- `none` is a null pointer.
pub slot : BindingTable → ℕ → Option ZigbeeBinding
slot t index =
    if t.attached && ltb index (length t.entries) then get_elem? t.entries index else none

abbrev pub same_destination : ZigbeeBinding → ZigbeeBinding → Bool
same_destination b e =
    if b.dst_addr_mode == addr_group
    then e.dst_group == b.dst_group
    else e.dst_ieee == b.dst_ieee && e.dst_endpoint == b.dst_endpoint

-- The entries that `find` accepts for `b`.
abbrev pub matches : ZigbeeBinding → ZigbeeBinding → Bool
matches b e =
    e.used
    && ((e.src_endpoint == b.src_endpoint && e.cluster_id == b.cluster_id)
        && (e.dst_addr_mode == b.dst_addr_mode && same_destination b e))

pub find : BindingTable → ZigbeeBinding → Option ℕ
find t b = if t.attached then find_index? (matches b) t.entries else none

pub add : BindingTable → ZigbeeBinding → BindingTable × Bool
add t b =
    if not t.attached
    then (t, false)
    else if is_some (find t b)
    then (t, true)
    else (elim (find_index? (λ e. not e.used) t.entries) [
      | none ↦ (t, false)
      | some i ↦ (record t { entries = set t.entries i (record b { used = true }) }, true)
    ])

pub remove : BindingTable → ZigbeeBinding → BindingTable × Bool
remove t b = elim (find t b) [
  | none ↦ (t, false)
  | some i ↦ (record t { entries = set t.entries i no_binding }, true)
]

abbrev pub is_bound : ℕ → ℕ → ZigbeeBinding → Bool
is_bound src_endpoint cluster_id e =
    e.used && (e.src_endpoint == src_endpoint && e.cluster_id == cluster_id)

-- The loop of `next` over the entries from `cursor` on; `cursor` stays at or below `capacity_`, so it
-- does not wrap.
pub next_from : ℕ → ℕ → ℕ → List ZigbeeBinding → Option ZigbeeBinding × ℕ
next_from src_endpoint cluster_id cursor [] = (none, cursor)
next_from src_endpoint cluster_id cursor (e ∷ es) =
    let rest = next_from src_endpoint cluster_id (suc cursor) es in
    if is_bound src_endpoint cluster_id e then (some e, suc cursor) else rest

-- The binding returned, and the cursor after the call.
pub next : BindingTable → ℕ → ℕ → ℕ → Option ZigbeeBinding × ℕ
next t src_endpoint cluster_id cursor =
    if t.attached
    then next_from src_endpoint cluster_id cursor (drop cursor t.entries)
    else (none, cursor)
