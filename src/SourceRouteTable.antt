-- ===== src/SourceRouteTable.antt =====
-- src/ZigbeeSourceRouteTable.h: the concentrator's store of source routes. A method that changes the
-- table returns the new one beside its result.
pub mod Unique
pub mod Routes
mod Tests
use arduino_nrf_zigbee.Prelude.{
  ℕ, zero, suc, ◌+◌, ◌-◌, Bool, true, false, not, ◌&&◌, ◌||◌, Option, none, some, List, [], ◌∷◌,
  ◌++◌, if◌then◌else◌, ltb, leb, ◌==◌, is_some, or_else, length, get_elem?, get_or, take, drop,
  replicate, sub32, before32,
}
use arduino_nrf_zigbee.Slots.{Table, find_index?, count, update_where, modify, best?}

abbrev pub max_relays : ℕ
max_relays = 8

-- `relays` is the array of `kMaxRelays` addresses; the first `relay_count` of them are the path.
pub record SourceRouteEntry : Type 0 where
  pub used : Bool
  pub dest_addr : ℕ
  pub relay_count : ℕ
  pub relays : List ℕ
  pub updated_ms : ℕ

-- The constructor leaves `relays` as it was; no reader looks past `relay_count`.
abbrev pub empty_entry : SourceRouteEntry
empty_entry = record {
  used = false;
  dest_addr = 0xffff;
  relay_count = 0;
  relays = replicate max_relays 0;
  updated_ms = 0;
}

abbrev pub SourceRouteTable : Type 0
SourceRouteTable = Table SourceRouteEntry

abbrev pub default_max_age_ms : ℕ
default_max_age_ms = 60000

-- `storage` of `capacity` entries
pub begin : ℕ → SourceRouteTable
begin capacity = record { attached = true; entries = replicate capacity empty_entry }

abbrev pub matches : ℕ → SourceRouteEntry → Bool
matches dest e = e.used && e.dest_addr == dest

pub find : SourceRouteTable → ℕ → Option ℕ
find t dest = if t.attached then find_index? (matches dest) t.entries else none

abbrev pub is_free : SourceRouteEntry → Bool
is_free e = not e.used

pub first_free : SourceRouteTable → Option ℕ
first_free t = find_index? is_free t.entries

-- `(int32_t)(a.updatedMs - b.updatedMs) < 0`
abbrev pub older : SourceRouteEntry → SourceRouteEntry → Bool
older a b = before32 a.updated_ms b.updated_ms

pub oldest : SourceRouteTable → Option ℕ
oldest t = best? (λ e. e.used) older t.entries

-- for (i = 0; i < n; ++i) to[i] = from[i];
abbrev pub copy_relays : ℕ → List ℕ → List ℕ → List ℕ
copy_relays n from to = take n from ++ drop n to

abbrev pub installed : ℕ → List ℕ → ℕ → ℕ → SourceRouteEntry → SourceRouteEntry
installed dest relays relay_count now e = record {
  used = true;
  dest_addr = dest;
  relay_count = relay_count;
  relays = copy_relays relay_count relays e.relays;
  updated_ms = now;
}

abbrev pub path : Option (List ℕ) → List ℕ
path none = []
path (some rs) = rs

-- `relays` is null or an array of at least `relay_count` addresses.
pub install : SourceRouteTable → ℕ → Option (List ℕ) → ℕ → ℕ → SourceRouteTable × Bool
install t dest relays relay_count now =
    if not t.attached || ltb max_relays relay_count
    then (t, false)
    else if ltb 0 relay_count && not (is_some relays)
    then (t, false)
    else (elim (or_else (find t dest) (or_else (first_free t) (oldest t))) [
      | none ↦ (t, false)
      | some i ↦ (
        record t { entries = modify t.entries i (installed dest (path relays) relay_count now) },
        true,
      )
    ])

pub has : SourceRouteTable → ℕ → Bool
has t dest = is_some (find t dest)

-- The loop of `downstreamRoute`: relays[n - 1], relays[n - 2], ..., relays[0].
pub backwards : ℕ → List ℕ → List ℕ
backwards zero relays = []
backwards (suc n) relays = get_or relays n 0 ∷ backwards n relays

-- The value returned, and what is written to `out`.
pub downstream_route : SourceRouteTable → ℕ → ℕ → ℕ × List ℕ
downstream_route t dest out_max = elim (find t dest) [
  | none ↦ (255, [])
  | some i ↦
      let e = get_or t.entries i empty_entry in
      if ltb out_max e.relay_count
      then (255, [])
      else (e.relay_count, backwards e.relay_count e.relays)
]

pub remove : SourceRouteTable → ℕ → SourceRouteTable × Bool
remove t dest = elim (find t dest) [
  | none ↦ (t, false)
  | some i ↦ (record t { entries = modify t.entries i (λ _. empty_entry) }, true)
]

abbrev pub is_stale : ℕ → ℕ → SourceRouteEntry → Bool
is_stale now max_age_ms e = e.used && leb max_age_ms (sub32 now e.updated_ms)

pub expire : SourceRouteTable → ℕ → ℕ → SourceRouteTable × ℕ
expire t now max_age_ms =
    if t.attached
    then (
      record t { entries = update_where (is_stale now max_age_ms) (λ _. empty_entry) t.entries },
      count (is_stale now max_age_ms) t.entries,
    )
    else (t, 0)

pub active_count : SourceRouteTable → ℕ
active_count t = count (λ e. e.used) t.entries
