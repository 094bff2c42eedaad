-- ===== src/BroadcastTable.antt =====
-- src/ZigbeeBroadcastTable.h: the NWK broadcast transaction table. A method that changes the table
-- returns the new one beside its result.
pub mod Insert
pub mod Unique
pub mod Transactions
pub mod Retries
pub mod Expiry
mod Tests
use Prim.Native.Nat.{◌+◌}
use arduino_nrf_zigbee.Prelude.{
  ℕ, Bool, true, false, not, ◌&&◌, Option, none, some, List, if◌then◌else◌, ltb, leb, ◌==◌, length,
  get_elem?, get_or, replicate, sub32, bump8,
}
use arduino_nrf_zigbee.Slots.{Table, find_index?, count, update_where, modify, best?}

pub record BroadcastEntry : Type 0 where
  pub used : Bool
  pub source : ℕ
  pub sequence : ℕ
  pub first_seen_ms : ℕ
  pub last_tx_ms : ℕ
  pub retries : ℕ
  pub passive_acks : ℕ

abbrev pub empty_entry : BroadcastEntry
empty_entry = record {
  used = false;
  source = 0;
  sequence = 0;
  first_seen_ms = 0;
  last_tx_ms = 0;
  retries = 0;
  passive_acks = 0;
}

abbrev pub BroadcastTable : Type 0
BroadcastTable = Table BroadcastEntry

abbrev pub default_expiry_ms : ℕ
default_expiry_ms = 9000

-- `storage` of `capacity` entries
pub begin : ℕ → BroadcastTable
begin capacity = record { attached = true; entries = replicate capacity empty_entry }

pub slot : BroadcastTable → ℕ → Option BroadcastEntry
slot t i = if t.attached && ltb i (length t.entries) then get_elem? t.entries i else none

abbrev pub matches : ℕ → ℕ → BroadcastEntry → Bool
matches source sequence e = e.used && e.source == source && e.sequence == sequence

pub find : BroadcastTable → ℕ → ℕ → Option ℕ
find t source sequence =
    if t.attached then find_index? (matches source sequence) t.entries else none

-- `a` was first seen longer ago than `b`
abbrev pub older : ℕ → BroadcastEntry → BroadcastEntry → Bool
older now a b = ltb (sub32 now b.first_seen_ms) (sub32 now a.first_seen_ms)

-- A full table: the oldest entry is reset and its slot returned. The table has an entry
-- (`capacity_` of 0 would read `entries_[0]` out of bounds).
pub recycle : BroadcastTable → ℕ → BroadcastTable × Option ℕ
recycle t now = elim (best? (λ e. true) (older now) t.entries) [
  | none ↦ (t, none)
  | some i ↦ (record t { entries = modify t.entries i (λ e. empty_entry) }, some i)
]

pub allocate : BroadcastTable → ℕ → BroadcastTable × Option ℕ
allocate t now =
    if t.attached
    then (elim (find_index? (λ e. not e.used) t.entries) [
      | some i ↦ (t, some i)
      | none ↦ recycle t now
    ])
    else (t, none)

abbrev pub fresh_entry : ℕ → ℕ → ℕ → BroadcastEntry
fresh_entry source sequence now = record {
  used = true;
  source = source;
  sequence = sequence;
  first_seen_ms = now;
  last_tx_ms = now;
  retries = 0;
  passive_acks = 0;
}

-- The writes through the pointer that `allocate` returned; a null one means the table is not
-- attached, and the frame is still new.
pub store_fresh : BroadcastTable × Option ℕ → BroadcastEntry → BroadcastTable
store_fresh (t, none) e = t
store_fresh (t, some i) e = record t { entries = modify t.entries i (λ _. e) }

abbrev pub ack : BroadcastEntry → BroadcastEntry
ack e = record e { passive_acks = bump8 e.passive_acks }

-- true: a new transaction, to process and to rebroadcast; false: a duplicate.
pub record_incoming : BroadcastTable → ℕ → ℕ → ℕ → BroadcastTable × Bool
record_incoming t source sequence now = elim (find t source sequence) [
  | some i ↦ (record t { entries = modify t.entries i ack }, false)
  | none ↦ (store_fresh (allocate t now) (fresh_entry source sequence now), true)
]

abbrev pub touch : ℕ → BroadcastEntry → BroadcastEntry
touch now e = record e { last_tx_ms = now }

pub record_outgoing : BroadcastTable → ℕ → ℕ → ℕ → BroadcastTable × Option ℕ
record_outgoing t source sequence now = elim (find t source sequence) [
  | some i ↦ (record t { entries = modify t.entries i (touch now) }, some i)
  | none ↦ let a = allocate t now in (store_fresh a (fresh_entry source sequence now), a.1)
]

pub mark_passive_ack : BroadcastTable → ℕ → ℕ → BroadcastTable × Bool
mark_passive_ack t source sequence = elim (find t source sequence) [
  | none ↦ (t, false)
  | some i ↦ (record t { entries = modify t.entries i ack }, true)
]

abbrev pub is_due : ℕ → ℕ → ℕ → ℕ → BroadcastEntry → Bool
is_due now needed_acks retry_ms max_retries e =
    e.used
    && ltb e.retries max_retries
    && ltb e.passive_acks needed_acks
    && leb retry_ms (sub32 now e.last_tx_ms)

pub due : BroadcastTable → ℕ → ℕ → ℕ → ℕ → Option ℕ
due t now needed_acks retry_ms max_retries =
    if t.attached then find_index? (is_due now needed_acks retry_ms max_retries) t.entries else none

abbrev pub retried : ℕ → BroadcastEntry → BroadcastEntry
retried now e = record e { retries = bump8 e.retries; last_tx_ms = now }

pub mark_rebroadcast : BroadcastTable → Option ℕ → ℕ → BroadcastTable
mark_rebroadcast t none now = t
mark_rebroadcast t (some i) now = record t { entries = modify t.entries i (retried now) }

abbrev pub is_stale : ℕ → ℕ → BroadcastEntry → Bool
is_stale now expiry_ms e = e.used && leb expiry_ms (sub32 now e.first_seen_ms)

-- The number freed is at most `capacity_`, so the uint8_t counter does not wrap.
pub expire : BroadcastTable → ℕ → ℕ → BroadcastTable × ℕ
expire t now expiry_ms =
    if t.attached
    then (
      record t { entries = update_where (is_stale now expiry_ms) (λ e. empty_entry) t.entries },
      count (is_stale now expiry_ms) t.entries,
    )
    else (t, 0)

pub active_count : BroadcastTable → ℕ
active_count t = count (λ e. e.used) t.entries
