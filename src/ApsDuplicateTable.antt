-- ===== src/ApsDuplicateTable.antt =====
-- src/ZigbeeApsDuplicateTable.h: which APS frames a receiver has already handed up. The method
-- returns the new table beside its answer.
pub mod Peers
mod Tests
use arduino_nrf_zigbee.Prelude.{
  ℕ, Bool, true, false, not, ◌&&◌, Option, none, some, List, if◌then◌else◌, ltb, ◌==◌, replicate,
  get_or,
}
use arduino_nrf_zigbee.Slots.{Table, find_index?, modify, spare?}

pub record ApsDupeEntry : Type 0 where
  pub used : Bool
  pub src_short : ℕ
  pub src_endpoint : ℕ
  pub last_counter : ℕ
  pub last_seen_ms : ℕ

abbrev pub empty_entry : ApsDupeEntry
empty_entry = record {
  used = false;
  src_short = 0;
  src_endpoint = 0;
  last_counter = 0;
  last_seen_ms = 0;
}

abbrev pub ApsDuplicateTable : Type 0
ApsDuplicateTable = Table ApsDupeEntry

-- `storage` of `capacity` entries
pub begin : ℕ → ApsDuplicateTable
begin capacity = record { attached = true; entries = replicate capacity empty_entry }

abbrev pub matches : ℕ → ℕ → ApsDupeEntry → Bool
matches src_short src_endpoint e =
    e.used && e.src_short == src_short && e.src_endpoint == src_endpoint

abbrev pub is_free : ApsDupeEntry → Bool
is_free e = not e.used

-- By the stamps as plain numbers, also where the clock has wrapped between them.
abbrev pub seen_before : ApsDupeEntry → ApsDupeEntry → Bool
seen_before a b = ltb a.last_seen_ms b.last_seen_ms

abbrev pub heard : ℕ → ℕ → ApsDupeEntry → ApsDupeEntry
heard counter now e = record e { last_counter = counter; last_seen_ms = now }

abbrev pub peer : ℕ → ℕ → ℕ → ℕ → ApsDupeEntry
peer src_short src_endpoint counter now = record {
  used = true;
  src_short = src_short;
  src_endpoint = src_endpoint;
  last_counter = counter;
  last_seen_ms = now;
}

-- The loop looks for the peer, and on its way for the first free slot; with neither, the entry of
-- the least `lastSeenMs` is overwritten. The table has an entry (`capacity_` of 0 would write
-- `entries_[0]` out of bounds).
pub check_and_record : ApsDuplicateTable → ℕ → ℕ → ℕ → ℕ → ApsDuplicateTable × Bool
check_and_record t src_short src_endpoint counter now =
    if t.attached
    then (elim (find_index? (matches src_short src_endpoint) t.entries) [
      | some i ↦ (
        record t { entries = modify t.entries i (heard counter now) },
        not ((get_or t.entries i empty_entry).last_counter == counter),
      )
      | none ↦ elim (spare? is_free (λ e. true) seen_before t.entries) [
        | none ↦ (t, true)
        | some i ↦ (
          record t { entries = modify t.entries i (λ _. peer src_short src_endpoint counter now) },
          true,
        )
      ]
    ])
    else (t, true)
