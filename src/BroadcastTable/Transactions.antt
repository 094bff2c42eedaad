-- ===== src/BroadcastTable/Transactions.antt =====
-- src/ZigbeeBroadcastTable.h: what the table remembers of each transaction, and which frames it
-- reports as new.
use arduino_nrf_zigbee.Prelude.{
  ℕ, suc, ◌≡◌, refl, inl, inr, ◌<◌, true, false, Option, none, some, List, [], ◌∷◌, arith,
  Option-cases, ltb, ◌+◌, if◌then◌else◌,
}
use arduino_nrf_zigbee.Slots.{find?}
use arduino_nrf_zigbee.Slots.Find.{find?-holds}
use arduino_nrf_zigbee.Slots.Count.{find?-none_of_count}
use arduino_nrf_zigbee.Slots.Spare.{Kept, set-Kept}
use arduino_nrf_zigbee.Slots.Place.{modify-eq-set, find?-place, find?-modify_miss}
use arduino_nrf_zigbee.BroadcastTable.Insert.{insert_lem, is_free}
use arduino_nrf_zigbee.BroadcastTable.Unique.{
  IsValid, absent, present, begin-IsValid, record_incoming-IsValid, record_outgoing-IsValid,
  mark_passive_ack-IsValid, mark_rebroadcast-IsValid, expire-IsValid,
}
use arduino_nrf_zigbee.BroadcastTable.{
  BroadcastEntry, BroadcastTable, begin, matches, find, fresh_entry, ack, record_incoming,
  record_outgoing, mark_passive_ack, mark_rebroadcast, expire, older,
}

-- The entry that `find` points to.
abbrev pub lookup : BroadcastTable → ℕ → ℕ → Option BroadcastEntry
lookup t source sequence = find? (matches source sequence) t.entries

-- A transaction is held as before, or it was dropped from a full table and no entry was older.
abbrev pub KeptTransaction : BroadcastTable → ℕ → BroadcastTable → ℕ → ℕ → Type 0
KeptTransaction t now t' source sequence =
    Kept is_free (older now) (matches source sequence) t.entries t'.entries

-- Any call of the table's methods; `rebroadcast` takes the pointer that `due` gave.
pub data Call : Type 0 where
  incoming outgoing : ℕ → ℕ → ℕ → Call
  passive_ack : ℕ → ℕ → Call
  rebroadcast : Option ℕ → ℕ → Call
  expiry : ℕ → ℕ → Call

pub step : BroadcastTable → Call → BroadcastTable
step t (incoming s q now) = (record_incoming t s q now).0
step t (outgoing s q now) = (record_outgoing t s q now).0
step t (passive_ack s q) = (mark_passive_ack t s q).0
step t (rebroadcast e now) = mark_rebroadcast t e now
step t (expiry now expiry_ms) = (expire t now expiry_ms).0

pub run : BroadcastTable → List Call → BroadcastTable
run t [] = t
run t (c ∷ cs) = run (step t c) cs

step-IsValid : {t : BroadcastTable} (c : Call) → IsValid t → IsValid (step t c)
unfolding step
step-IsValid (incoming s q now) v = record_incoming-IsValid s q now v
step-IsValid (outgoing s q now) v = record_outgoing-IsValid s q now v
step-IsValid (passive_ack s q) v = mark_passive_ack-IsValid s q v
step-IsValid (rebroadcast e now) v = mark_rebroadcast-IsValid e now v
step-IsValid (expiry now expiry_ms) v = expire-IsValid now expiry_ms v

run-IsValid : {t : BroadcastTable} (cs : List Call) → IsValid t → IsValid (run t cs)
unfolding run
run-IsValid [] v = v
run-IsValid {t = t} (c ∷ cs) v = run-IsValid {t = step t c} cs (step-IsValid c v)

-- After `begin` with at least one slot and any sequence of calls, the table holds at most one entry
-- for each transaction.
pub broadcast_run-IsValid :
    (capacity : ℕ) (cs : List Call) → 0 < capacity → IsValid (run (begin capacity) cs)
broadcast_run-IsValid capacity cs h = run-IsValid cs (begin-IsValid capacity h)

lookup_of_find :
    (t : BroadcastTable) (source sequence : ℕ)
    → IsValid t
    → lookup t source sequence ≡ none
    → find t source sequence ≡ none
lookup_of_find t s q v e = elim (Option-cases (find t s q)) [
  | inl n ↦ n
  | inr (i, p) ↦ let (x, _, _, f) = present t s q i p in cc
]

-- In a valid table, an arriving frame whose transaction is not held is reported as new and is held
-- from then on, with no retry and no passive ack counted. Any other transaction is held as before,
-- except that a full table may drop one when no entry was first seen longer ago.
pub record_incoming_new :
    (t : BroadcastTable) (source sequence now s q : ℕ)
    → IsValid t
    → lookup t source sequence ≡ none
    → matches s q (fresh_entry source sequence now) ≡ false
    → let (t', is_new) = record_incoming t source sequence now in
      (is_new ≡ true)
      × (lookup t' source sequence ≡ some (fresh_entry source sequence now))
      × KeptTransaction t now t' s q
unfolding record_incoming
record_incoming_new t source sequence now s q v e other =
    let new = fresh_entry source sequence now in
    let missing = lookup_of_find t source sequence v e in
    let (i, x, stored, at, why) = insert_lem t now new v.is_attached v.nonempty in
    rw (missing, record_incoming, stored)
      (
        refl,
        find?-place (matches source sequence) t.entries i new x at (v.unique source sequence)
            (ground arith) (λ _. absent source sequence v missing),
        set-Kept is_free (older now) (matches s q) t.entries i new at why (v.unique s q) other
            (λ hit. ground arith),
      )

-- In a valid table, an arriving frame whose transaction is held is reported as a duplicate: its entry
-- counts one passive ack more, if it had counted less than 255, and keeps all else, and any other
-- transaction is held as before.
pub record_incoming_duplicate :
    (t : BroadcastTable) (source sequence now s q : ℕ) (x : BroadcastEntry)
    → IsValid t
    → lookup t source sequence ≡ some x
    → matches s q x ≡ false
    → let (t', is_new) = record_incoming t source sequence now in
      (is_new ≡ false)
      × (lookup t' source sequence
          ≡ some (record x {
            passive_acks = if ltb x.passive_acks 255 then x.passive_acks + 1 else x.passive_acks;
          }))
      × (lookup t' s q ≡ lookup t s q)
unfolding record_incoming
record_incoming_duplicate t source sequence now s q x v e other =
    elim (Option-cases (find t source sequence)) [
      | inl n ↦ cc (find?-none_of_count _ _ (absent source sequence v n))
      | inr (i, p) ↦
          let (y, at, hit, f) = present t source sequence i p in
          let y_is_x : y ≡ x = cc in
          rw (p, record_incoming)
            (
              refl,
              rw (modify-eq-set t.entries i ack at, y_is_x)
                  (find?-place (matches source sequence) t.entries i (ack x) y at
                    (v.unique source sequence) (rw y_is_x at hit) (λ miss. cc)),
              find?-modify_miss (matches s q) t.entries i ack at (rw y_is_x other)
                  (rw y_is_x other),
            )
    ]

-- In a valid table, whether the transaction was held or not, the same frame arriving again as the next
-- call, whatever the time, is reported as a duplicate.
pub record_incoming_again :
    (t : BroadcastTable) (source sequence now later : ℕ)
    → IsValid t
    → (record_incoming (record_incoming t source sequence now).0 source sequence later).1 ≡ false
record_incoming_again t source sequence now later v =
    elim (Option-cases (lookup t source sequence)) [
      | inl e ↦
          let (_, held, _) =
            record_incoming_new t source sequence now (suc source) sequence v e (ground arith) in
          (record_incoming_duplicate _ source sequence later (suc source) sequence _ next held
            (ground arith)).0
      | inr (x, e) ↦
          let hit = find?-holds (matches source sequence) t.entries e in
          let (_, held, _) =
            record_incoming_duplicate t source sequence now (suc source) sequence x v e
              (ground arith) in
          (record_incoming_duplicate _ source sequence later (suc source) sequence _ next held
            (ground arith)).0
    ]
  where
    next : IsValid (record_incoming t source sequence now).0
    next = record_incoming-IsValid source sequence now v
