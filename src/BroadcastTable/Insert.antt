-- ===== src/BroadcastTable/Insert.antt =====
-- src/ZigbeeBroadcastTable.h: where the table puts a transaction that it does not hold yet.
use arduino_nrf_zigbee.Prelude.{
  ℕ, ◌≡◌, refl, inl, inr, ◌<◌, Bool, true, not, some, arith, get_elem?, set, length, Option-cases,
}
use arduino_nrf_zigbee.Slots.{find_index?, spare?}
use arduino_nrf_zigbee.Slots.Place.{modify-eq-set, modify-modify}
use arduino_nrf_zigbee.Slots.Spare.{Reusable, spare?-some}
use arduino_nrf_zigbee.BroadcastTable.{
  BroadcastEntry, BroadcastTable, empty_entry, older, recycle, allocate, store_fresh,
}

abbrev pub is_free : BroadcastEntry → Bool
is_free e = not e.used

store_fresh-allocate :
    (t : BroadcastTable) (now : ℕ) (v : BroadcastEntry) (i : ℕ) {x : BroadcastEntry}
    → t.attached ≡ true
    → spare? is_free (λ e. true) (older now) t.entries ≡ some i
    → get_elem? t.entries i ≡ some x
    → store_fresh (allocate t now) v ≡ record t { entries = set t.entries i v }
unfolding allocate recycle store_fresh
store_fresh-allocate t now v i a e at = elim (Option-cases (find_index? is_free t.entries)) [
  | inl full ↦ ground (
    arith,
    modify-eq-set t.entries i (λ _. v) at,
    modify-modify t.entries i (λ _. empty_entry) (λ _. v),
  )
  | inr (j, found) ↦ ground (arith, modify-eq-set t.entries i (λ _. v) at)
]

-- A new entry overwrites a free slot, or the oldest entry of a full table.
pub insert_lem :
    (t : BroadcastTable) (now : ℕ) (v : BroadcastEntry)
    → t.attached ≡ true
    → 0 < length t.entries
    → (i : ℕ) × (x : BroadcastEntry) × (store_fresh (allocate t now) v
        ≡ record t { entries = set t.entries i v })
      × (get_elem? t.entries i ≡ some x)
      × Reusable is_free (older now) t.entries x
insert_lem t now v a nonempty =
    let (i, x, e, at, why) =
      spare?-some is_free (λ e. true) (older now) (λ x. ground arith) (λ x o y p q. ground arith)
        (λ x p. refl) t.entries nonempty in
    (i, x, store_fresh-allocate t now v i a e at, at, why)
