-- ===== src/ApsDuplicateTable/Peers.antt =====
-- src/ZigbeeApsDuplicateTable.h: what the table remembers of each peer.
use arduino_nrf_zigbee.Prelude.{
  ltb, ℕ, suc, ◌≡◌, refl, ◌∙◌, inl, inr, ◌<◌, ◌≤◌, Bool, true, false, not, Option, none, some,
  arith, get_elem?, get_or-eq, set, length, length-set, length-replicate, Option-cases, ◌==◌,
}
use arduino_nrf_zigbee.Slots.{find_index?, find?, count, modify, spare?}
use arduino_nrf_zigbee.Slots.Find.{
  find_index?-some, find_index?-none, find_index?_of_none, find?-holds,
}
use arduino_nrf_zigbee.Slots.Count.{count-replicate, count_of_find?-none}
use arduino_nrf_zigbee.Slots.Spare.{Reusable, Kept, spare?-some, set-Kept}
use arduino_nrf_zigbee.Slots.Place.{
  modify-eq-set, count-place, count-modify_same, find?-place, find?-modify_miss, length-modify,
}
use arduino_nrf_zigbee.ApsDuplicateTable.{
  ApsDupeEntry, ApsDuplicateTable, empty_entry, begin, matches, is_free, seen_before, heard, peer,
  check_and_record,
}

pub record IsValid (t : ApsDuplicateTable) : Type 0 where
  pub is_attached : t.attached ≡ true
  pub nonempty : 0 < length t.entries
  pub unique : (src_short src_endpoint : ℕ) → count (matches src_short src_endpoint) t.entries ≤ 1

-- The entry of a peer.
abbrev pub lookup : ApsDuplicateTable → ℕ → ℕ → Option ApsDupeEntry
lookup t src_short src_endpoint = find? (matches src_short src_endpoint) t.entries

pub begin-IsValid : (capacity : ℕ) → 0 < capacity → IsValid (begin capacity)
unfolding begin
begin-IsValid capacity h = record {
  is_attached = refl;
  nonempty = omega (arith, length-replicate capacity empty_entry);
  unique = λ s e. omega (arith, count-replicate (matches s e) capacity empty_entry refl);
}

known_lem :
    (t : ApsDuplicateTable) (src ep counter now : ℕ) {x : ApsDupeEntry}
    → IsValid t
    → lookup t src ep ≡ some x
    → (i : ℕ) × (check_and_record t src ep counter now ≡ (
      record t { entries = modify t.entries i (heard counter now) },
      not (x.last_counter == counter),
    ))
      × (get_elem? t.entries i ≡ some x)
unfolding check_and_record
known_lem t src ep counter now {x} v e =
    elim (Option-cases (find_index? (matches src ep) t.entries)) [
      | inl n ↦ cc (find_index?-none (matches src ep) t.entries n)
      | inr (i, p) ↦
          let (y, at, _, f) = find_index?-some (matches src ep) t.entries i p in
          let same : get_elem? t.entries i ≡ some x = cc in
          (
            i,
            rw (p, check_and_record, get_or-eq t.entries i empty_entry same)
                (ground (arith, v.is_attached)),
            same,
          )
    ]

store_unknown :
    (t : ApsDuplicateTable) (src ep counter now i : ℕ) {x : ApsDupeEntry}
    → t.attached ≡ true
    → find_index? (matches src ep) t.entries ≡ none
    → spare? is_free (λ e. true) seen_before t.entries ≡ some i
    → get_elem? t.entries i ≡ some x
    → check_and_record t src ep counter now
      ≡ (record t { entries = set t.entries i (peer src ep counter now) }, true)
unfolding check_and_record
store_unknown t src ep counter now i a n s at =
    rw (check_and_record, n, s, modify-eq-set t.entries i (λ _. peer src ep counter now) at)
      (ground arith)

unknown_lem :
    (t : ApsDuplicateTable) (src ep counter now : ℕ)
    → IsValid t
    → lookup t src ep ≡ none
    → (i : ℕ) × (x : ApsDupeEntry) × (check_and_record t src ep counter now
        ≡ (record t { entries = set t.entries i (peer src ep counter now) }, true))
      × (get_elem? t.entries i ≡ some x)
      × Reusable is_free seen_before t.entries x
unknown_lem t src ep counter now v e =
    let (i, x, s, at, why) =
      spare?-some is_free (λ e. true) seen_before (λ x. ground arith) (λ x o y p q. ground arith)
        (λ x p. refl) t.entries v.nonempty in
    (
      i,
      x,
      store_unknown t src ep counter now i v.is_attached
          (find_index?_of_none (matches src ep) t.entries e) s at,
      at,
      why,
    )

-- Every call keeps at most one entry for each peer.
pub check_and_record-IsValid :
    {t : ApsDuplicateTable} (src_short src_endpoint counter now : ℕ)
    → IsValid t
    → IsValid (check_and_record t src_short src_endpoint counter now).0
check_and_record-IsValid {t} src ep counter now v = elim (Option-cases (lookup t src ep)) [
  | inr (x, e) ↦
      let (i, c, at) = known_lem t src ep counter now v e in
      rw c record {
        is_attached = v.is_attached;
        nonempty = omega (arith, v.nonempty, length-modify t.entries i (heard counter now));
        unique = λ s q. omega (
          arith,
          v.unique s q,
          count-modify_same (matches s q) t.entries i (heard counter now) (λ x. refl),
        );
      }
  | inl e ↦
      let (i, x, c, at, _) = unknown_lem t src ep counter now v e in
      let new = peer src ep counter now in
      rw c record {
        is_attached = v.is_attached;
        nonempty = omega (arith, v.nonempty, length-set t.entries i new);
        unique = λ s q. count-place (matches s q) t.entries i new x at (v.unique s q) (λ hit _.
            let e₁ : src ≡ s = ground arith in
            let e₂ : ep ≡ q = ground arith in
            rw (← e₁, ← e₂) (count_of_find?-none (matches src ep) t.entries e));
      }
]

-- What a receiver answers for a frame: it is new unless the peer's last frame had the same counter.
abbrev pub is_new : Option ApsDupeEntry → ℕ → Bool
is_new none counter = true
is_new (some x) counter = not (x.last_counter == counter)

abbrev pub counter_of : Option ApsDupeEntry → Option ℕ
counter_of none = none
counter_of (some x) = some x.last_counter

-- In a valid table, a frame is reported as new exactly when its counter is not the last one seen from
-- its source address and endpoint, and its counter is the last one seen from then on. What is known
-- of any other peer is kept, except that a full table may drop a peer when no entry of the table has a
-- smaller last-seen stamp. The stamps are compared as plain numbers, so that the peer dropped is not the
-- one that was seen the longest time ago when the clock has wrapped in between.
pub check_and_record_lem :
    (t : ApsDuplicateTable) (src_short src_endpoint counter now s q : ℕ)
    → IsValid t
    → matches s q (peer src_short src_endpoint counter now) ≡ false
    → let (t', new) = check_and_record t src_short src_endpoint counter now in
      (new ≡ is_new (lookup t src_short src_endpoint) counter)
      × (counter_of (lookup t' src_short src_endpoint) ≡ some counter)
      × Kept is_free (λ a b. ltb a.last_seen_ms b.last_seen_ms) (matches s q) t.entries t'.entries
check_and_record_lem t src ep counter now s q v other = elim (Option-cases (lookup t src ep)) [
  | inr (x, e) ↦
      let (i, c, at) = known_lem t src ep counter now v e in
      let hit = find?-holds (matches src ep) t.entries e in
      rw (c, e)
        (
          refl,
          rw
              (
                modify-eq-set t.entries i (heard counter now) at,
                find?-place (matches src ep) t.entries i (heard counter now x) x at
                    (v.unique src ep) hit (λ miss. cc),
              )
              refl,
          inl (
              find?-modify_miss (matches s q) t.entries i (heard counter now) at (ground arith)
                (ground arith)),
        )
  | inl e ↦
      let (i, x, c, at, why) = unknown_lem t src ep counter now v e in
      let new = peer src ep counter now in
      rw (c, e)
        (
          refl,
          rw
              (find?-place (matches src ep) t.entries i new x at (v.unique src ep) (ground arith)
                (λ _. count_of_find?-none (matches src ep) t.entries e))
              refl,
          set-Kept is_free seen_before (matches s q) t.entries i new at why (v.unique s q) other
              (λ hit. ground arith),
        )
]

-- A retransmission that arrives next from a peer is rejected, at whatever times the two copies came.
pub check_and_record_again :
    (t : ApsDuplicateTable) (src_short src_endpoint counter now later : ℕ)
    → IsValid t
    → (check_and_record
        (check_and_record t src_short src_endpoint counter now).0
        src_short
        src_endpoint
        counter
        later).1
      ≡ false
check_and_record_again t src ep counter now later v =
    let (_, held, _) = check_and_record_lem t src ep counter now (suc src) ep v (ground arith) in
    let (answer, _, _) =
      check_and_record_lem (check_and_record t src ep counter now).0 src ep counter later (suc src)
        ep (check_and_record-IsValid src ep counter now v) (ground arith) in
    answer ∙ rejected (lookup (check_and_record t src ep counter now).0 src ep) held
  where
    rejected : (o : Option ApsDupeEntry) → counter_of o ≡ some counter → is_new o counter ≡ false
    rejected none h = cc
    rejected (some x) h = ground arith
