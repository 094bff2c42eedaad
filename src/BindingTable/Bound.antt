-- ===== src/BindingTable/Bound.antt =====
-- src/ZigbeeBindingTable.h: what `add` and `remove` do to the bindings that `find` reports.
use arduino_nrf_zigbee.Prelude.{
  ℕ, ◌≡◌, refl, ◌+◌, inl, inr, Bool, true, false, not, some, List, [], ◌∷◌, set, arith,
  Option-cases, ◌||◌, ◌&&◌, is_some, to_nat, length, get_elem?, ltb, if◌then◌else◌,
}
use arduino_nrf_zigbee.Slots.{find_index?, count}
use arduino_nrf_zigbee.Slots.Find.{find_index?-some, find_index?-none}
use arduino_nrf_zigbee.Slots.Count.{count-set, count-pos, count_of_find?-none}
use arduino_nrf_zigbee.BindingTable.{
  ZigbeeBinding, BindingTable, no_binding, matches, find, add, remove,
}

-- The entries that do not count make up the rest of the list.
count-not {ℓ} :
    {E : Type ℓ} (p : E → Bool) (xs : List E) → count p xs + count (λ x. not (p x)) xs ≡ length xs
count-not p [] = refl
count-not p (x ∷ xs) = ground (arith, count-not p xs)

-- Among the bindings in use that satisfy `q`, a new one in a slot that was free.
added :
    (es : List ZigbeeBinding) (i : ℕ) (b : ZigbeeBinding) (q : ZigbeeBinding → Bool)
    {x : ZigbeeBinding}
    → get_elem? es i ≡ some x
    → not x.used ≡ true
    → count (λ e. e.used && q e) (set es i (record b { used = true }))
      ≡ count (λ e. e.used && q e) es + to_nat (q (record b { used = true }))
added es i b q at free =
    ground (arith, count-set (λ e. e.used && q e) es i (record b { used = true }) at)

-- In an attached table, a binding counts as known when a used entry has its source endpoint and
-- cluster and its destination, whatever its source address. `add` returns true exactly if the
-- binding is known or an entry is unused. Where it returns true, it adds the binding, all of its
-- fields as given, exactly if it is not known; otherwise no binding comes or goes: of the used
-- entries, as many satisfy any test `q` as before.
pub binding_add_lem :
    (t : BindingTable) (b : ZigbeeBinding) (q : ZigbeeBinding → Bool)
    → t.attached ≡ true
    → let (t', done) = add t b in
      let known = ltb 0 (count (matches b) t.entries) in
      let room = ltb (count (λ e. e.used) t.entries) (length t.entries) in
      (done ≡ (known || room))
      × (count (λ e. e.used && q e) t'.entries
          ≡ count (λ e. e.used && q e) t.entries
            + (if not known && room then to_nat (q (record b { used = true })) else 0))
unfolding add find
binding_add_lem t b q a = elim (Option-cases (find_index? (matches b) t.entries)) [
  | inr (i, e) ↦
      let (x, at, hit, found) = find_index?-some (matches b) t.entries i e in
      let known : ltb 0 (count (matches b) t.entries) ≡ true =
        ground (arith, count-pos (matches b) t.entries i at hit) in
      rw (a, e, known) (refl, omega arith)
  | inl e ↦
      let zero_known : count (matches b) t.entries ≡ 0 =
        count_of_find?-none (matches b) t.entries (find_index?-none (matches b) t.entries e) in
      let free = λ (x : ZigbeeBinding). not x.used in
      elim (Option-cases (find_index? free t.entries)) [
        | inl full ↦
            let none_free =
              count_of_find?-none free t.entries (find_index?-none free t.entries full) in
            let room : ltb (count (λ e. e.used) t.entries) (length t.entries) ≡ false =
              ground (arith, count-not (λ e. e.used) t.entries) in
            rw (a, e, full, zero_known, room) (refl, omega arith)
        | inr (i, f) ↦
            let (x, at, unused, found) = find_index?-some free t.entries i f in
            let some_free = count-pos free t.entries i at unused in
            let room : ltb (count (λ e. e.used) t.entries) (length t.entries) ≡ true =
              ground (arith, count-not (λ e. e.used) t.entries) in
            rw (a, e, f, zero_known, room) (refl, added t.entries i b q at unused)
      ]
]

find-attached :
    (t : BindingTable) (b : ZigbeeBinding)
    → t.attached ≡ true
    → find t b ≡ find_index? (matches b) t.entries
unfolding find
find-attached t b a = rw (find, a) refl

-- `remove` takes one entry that matches the binding out of the table, if there is one, and leaves the
-- table alone otherwise; it says which.
pub binding_remove_lem :
    (t : BindingTable) (b : ZigbeeBinding)
    → t.attached ≡ true
    → (count (matches b) t.entries
        ≡ count (matches b) (remove t b).0.entries + to_nat (remove t b).1)
      × ((remove t b).1 ≡ is_some (find_index? (matches b) t.entries))
unfolding remove
binding_remove_lem t b a = elim (Option-cases (find_index? (matches b) t.entries)) [
  | inl e ↦ rw (remove, find-attached t b a, e) (omega arith, refl)
  | inr (i, e) ↦
      let (x, at, hit, found) = find_index?-some (matches b) t.entries i e in
      rw (remove, find-attached t b a, e)
        (ground (arith, hit, count-set (matches b) t.entries i no_binding at), refl)
]
