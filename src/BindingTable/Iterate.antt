-- ===== src/BindingTable/Iterate.antt =====
-- src/ZigbeeBindingTable.h: the iteration of a sender, by `next`, over the bindings of an endpoint
-- and a cluster.
use arduino_nrf_zigbee.Prelude.{
  ℕ, zero, suc, ◌≡◌, refl, ap, ◌∙◌, ◌+◌, ◌<◌, inl, inr, true, none, some, List, [], ◌∷◌,
  if◌then◌else◌, drop, length, arith, Bool-cases, ◌⊎◌, length-drop,
}
use arduino_nrf_zigbee.BindingTable.{ZigbeeBinding, BindingTable, is_bound, next, next_from}

-- The entries of `es` that are bound to the endpoint and cluster, in their order.
abbrev pub bound : ℕ → ℕ → List ZigbeeBinding → List ZigbeeBinding
bound ep cl [] = []
bound ep cl (e ∷ es) = if is_bound ep cl e then e ∷ bound ep cl es else bound ep cl es

-- for (cursor = c; (b = next(ep, cl, cursor)); ) visit(b);
pub visit : ℕ → BindingTable → ℕ → ℕ → ℕ → List ZigbeeBinding
visit zero t ep cl cursor = []
visit (suc fuel) t ep cl cursor =
    let (b, c) = next t ep cl cursor in elim b [ none ↦ [] | some e ↦ e ∷ visit fuel t ep cl c ]

next_from_lem :
    (ep cl cursor : ℕ) (es : List ZigbeeBinding)
    → ((bound ep cl es ≡ []) × ((c : ℕ) × (next_from ep cl cursor es ≡ (none, c))))
      ⊎ ((e : ZigbeeBinding) × (k : ℕ) × (bound ep cl es ≡ e ∷ bound ep cl (drop (suc k) es))
          × (next_from ep cl cursor es ≡ (some e, cursor + suc k))
          × (k < length es))
unfolding next_from
next_from_lem ep cl cursor [] = inl (refl, (cursor, refl))
next_from_lem ep cl cursor (e ∷ es) = elim (Bool-cases (is_bound ep cl e)) [
  | inl hit ↦
      let step : suc cursor ≡ cursor + suc zero = omega arith in
      inr (e, 0, rw hit refl, rw (next_from, hit, step) refl, omega arith)
  | inr miss ↦ elim (next_from_lem ep cl (suc cursor) es) [
    | inl (none_left, (c, r)) ↦ inl (rw (miss) none_left, (c, rw (next_from, miss) r))
    | inr (f, k, first, r, lt) ↦
        let step : suc cursor + suc k ≡ cursor + suc (suc k) = omega arith in
        inr (f, suc k, rw miss first, rw (next_from, miss, r, step) refl, omega arith)
  ]
]

drop-drop : (m n : ℕ) (xs : List ZigbeeBinding) → drop n (drop m xs) ≡ drop (m + n) xs
drop-drop zero n xs = let e : 0 + n ≡ n = omega arith in rw e refl
drop-drop (suc m) zero xs = let e : suc m + 0 ≡ suc m = omega arith in rw e refl
drop-drop (suc m) (suc n) [] = let e : suc m + suc n ≡ suc (m + suc n) = omega arith in rw e refl
drop-drop (suc m) (suc n) (x ∷ xs) =
    let e : suc m + suc n ≡ suc (m + suc n) = omega arith in rw e (drop-drop m (suc n) xs)

next-attached :
    (t : BindingTable) (ep cl cursor : ℕ)
    → t.attached ≡ true
    → next t ep cl cursor ≡ next_from ep cl cursor (drop cursor t.entries)
unfolding next
next-attached t ep cl cursor a = rw (next, a) refl

visit-from :
    (fuel : ℕ) (t : BindingTable) (ep cl cursor : ℕ)
    → t.attached ≡ true
    → length (drop cursor t.entries) < fuel
    → visit fuel t ep cl cursor ≡ bound ep cl (drop cursor t.entries)
unfolding visit
visit-from zero t ep cl cursor a h = absurd (omega arith)
visit-from (suc fuel) t ep cl cursor a h =
    elim (next_from_lem ep cl cursor (drop cursor t.entries)) [
      | inl (none_left, (c, r)) ↦ rw (visit, next-attached t ep cl cursor a, r, none_left) refl
      | inr (e, k, first, r, lt) ↦
          let there = next-attached t ep cl cursor a ∙ r in
          rw (visit, there, there, first, drop-drop cursor (suc k) t.entries)
            (ap (◌∷◌ e) (
              visit-from fuel t ep cl (cursor + suc k) a (
                omega
                  (arith, length-drop cursor t.entries, length-drop (cursor + suc k) t.entries))))
    ]

-- A sender that starts with cursor 0 and calls `next` until it returns null is given every binding of
-- the endpoint and cluster, once each and in the order of the table, and it ends: one call more than
-- there are slots is enough.
pub visit_lem :
    (t : BindingTable) (src_endpoint cluster_id fuel : ℕ)
    → t.attached ≡ true
    → length t.entries < fuel
    → visit fuel t src_endpoint cluster_id 0 ≡ bound src_endpoint cluster_id t.entries
visit_lem t ep cl fuel a h = visit-from fuel t ep cl 0 a h
