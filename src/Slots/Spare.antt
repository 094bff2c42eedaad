-- ===== src/Slots/Spare.antt =====
-- The slot that a new entry goes to.
use arduino_nrf_zigbee.Prelude.{
  ℕ, ◌≡◌, refl, ◌⊎◌, inl, inr, Bool, true, false, none, some, List, [], ◌∷◌, arith, get_elem?, set,
  length, ◌<◌, ◌≤◌, Option-cases, Bool-cases,
}
use arduino_nrf_zigbee.Slots.{find_index?, find?, count, best?, spare?}
use arduino_nrf_zigbee.Slots.Find.{find_index?-some, find_index?-none}
use arduino_nrf_zigbee.Slots.Count.{
  count-zero, count_of_find?-none, count-pos, count-set, find?-none_of_count, find?-unique,
  find?-set_miss,
}
use arduino_nrf_zigbee.Slots.Oldest.{best?-some, best?-at, best?-total}

-- `x` may be overwritten: it is free, or the table is full and no entry is better to recycle.
abbrev pub Reusable {ℓ} : {E : Type ℓ} → (E → Bool) → (E → E → Bool) → List E → E → Type 0
Reusable free better xs x =
    (free x ≡ true) ⊎ ((count free xs ≡ 0) × (count (λ y. better y x) xs ≡ 0))

module _ {ℓ} {E : Type ℓ} where
  first : (xs : List E) → 0 < length xs → (x : E) × (get_elem? xs 0 ≡ some x)
  first [] h = absurd (omega arith)
  first (x ∷ xs) h = (x, refl)

  not_free :
      (free : E → Bool) (xs : List E) (k : ℕ) {y : E}
      → count free xs ≡ 0
      → get_elem? xs k ≡ some y
      → free y ≡ false
  not_free free xs k {y} z at = elim (Bool-cases (free y)) [
    | inl hit ↦ absurd (omega (arith, count-pos free xs k at hit))
    | inr miss ↦ miss
  ]

module _ {ℓ} {E : Type ℓ} (free eligible : E → Bool) (better : E → E → Bool) where
  module _ (irreflexive : (x : E) → better x x ≡ false)
      (transfer : (x o y : E) → better x o ≡ true → better y o ≡ false → better y x ≡ false)
      (busy : (x : E) → free x ≡ false → eligible x ≡ true) where
    recycled :
        (xs : List E)
        → 0 < length xs
        → find_index? free xs ≡ none
        → (i : ℕ) × (x : E) × (best? eligible better xs ≡ some i)
          × (get_elem? xs i ≡ some x)
          × Reusable free better xs x
    recycled xs nonempty full =
        let zero_free = count_of_find?-none free xs (find_index?-none free xs full) in
        let (h, at0) = first xs nonempty in
        elim (Option-cases (best? eligible better xs)) [
          | inl e ↦
              absurd
                (best?-total eligible better xs 0 at0 (busy h (not_free free xs 0 zero_free at0)) e)
          | inr (i, e) ↦
              let (o, at, _, most) = best?-some eligible better irreflexive transfer xs i e in
              (
                i,
                o,
                e,
                at,
                inr (
                  zero_free,
                  count-zero (λ y. better y o) xs
                      (λ k y here. most k y here (busy y (not_free free xs k zero_free here))),
                ),
              )
        ]

    -- A table with a slot always has one to give.
    pub spare?-some :
        (xs : List E)
        → 0 < length xs
        → (i : ℕ) × (x : E) × (spare? free eligible better xs ≡ some i)
          × (get_elem? xs i ≡ some x)
          × Reusable free better xs x
    spare?-some xs nonempty = elim (Option-cases (find_index? free xs)) [
      | inl e ↦ let (i, x, b, at, why) = recycled xs nonempty e in (i, x, rw e b, at, why)
      | inr (i, e) ↦
          let (x, at, hit, _) = find_index?-some free xs i e in (i, x, rw e refl, at, inl hit)
    ]

-- The same where `better` is no order (a comparison of wrapping clocks): a slot that is free, or any
-- slot of a full table.
module _ {ℓ} {E : Type ℓ} (free eligible : E → Bool) (better : E → E → Bool)
    (busy : (x : E) → free x ≡ false → eligible x ≡ true) where
  pub spare?-any :
      (xs : List E)
      → 0 < length xs
      → (i : ℕ) × (x : E) × (spare? free eligible better xs ≡ some i)
        × (get_elem? xs i ≡ some x)
        × Reusable free (λ a b. false) xs x
  spare?-any xs nonempty = elim (Option-cases (find_index? free xs)) [
    | inr (i, e) ↦
        let (x, at, hit, _) = find_index?-some free xs i e in (i, x, rw e refl, at, inl hit)
    | inl full ↦
        let zero_free = count_of_find?-none free xs (find_index?-none free xs full) in
        let (h, at0) = first xs nonempty in
        elim (Option-cases (best? eligible better xs)) [
          | inl e ↦
              absurd
                (best?-total eligible better xs 0 at0 (busy h (not_free free xs 0 zero_free at0)) e)
          | inr (i, e) ↦
              let (o, at, _) = best?-at eligible better xs i e in
              (i, o, rw full e, at, inr (zero_free, count-zero (λ y. false) xs (λ k y here. refl)))
        ]
  ]

-- What a write into a reusable slot does to a key that is not the new entry's: its entry is as it
-- was, or the table was full and its entry was dropped, one that no entry was better to recycle than.
abbrev pub Kept {ℓ} :
    {E : Type ℓ} → (E → Bool) → (E → E → Bool) → (E → Bool) → List E → List E → Type ℓ
Kept {E = E} free better p xs xs' =
    (find? p xs' ≡ find? p xs)
    ⊎ ((find? p xs' ≡ none)
        × (count free xs ≡ 0)
        × (e : E) × (find? p xs ≡ some e)
        × (count (λ y. better y e) xs ≡ 0))

pub set-Kept {ℓ} :
    {E : Type ℓ} (free : E → Bool) (better : E → E → Bool) (p : E → Bool) (xs : List E) (i : ℕ)
    (new : E) {x : E}
    → get_elem? xs i ≡ some x
    → Reusable free better xs x
    → count p xs ≤ 1
    → p new ≡ false
    → (p x ≡ true → free x ≡ false)
    → Kept free better p xs (set xs i new)
set-Kept free better p xs i new {x} at why u other in_use = elim (Bool-cases (p x)) [
  | inr miss ↦ inl (find?-set_miss p xs i new at miss other)
  | inl hit ↦ elim why [
    | inl unused ↦ cc (in_use hit)
    | inr (full, oldest) ↦ inr (
      find?-none_of_count p (set xs i new)
          (ground (arith, count-set p xs i new at, count-pos p xs i at hit)),
      full,
      x,
      find?-unique p xs i u at hit,
      oldest,
    )
  ]
]
