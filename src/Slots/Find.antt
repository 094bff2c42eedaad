-- ===== src/Slots/Find.antt =====
-- What a search for an entry finds.
use arduino_nrf_zigbee.Prelude.{
  ℕ, zero, suc, ◌≡◌, refl, inl, inr, Bool, true, none, some, List, [], ◌∷◌, arith, get_elem?,
  Bool-cases,
}
use arduino_nrf_zigbee.Slots.{find_index?, find?}

module _ {ℓ} {E : Type ℓ} where
  -- The pointer found is in the array, its entry passes the test, and it is the entry that `find?`
  -- names.
  pub find_index?-some :
      (p : E → Bool) (xs : List E) (i : ℕ)
      → find_index? p xs ≡ some i
      → (x : E) × (get_elem? xs i ≡ some x) × (p x ≡ true) × (find? p xs ≡ some x)
  find_index?-some p [] i h = absurd (cc)
  find_index?-some p (x ∷ xs) zero h = elim (Bool-cases (p x)) [
    | inl hit ↦ (x, refl, hit, ground arith)
    | inr miss ↦ absurd (ground arith)
  ]
  find_index?-some p (x ∷ xs) (suc i) h = elim (Bool-cases (p x)) [
    | inl hit ↦ absurd (ground arith)
    | inr miss ↦
        let (y, at, hit, found) = find_index?-some p xs i (ground arith) in
        (y, at, hit, ground arith)
  ]

  pub find_index?-none : (p : E → Bool) (xs : List E) → find_index? p xs ≡ none → find? p xs ≡ none
  find_index?-none p [] h = refl
  find_index?-none p (x ∷ xs) h = ground (arith, find_index?-none p xs)

  pub find?-holds : (p : E → Bool) (xs : List E) {x : E} → find? p xs ≡ some x → p x ≡ true
  find?-holds p [] h = absurd (cc)
  find?-holds p (y ∷ ys) {x} h = ground (arith, find?-holds p ys {x = x})

  pub find_index?_of_none :
      (p : E → Bool) (xs : List E) → find? p xs ≡ none → find_index? p xs ≡ none
  find_index?_of_none p [] h = refl
  find_index?_of_none p (x ∷ xs) h = ground (arith, find_index?_of_none p xs)
