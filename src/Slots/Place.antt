-- ===== src/Slots/Place.antt =====
-- Writing an entry into the slot that a search chose: the key of the new entry stands in the table
-- once, and is the one found.
use arduino_nrf_zigbee.Prelude.{
  ℕ, zero, suc, ◌≡◌, refl, ap, Bool, true, false, none, some, List, [], ◌∷◌, arith, get_elem?,
  get_elem?-lt, get_elem?-set_self, set, length, ◌≤◌, Bool-cases, inl, inr,
}
use arduino_nrf_zigbee.Slots.{find?, count, modify}
use arduino_nrf_zigbee.Slots.Count.{count-set, find?-unique, find?-none_of_count}

module _ {ℓ} {E : Type ℓ} where
  pub modify-eq-set :
      (xs : List E) (i : ℕ) (f : E → E) {x : E}
      → get_elem? xs i ≡ some x
      → modify xs i f ≡ set xs i (f x)
  modify-eq-set [] i f h = refl
  modify-eq-set (y ∷ ys) zero f h = ground arith
  modify-eq-set (y ∷ ys) (suc i) f h = ap (◌∷◌ y) (modify-eq-set ys i f h)

  pub modify-modify :
      (xs : List E) (i : ℕ) (f g : E → E) → modify (modify xs i f) i g ≡ modify xs i (λ x. g (f x))
  modify-modify [] i f g = refl
  modify-modify (x ∷ xs) zero f g = refl
  modify-modify (x ∷ xs) (suc i) f g = ap (◌∷◌ x) (modify-modify xs i f g)

  -- A change that keeps what is tested.
  pub count-modify_same :
      (p : E → Bool) (xs : List E) (i : ℕ) (f : E → E)
      → ((x : E) → p (f x) ≡ p x)
      → count p (modify xs i f) ≡ count p xs
  count-modify_same p [] i f h = refl
  count-modify_same p (x ∷ xs) zero f h = ground (arith, h x)
  count-modify_same p (x ∷ xs) (suc i) f h = omega (arith, count-modify_same p xs i f h)

  -- A reset entry matches nothing.
  pub count-modify_le :
      (p : E → Bool) (xs : List E) (i : ℕ) (f : E → E)
      → ((x : E) → p (f x) ≡ false)
      → count p (modify xs i f) ≤ count p xs
  count-modify_le p [] i f h = omega arith
  count-modify_le p (x ∷ xs) zero f h = ground (arith, h x)
  count-modify_le p (x ∷ xs) (suc i) f h = omega (arith, count-modify_le p xs i f h)

  -- Resetting the one entry of a key.
  pub find?-modify_reset :
      (p : E → Bool) (xs : List E) (i : ℕ) (f : E → E) {x : E}
      → count p xs ≤ 1
      → get_elem? xs i ≡ some x
      → p x ≡ true
      → p (f x) ≡ false
      → find? p (modify xs i f) ≡ none
  find?-modify_reset p xs i f {x} u at hit miss =
      rw (modify-eq-set xs i f at)
        (find?-none_of_count p (set xs i (f x)) (ground (arith, count-set p xs i (f x) at)))

  pub find?-modify_miss :
      (p : E → Bool) (xs : List E) (i : ℕ) (f : E → E) {x : E}
      → get_elem? xs i ≡ some x
      → p x ≡ false
      → p (f x) ≡ false
      → find? p (modify xs i f) ≡ find? p xs
  find?-modify_miss p [] i f h a b = refl
  find?-modify_miss p (y ∷ ys) zero f h a b = ground arith
  find?-modify_miss p (y ∷ ys) (suc i) f h a b = ground (arith, find?-modify_miss p ys i f h a b)

  pub get_elem?-modify_self :
      (xs : List E) (i : ℕ) (f : E → E) {x : E}
      → get_elem? xs i ≡ some x
      → get_elem? (modify xs i f) i ≡ some (f x)
  get_elem?-modify_self [] i f h = absurd (cc)
  get_elem?-modify_self (y ∷ ys) zero f h = ground arith
  get_elem?-modify_self (y ∷ ys) (suc i) f h = get_elem?-modify_self ys i f h

  pub length-modify : (xs : List E) (i : ℕ) (f : E → E) → length (modify xs i f) ≡ length xs
  length-modify [] i f = refl
  length-modify (x ∷ xs) zero f = refl
  length-modify (x ∷ xs) (suc i) f = ap suc (length-modify xs i f)

-- The slot `i` holds `x`; if `x` is not of the key of `v`, no entry is.
module _ {ℓ} {E : Type ℓ} (p : E → Bool) (xs : List E) (i : ℕ) (v x : E)
    (at : get_elem? xs i ≡ some x) where
  pub count-place :
      count p xs ≤ 1 → (p v ≡ true → p x ≡ false → count p xs ≡ 0) → count p (set xs i v) ≤ 1
  count-place u free = elim (Bool-cases (p v)) [
    | inl hit ↦ elim (Bool-cases (p x)) [
      | inl same ↦ ground (arith, count-set p xs i v at)
      | inr other ↦ ground (arith, count-set p xs i v at, free hit other)
    ]
    | inr miss ↦ ground (arith, count-set p xs i v at)
  ]

  pub find?-place :
      count p xs ≤ 1 → p v ≡ true → (p x ≡ false → count p xs ≡ 0) → find? p (set xs i v) ≡ some v
  find?-place u hit free =
      find?-unique p (set xs i v) i (count-place u (λ _. free))
        (get_elem?-set_self xs i v (get_elem?-lt xs i at)) hit
