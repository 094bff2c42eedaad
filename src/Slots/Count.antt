-- ===== src/Slots/Count.antt =====
-- How many entries pass a test, and how a write changes that number. A key is kept at most once when
-- at most one entry matches it.
use arduino_nrf_zigbee.Prelude.{
  ℕ, zero, suc, ◌≡◌, refl, ap, Bool, true, false, not, ◌&&◌, none, some, List, [], ◌∷◌, arith,
  Bool-cases, inl, inr, get_elem?, set, length, replicate, ◌<◌, ◌≤◌, ◌+◌, to_nat, Option,
  if◌then◌else◌,
}
use arduino_nrf_zigbee.Slots.{find?, count, update_where}

module _ {ℓ} {E : Type ℓ} (p : E → Bool) where
  pub count-set :
      (xs : List E) (i : ℕ) (v : E) {x : E}
      → get_elem? xs i ≡ some x
      → count p (set xs i v) + to_nat (p x) ≡ count p xs + to_nat (p v)
  count-set [] i v h = absurd (cc)
  count-set (y ∷ ys) zero v h = ground arith
  count-set (y ∷ ys) (suc i) v h = omega (arith, count-set ys i v h)

  pub count-le-length : (xs : List E) → count p xs ≤ length xs
  count-le-length [] = omega arith
  count-le-length (x ∷ xs) = ground (arith, count-le-length xs)

  pub count-pos :
      (xs : List E) (i : ℕ) {x : E} → get_elem? xs i ≡ some x → p x ≡ true → 0 < count p xs
  count-pos [] i h hit = absurd (cc)
  count-pos (y ∷ ys) zero h hit = ground arith
  count-pos (y ∷ ys) (suc i) h hit = omega (arith, count-pos ys i h hit)

  pub count-zero :
      (xs : List E) → ((k : ℕ) (y : E) → get_elem? xs k ≡ some y → p y ≡ false) → count p xs ≡ 0
  count-zero [] h = refl
  count-zero (x ∷ xs) h =
      let here = h 0 x refl in let rest = count-zero xs (λ k y. h (suc k) y) in ground arith

  pub count_of_find?-none : (xs : List E) → find? p xs ≡ none → count p xs ≡ 0
  count_of_find?-none [] h = refl
  count_of_find?-none (x ∷ xs) h = ground (arith, count_of_find?-none xs)

  pub find?-none_of_count : (xs : List E) → count p xs ≡ 0 → find? p xs ≡ none
  find?-none_of_count [] h = refl
  find?-none_of_count (x ∷ xs) h = ground (arith, find?-none_of_count xs)

  pub count-replicate : (n : ℕ) (x : E) → p x ≡ false → count p (replicate n x) ≡ 0
  count-replicate zero x h = refl
  count-replicate (suc n) x h = ground (arith, count-replicate n x h)

  -- Where a key is kept at most once, any entry that matches it is the one found.
  pub find?-unique :
      (xs : List E) (i : ℕ) {x : E}
      → count p xs ≤ 1
      → get_elem? xs i ≡ some x
      → p x ≡ true
      → find? p xs ≡ some x
  find?-unique [] i u h hit = absurd (cc)
  find?-unique (y ∷ ys) zero u h hit = ground arith
  find?-unique (y ∷ ys) (suc i) u h hit =
      ground (arith, count-pos ys i h hit, find?-unique ys i (omega arith) h hit)

  -- A write that touches no entry of the key leaves what is found.
  pub find?-set_miss :
      (xs : List E) (i : ℕ) (v : E) {x : E}
      → get_elem? xs i ≡ some x
      → p x ≡ false
      → p v ≡ false
      → find? p (set xs i v) ≡ find? p xs
  find?-set_miss [] i v h a b = refl
  find?-set_miss (y ∷ ys) zero v h a b = ground arith
  find?-set_miss (y ∷ ys) (suc i) v h a b = ground (arith, find?-set_miss ys i v h a b)

module _ {ℓ} {E : Type ℓ} (p q : E → Bool) (f : E → E) where
  -- A sweep that resets entries leaves exactly those that it does not select.
  pub count-update_where :
      (xs : List E)
      → ((x : E) → q x ≡ true → p (f x) ≡ false)
      → count p (update_where q f xs) + count (λ x. p x && q x) xs ≡ count p xs
  count-update_where [] h = refl
  count-update_where (x ∷ xs) h = ground (arith, h x, count-update_where xs h)

  pub find?-update_where :
      (xs : List E)
      → ((x : E) → q x ≡ true → p (f x) ≡ false)
      → find? p (update_where q f xs) ≡ find? (λ x. p x && not (q x)) xs
  find?-update_where [] h = refl
  find?-update_where (x ∷ xs) h = ground (arith, h x, find?-update_where xs h)

module _ {ℓ} {E : Type ℓ} where
  pub length-update_where :
      (q : E → Bool) (f : E → E) (xs : List E) → length (update_where q f xs) ≡ length xs
  length-update_where q f [] = refl
  length-update_where q f (x ∷ xs) = ap suc (length-update_where q f xs)

  pub count_ext : (p q : E → Bool) (xs : List E) → ((x : E) → p x ≡ q x) → count p xs ≡ count q xs
  count_ext p q [] h = refl
  count_ext p q (x ∷ xs) h = ground (arith, h x, count_ext p q xs h)

  -- What is found of a key that is kept at most once, when some entries no longer count.
  abbrev pub unless : (E → Bool) → Option E → Option E
  unless q none = none
  unless q (some x) = if q x then none else some x

  pub find?-unless :
      (p q : E → Bool) (xs : List E)
      → count p xs ≤ 1
      → find? (λ x. p x && not (q x)) xs ≡ unless q (find? p xs)
  find?-unless p q [] u = refl
  find?-unless p q (x ∷ xs) u = elim (Bool-cases (p x)) [
    | inl hit ↦
        ground
          (arith, find?-unless p q xs (omega (arith, u)), find?-none_of_count p xs (ground arith))
    | inr miss ↦ ground (arith, find?-unless p q xs (ground arith))
  ]
