-- ===== src/Slots/Oldest.antt =====
-- The entry that a table recycles when it is full: eligible, and no other eligible entry is better.
use arduino_nrf_zigbee.Prelude.{
  ℕ, zero, suc, ◌≡◌, subst, ap, ◌∙◌, ◌≢◌, Bool, true, false, Option, none, some, List, [], ◌∷◌,
  arith, Bool-cases, inl, inr, ◌&&◌, get_elem?, ◌+◌,
}
use arduino_nrf_zigbee.Slots.{challenge, best_from, best?}
use mathlib.Core.Option

module _ {ℓ} {E : Type ℓ} (eligible : E → Bool) (better : E → E → Bool) where
  -- The entry held so far stands at its index in the array `at`.
  abbrev Holds : (ℕ → Option E) → Option (ℕ × E) → Type ℓ
  Holds at none = Unit
  Holds at (some (j, o)) = (at j ≡ some o) × (eligible o ≡ true)

  challenge-Holds :
      (at : ℕ → Option E) (o : Option (ℕ × E)) (i : ℕ) (x : E)
      → Holds at o
      → at i ≡ some x
      → Holds at (challenge eligible better o i x)
  challenge-Holds at none i x h here = ground arith
  challenge-Holds at (some (j, o)) i x h here = ground arith

  best_from-Holds :
      (at : ℕ → Option E) (o : Option (ℕ × E)) (i : ℕ) (xs : List E)
      → ((k : ℕ) → at (i + k) ≡ get_elem? xs k)
      → Holds at o
      → Holds at (best_from eligible better o i xs)
  best_from-Holds at o i [] rest h = h
  best_from-Holds at o i (x ∷ xs) rest h =
      best_from-Holds at (challenge eligible better o i x) (suc i) xs
        (λ k. ap at (omega arith) ∙ rest (suc k))
        (challenge-Holds at o i x h (ap at (omega arith) ∙ rest 0))

  -- `y` does not beat the entry held.
  abbrev Beaten : E → Option (ℕ × E) → Type 0
  Beaten y none = ⊥
  Beaten y (some (j, o)) = better y o ≡ false

  module _ (irreflexive : (x : E) → better x x ≡ false)
      (transfer : (x o y : E) → better x o ≡ true → better y o ≡ false → better y x ≡ false) where
    challenge-Beaten :
        (y : E) (o : Option (ℕ × E)) (i : ℕ) (x : E)
        → Beaten y o
        → Beaten y (challenge eligible better o i x)
    challenge-Beaten y none i x b = absurd b
    challenge-Beaten y (some (j, o)) i x b = ground (arith, transfer x o y)

    challenge-Beaten_self :
        (o : Option (ℕ × E)) (i : ℕ) (x : E)
        → eligible x ≡ true
        → Beaten x (challenge eligible better o i x)
    challenge-Beaten_self none i x e = ground (arith, irreflexive x)
    challenge-Beaten_self (some (j, o)) i x e = ground (arith, irreflexive x)

    best_from-keeps :
        (y : E) (o : Option (ℕ × E)) (i : ℕ) (xs : List E)
        → Beaten y o
        → Beaten y (best_from eligible better o i xs)
    best_from-keeps y o i [] b = b
    best_from-keeps y o i (x ∷ xs) b =
        best_from-keeps y (challenge eligible better o i x) (suc i) xs (challenge-Beaten y o i x b)

    best_from-Beaten :
        (y : E) (o : Option (ℕ × E)) (i : ℕ) (xs : List E) (k : ℕ)
        → get_elem? xs k ≡ some y
        → eligible y ≡ true
        → Beaten y (best_from eligible better o i xs)
    best_from-Beaten y o i [] k here e = absurd (cc)
    best_from-Beaten y o i (x ∷ xs) zero here e =
        best_from-keeps y (challenge eligible better o i x) (suc i) xs (
          subst (λ z. Beaten z (challenge eligible better o i x)) (ground arith)
            (challenge-Beaten_self o i x (ground arith)))
    best_from-Beaten y o i (x ∷ xs) (suc k) here e =
        best_from-Beaten y (challenge eligible better o i x) (suc i) xs k here e

    -- The pointer is in the array, its entry is eligible, and no eligible entry beats it.
    pub best?-some :
        (xs : List E) (i : ℕ)
        → best? eligible better xs ≡ some i
        → (o : E) × (get_elem? xs i ≡ some o)
          × (eligible o ≡ true)
          × ((k : ℕ) (y : E) → get_elem? xs k ≡ some y → eligible y ≡ true → better y o ≡ false)
    best?-some xs i h =
        go (best_from eligible better none 0 xs)
          (best_from-Holds (get_elem? xs) none 0 xs (λ k. ap (get_elem? xs) (omega arith)) tt)
          (λ k y. best_from-Beaten y none 0 xs k) h
      where
        go :
            (b : Option (ℕ × E))
            → Holds (get_elem? xs) b
            → ((k : ℕ) (y : E) → get_elem? xs k ≡ some y → eligible y ≡ true → Beaten y b)
            → Option.map (λ o. o.0) b ≡ some i
            → (o : E) × (get_elem? xs i ≡ some o)
              × (eligible o ≡ true)
              × ((k : ℕ) (y : E) → get_elem? xs k ≡ some y → eligible y ≡ true → better y o ≡ false)
        go none held beats e = absurd (cc)
        go (some (j, o)) held beats e =
            (o, ap (get_elem? xs) (ground arith) ∙ held.0, held.1, beats)

  -- The entry alone, with no order assumed of `better`.
  pub best?-at :
      (xs : List E) (i : ℕ)
      → best? eligible better xs ≡ some i
      → (o : E) × (get_elem? xs i ≡ some o) × (eligible o ≡ true)
  best?-at xs i h =
      go (best_from eligible better none 0 xs)
        (best_from-Holds (get_elem? xs) none 0 xs (λ k. ap (get_elem? xs) (omega arith)) tt) h
    where
      go :
          (b : Option (ℕ × E))
          → Holds (get_elem? xs) b
          → Option.map (λ o. o.0) b ≡ some i
          → (o : E) × (get_elem? xs i ≡ some o) × (eligible o ≡ true)
      go none held e = absurd (cc)
      go (some (j, o)) held e = (o, ap (get_elem? xs) (ground arith) ∙ held.0, held.1)

  abbrev IsHeld : Option (ℕ × E) → Type 0
  IsHeld none = ⊥
  IsHeld (some b) = Unit

  challenge-IsHeld :
      (o : Option (ℕ × E)) (i : ℕ) (x : E) → IsHeld o → IsHeld (challenge eligible better o i x)
  challenge-IsHeld none i x h = absurd h
  challenge-IsHeld (some (j, o)) i x h = elim (Bool-cases (eligible x && better x o)) [
    | inl e ↦ rw (e, challenge) tt
    | inr e ↦ rw (e, challenge) tt
  ]

  best_from-IsHeld :
      (o : Option (ℕ × E)) (i : ℕ) (xs : List E)
      → IsHeld o
      → IsHeld (best_from eligible better o i xs)
  best_from-IsHeld o i [] h = h
  best_from-IsHeld o i (x ∷ xs) h =
      best_from-IsHeld (challenge eligible better o i x) (suc i) xs (challenge-IsHeld o i x h)

  challenge-IsHeld_self :
      (o : Option (ℕ × E)) (i : ℕ) (x : E)
      → eligible x ≡ true
      → IsHeld (challenge eligible better o i x)
  challenge-IsHeld_self none i x e = rw (e, challenge) tt
  challenge-IsHeld_self (some (j, o)) i x e = challenge-IsHeld (some (j, o)) i x tt

  best_from-total :
      (o : Option (ℕ × E)) (i : ℕ) (xs : List E) (k : ℕ) {y : E}
      → get_elem? xs k ≡ some y
      → eligible y ≡ true
      → IsHeld (best_from eligible better o i xs)
  best_from-total o i [] k here e = absurd (cc)
  best_from-total o i (x ∷ xs) zero here e =
      best_from-IsHeld (challenge eligible better o i x) (suc i) xs
        (challenge-IsHeld_self o i x (ground arith))
  best_from-total o i (x ∷ xs) (suc k) here e =
      best_from-total (challenge eligible better o i x) (suc i) xs k here e

  -- There is one as soon as some entry is eligible.
  pub best?-total :
      (xs : List E) (k : ℕ) {y : E}
      → get_elem? xs k ≡ some y
      → eligible y ≡ true
      → best? eligible better xs ≢ none
  best?-total xs k {y} here e none_best =
      go (best_from eligible better none 0 xs) (best_from-total none 0 xs k here e) none_best
    where
      go : (b : Option (ℕ × E)) → IsHeld b → Option.map (λ o. o.0) b ≡ none → ⊥
      go none h e = h
      go (some b) h e = cc
