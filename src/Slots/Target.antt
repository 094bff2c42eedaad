-- ===== src/Slots/Target.antt =====
-- The slot that an insertion with replacement writes: the entry of the key, or else a free slot, or
-- else one that is recycled.
use arduino_nrf_zigbee.Prelude.{
  ℕ, ◌≡◌, refl, sym, subst, inl, inr, ◌⊎◌, ◌<◌, ◌≤◌, Bool, true, false, none, some, List, get_elem?,
  set, length, Option-cases, or_else,
}
use arduino_nrf_zigbee.Slots.{find_index?, find?, count, spare?}
use arduino_nrf_zigbee.Slots.Find.{find_index?-some, find_index?-none}
use arduino_nrf_zigbee.Slots.Count.{count_of_find?-none, find?-set_miss}
use arduino_nrf_zigbee.Slots.Spare.{Reusable, spare?-any, set-Kept}
use arduino_nrf_zigbee.Slots.Place.{count-place, find?-place}

-- The slot that is written holds `x`: the entry of the key `p`, or, where the key has none, an entry
-- that may be overwritten.
abbrev pub IsTarget {ℓ} : {E : Type ℓ} → (E → Bool) → (E → Bool) → List E → E → Type 0
IsTarget free p xs x = (p x ≡ true) ⊎ ((count p xs ≡ 0) × Reusable free (λ a b. false) xs x)

-- What happens to an entry of another key: nothing, or it made room in a full table.
abbrev pub Survives {ℓ} : {E : Type ℓ} → (E → Bool) → (E → Bool) → List E → List E → Type ℓ
Survives free q xs xs' = (find? q xs' ≡ find? q xs) ⊎ ((find? q xs' ≡ none) × (count free xs ≡ 0))

module _ {ℓ} {E : Type ℓ} (free eligible : E → Bool) (better : E → E → Bool)
    (busy : (x : E) → free x ≡ false → eligible x ≡ true) (p : E → Bool) where
  -- A table with a slot always has a target.
  pub target?-some :
      (xs : List E)
      → 0 < length xs
      → (i : ℕ) × (x : E) × (or_else (find_index? p xs) (spare? free eligible better xs) ≡ some i)
        × (get_elem? xs i ≡ some x)
        × IsTarget free p xs x
  target?-some xs nonempty = elim (Option-cases (find_index? p xs)) [
    | inr (i, e) ↦ let (x, at, hit, _) = find_index?-some p xs i e in (i, x, rw e refl, at, inl hit)
    | inl e ↦
        let (i, x, s, at, why) = spare?-any free eligible better busy xs nonempty in
        (i, x, rw e s, at, inr (count_of_find?-none p xs (find_index?-none p xs e), why))
  ]

module _ {ℓ} {E : Type ℓ} (free p : E → Bool) (xs : List E) (i : ℕ) (new x : E)
    (at : get_elem? xs i ≡ some x) (target : IsTarget free p xs x) where
  absent : p x ≡ false → count p xs ≡ 0
  absent miss = elim target [ inl hit ↦ cc | inr (none_held, _) ↦ none_held ]

  -- The new entry is the one found.
  pub find?-target : count p xs ≤ 1 → p new ≡ true → find? p (set xs i new) ≡ some new
  find?-target u hit = find?-place p xs i new x at u hit absent

  -- A key that the new entry has only if it is `p` still has one entry at most.
  pub count-target :
      (q : E → Bool) → count q xs ≤ 1 → (q new ≡ true → q ≡ p) → count q (set xs i new) ≤ 1
  count-target q u only = count-place q xs i new x at u λ hit miss.
      subst (λ r. count r xs ≡ 0) (sym (only hit))
        (absent (subst (λ (r : E → Bool). r x ≡ false) (only hit) miss))

  pub target-Survives :
      (q : E → Bool)
      → count q xs ≤ 1
      → q new ≡ false
      → (p x ≡ true → q x ≡ false)
      → (q x ≡ true → free x ≡ false)
      → Survives free q xs (set xs i new)
  target-Survives q u other apart in_use = elim target [
    | inl hit ↦ inl (find?-set_miss q xs i new at (apart hit) other)
    | inr (_, why) ↦ elim (set-Kept free (λ a b. false) q xs i new at why u other in_use) [
      | inl same ↦ inl same
      | inr (gone, full, _, _, _) ↦ inr (gone, full)
    ]
  ]
