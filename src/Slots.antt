-- ===== src/Slots.antt =====
-- The fixed arrays of entries that the table classes keep (`entries_` and `capacity_`), and the
-- loops over them that the classes share. A pointer to an entry is its index; a null pointer is
-- `none`. A write through a pointer is `set`.
pub mod Find
pub mod Count
pub mod Oldest
pub mod Place
pub mod Spare
pub mod Target
use arduino_nrf_zigbee.Prelude.{
  ℕ, zero, suc, Bool, true, false, ◌&&◌, Option, none, some, List, [], ◌∷◌, map, if◌then◌else◌,
  is_some, or_else, length, get_elem?, get_or, set, replicate, to_nat, ◌+◌,
}
use mathlib.Core.Option

-- `entries_` is null until `begin`; `capacity_` is the length of the list, at most 255.
pub record Table {ℓ} (E : Type ℓ) : Type ℓ where
  pub attached : Bool
  pub entries : List E

module _ {ℓ} {E : Type ℓ} where
  -- for (i = 0; i < capacity_; ++i) if (p(entries_[i])) return &entries_[i]; return nullptr;
  abbrev pub find_index? : (E → Bool) → List E → Option ℕ
  find_index? p [] = none
  find_index? p (x ∷ xs) = if p x then some 0 else Option.map suc (find_index? p xs)

  -- The entry itself, as a reader of the table sees it.
  abbrev pub find? : (E → Bool) → List E → Option E
  find? p [] = none
  find? p (x ∷ xs) = if p x then some x else find? p xs

  -- for (i = 0; i < capacity_; ++i) if (p(entries_[i])) ++n;
  abbrev pub count : (E → Bool) → List E → ℕ
  count p [] = 0
  count p (x ∷ xs) = to_nat (p x) + count p xs

  -- `*e = f(*e)` through a pointer
  abbrev pub modify : List E → ℕ → (E → E) → List E
  modify [] i f = []
  modify (x ∷ xs) zero f = f x ∷ xs
  modify (x ∷ xs) (suc i) f = x ∷ modify xs i f

  -- for (i = 0; i < capacity_; ++i) if (p(entries_[i])) entries_[i] = f(entries_[i]);
  abbrev pub update_where : (E → Bool) → (E → E) → List E → List E
  update_where p f [] = []
  update_where p f (x ∷ xs) = (if p x then f x else x) ∷ update_where p f xs

  -- What `if (!o || better(entries_[i], *o)) o = &entries_[i];` does at one eligible entry; `o` is
  -- kept with its index.
  abbrev pub challenge : (E → Bool) → (E → E → Bool) → Option (ℕ × E) → ℕ → E → Option (ℕ × E)
  challenge eligible better none i x = if eligible x then some (i, x) else none
  challenge eligible better (some (j, o)) i x =
      if eligible x && better x o then some (i, x) else some (j, o)

  abbrev pub best_from : (E → Bool) → (E → E → Bool) → Option (ℕ × E) → ℕ → List E → Option (ℕ × E)
  best_from eligible better o i [] = o
  best_from eligible better o i (x ∷ xs) =
      best_from eligible better (challenge eligible better o i x) (suc i) xs

  abbrev pub best? : (E → Bool) → (E → E → Bool) → List E → Option ℕ
  best? eligible better xs = Option.map (λ o. o.0) (best_from eligible better none 0 xs)

  -- A free slot, or else the one to recycle.
  abbrev pub spare? : (E → Bool) → (E → Bool) → (E → E → Bool) → List E → Option ℕ
  spare? free eligible better xs = or_else (find_index? free xs) (best? eligible better xs)
