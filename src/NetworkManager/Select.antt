-- ===== src/NetworkManager/Select.antt =====
-- ZigbeeNetworkManager::selectNewPanId of src/ZigbeePanIdConflict.h: it finds a free PAN id.
use arduino_nrf_zigbee.Prelude.{
  ℕ, zero, suc, ◌≡◌, refl, sym, ap, ◌∙◌, ◌+◌, ◌<◌, ◌≤◌, true, false, List, [], ◌∷◌, if◌then◌else◌,
  ◌==◌, take, length, length-take, u16, arith, Bool-cases, inl, inr, ◌⊎◌, IsU16,
}
use arduino_nrf_zigbee.NetworkManager.{
  NetworkManager, lists, is_free, select_from, select_new_pan_id,
}

-- `xs` without the first `c`.
without : ℕ → List ℕ → List ℕ
without c [] = []
without c (x ∷ xs) = if x == c then xs else x ∷ without c xs

length-without : (c : ℕ) (xs : List ℕ) → lists xs c ≡ true → suc (length (without c xs)) ≡ length xs
unfolding without
length-without c [] h = absurd (cc)
length-without c (x ∷ xs) h = elim (Bool-cases (x == c)) [
  | inl same ↦ rw same refl
  | inr other ↦ rw other (ap suc (length-without c xs (ground arith)))
]

lists-without :
    (c d : ℕ) (xs : List ℕ) → (c == d) ≡ false → lists xs d ≡ true → lists (without c xs) d ≡ true
unfolding without
lists-without c d [] ne h = absurd (cc)
lists-without c d (x ∷ xs) ne h = elim (Bool-cases (x == c)) [
  | inl same ↦ let e : x ≡ c = ground arith in rw same (ground (arith, ne, h, e))
  | inr other ↦ rw other (elim (Bool-cases (x == d)) [
    | inl here ↦ rw here refl
    | inr there ↦ rw there (lists-without c d xs ne (ground (arith, there, h)))
  ])
]

-- Distinct members of a list are no more than its entries.
pigeonhole :
    (v : ℕ → ℕ) (k : ℕ) (xs : List ℕ)
    → ((i j : ℕ) → i < j → j < k → (v j == v i) ≡ false)
    → ((i : ℕ) → i < k → lists xs (v i) ≡ true)
    → k ≤ length xs
pigeonhole v zero xs distinct member = omega arith
pigeonhole v (suc k) xs distinct member =
    let rest =
      pigeonhole v k (without (v k) xs) (λ i j l m. distinct i j l (omega arith))
        (λ i l.
          lists-without (v k) (v i) xs (distinct i k l (omega arith)) (member i (omega arith))) in
    omega (arith, rest, length-without (v k) xs (member k (omega arith)))

-- What `is_free` rejects.
abbrev taken : NetworkManager → List ℕ
taken m = 0 ∷ 0xFFFF ∷ m.pan_id ∷ take m.heard_count m.heard

not_free : (m : NetworkManager) (c : ℕ) → is_free m c ≡ false → lists (taken m) c ≡ true
not_free m c h = ground (arith, h)

-- The scan finds the first free candidate of its rounds.
scan :
    (fuel : ℕ) (m : NetworkManager) (seed i : ℕ)
    → ((c : ℕ) × (select_from fuel m seed i ≡ c) × (is_free m c ≡ true) × IsU16 c)
      ⊎ ((j : ℕ) → i ≤ j → j < i + fuel → is_free m (u16 (seed + j)) ≡ false)
unfolding select_from
scan zero m seed i = inr (λ j l h. absurd (omega arith))
scan (suc fuel) m seed i = elim (Bool-cases (is_free m (u16 (seed + i)))) [
  | inl found ↦ inl (u16 (seed + i), rw (select_from, found) refl, found, omega arith)
  | inr busy ↦ elim (scan fuel m seed (suc i)) [
    | inl (c, e, f, w) ↦ inl (c, rw (select_from, busy) e, f, w)
    | inr all_busy ↦ inr (λ j l h. elim (Bool-cases (i == j)) [
      | inl same ↦
          let e : i ≡ j = ground arith in ap (λ k. is_free m (u16 (seed + k))) (sym e) ∙ busy
      | inr other ↦ all_busy j (ground arith) (omega arith)
    ])
  ]
]

-- A manager that has heard at most 16 PAN ids always finds a new one, from any seed: it has 16 bits, is
-- neither 0 nor the broadcast id 0xFFFF, is not the own PAN id, and is none of those heard.
pub select_new_pan_id_lem :
    (m : NetworkManager) (seed : ℕ)
    → m.heard_count ≤ 16
    → let c = select_new_pan_id m seed in (is_free m c ≡ true) × IsU16 c
unfolding select_new_pan_id
select_new_pan_id_lem m seed few = elim (scan 0xFFFE m seed 0) [
  | inl (c, e, f, w) ↦ (ap (is_free m) e ∙ f, omega (arith, e, w))
  | inr all_busy ↦
      let crowded =
        pigeonhole (λ i. u16 (seed + i)) 20 (taken m) (λ i j l h. ground arith)
          (λ i l. not_free m (u16 (seed + i)) (all_busy i (omega arith) (omega arith))) in
      absurd (omega (arith, crowded, length-take m.heard_count m.heard))
]
