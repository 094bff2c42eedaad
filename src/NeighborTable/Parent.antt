-- ===== src/NeighborTable/Parent.antt =====
-- ZigbeeNeighborTable::bestParentCandidate of src/ZigbeeTables.cpp: which neighbor is chosen.
use arduino_nrf_zigbee.Prelude.{
  ℕ, ◌≡◌, refl, inl, inr, ◌⊎◌, true, false, none, some, ◌&&◌, ◌==◌, arith, get_elem?, Option-cases,
  Bool-cases, ltb,
}
use arduino_nrf_zigbee.Slots.{count, best?}
use arduino_nrf_zigbee.Slots.Count.{count-zero}
use arduino_nrf_zigbee.Slots.Oldest.{best?-some, best?-total}
use arduino_nrf_zigbee.NeighborTable.{
  ZigbeeNeighbor, NeighborTable, can_parent, preferred, best_parent_candidate,
}

preferred_transfer :
    (x o y : ZigbeeNeighbor) → preferred x o ≡ true → preferred y o ≡ false → preferred y x ≡ false
preferred_transfer x o y h k = ground arith

-- No candidate has a better link than `x`, nor as good a link and a smaller depth.
abbrev pub IsBest : NeighborTable → ZigbeeNeighbor → Type 0
IsBest t x =
    (count (λ y. can_parent y && ltb x.lqi y.lqi) t.entries ≡ 0)
    × (count (λ y. can_parent y && (y.lqi == x.lqi && ltb y.depth x.depth)) t.entries ≡ 0)

-- The neighbor returned is a router or coordinator that permits joining, has the best link quality
-- among these, and the least depth among those with this link quality; null is returned only where
-- there is none of these.
pub best_parent_candidate_lem :
    (t : NeighborTable)
    → t.attached ≡ true
    → ((best_parent_candidate t ≡ none) × (count can_parent t.entries ≡ 0))
      ⊎ ((i : ℕ) × (x : ZigbeeNeighbor) × (best_parent_candidate t ≡ some i)
          × (get_elem? t.entries i ≡ some x)
          × (can_parent x ≡ true)
          × IsBest t x)
unfolding best_parent_candidate
best_parent_candidate_lem t a = elim (Option-cases (best? can_parent preferred t.entries)) [
  | inl e ↦ inl (
    rw (a, best_parent_candidate, e) refl,
    count-zero can_parent t.entries (λ k y at. elim (Bool-cases (can_parent y)) [
      | inl can ↦ absurd (best?-total can_parent preferred t.entries k at can e)
      | inr cannot ↦ cannot
    ]),
  )
  | inr (i, e) ↦
      let (x, at, can, most) =
        best?-some can_parent preferred (λ y. ground arith) preferred_transfer t.entries i e in
      inr (
        i,
        x,
        rw (a, best_parent_candidate, e) refl,
        at,
        can,
        (
          count-zero (λ y. can_parent y && ltb x.lqi y.lqi) t.entries
              (λ k y aty. ground (arith, most k y aty)),
          count-zero (λ y. can_parent y && (y.lqi == x.lqi && ltb y.depth x.depth)) t.entries
              (λ k y aty. ground (arith, most k y aty)),
        ),
      )
]
