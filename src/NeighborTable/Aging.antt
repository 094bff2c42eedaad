-- ===== src/NeighborTable/Aging.antt =====
-- ZigbeeNeighborTable::removeStaleRouters of src/ZigbeeTables.cpp: what aging leaves.
use arduino_nrf_zigbee.Prelude.{
  ℕ, ◌≡◌, refl, ap, ◌≢◌, Bool-cases, inl, inr, Bool, true, false, List, [], ◌∷◌, ◌&&◌, ◌||◌, ◌==◌,
  arith, to_nat,
}
use arduino_nrf_zigbee.Slots.{count, update_where}
use arduino_nrf_zigbee.NeighborTable.{
  ZigbeeNeighbor, NeighborTable, is_aged, aged, remove_stale_routers, rel_child, rel_previous_child,
}

-- The table keeps the network address for the device, which is a child, or was one.
abbrev pub is_lease : ℕ → ℕ → ZigbeeNeighbor → Bool
is_lease nwk ieee e =
    (e.used && (e.nwk_address == nwk && e.ieee_address == ieee))
    && (e.relationship == rel_child || e.relationship == rel_previous_child)

aged_once : (cutoff spare : ℕ) (e : ZigbeeNeighbor) → is_aged cutoff spare (aged e) ≡ false
aged_once cutoff spare e = ground arith

none_aged :
    (cutoff spare : ℕ) (es : List ZigbeeNeighbor)
    → count (is_aged cutoff spare) (update_where (is_aged cutoff spare) aged es) ≡ 0
none_aged cutoff spare [] = refl
none_aged cutoff spare (e ∷ es) = elim (Bool-cases (is_aged cutoff spare e)) [
  | inl hit ↦ rw (hit, aged_once cutoff spare e) (omega (arith, none_aged cutoff spare es))
  | inr miss ↦ rw (miss, miss) (omega (arith, none_aged cutoff spare es))
]

update_where-none :
    (q : ZigbeeNeighbor → Bool) (es : List ZigbeeNeighbor)
    → count q es ≡ 0
    → update_where q aged es ≡ es
update_where-none q [] z = refl
update_where-none q (e ∷ es) z = elim (Bool-cases (q e)) [
  | inl hit ↦ absurd (omega (arith, ap to_nat hit))
  | inr miss ↦ rw miss (ap (◌∷◌ e) (update_where-none q es (omega (arith, z))))
]

aged-lease :
    (cutoff spare nwk ieee : ℕ) (e : ZigbeeNeighbor)
    → ieee ≢ 0
    → is_aged cutoff spare e ≡ true
    → is_lease nwk ieee (aged e) ≡ is_lease nwk ieee e
aged-lease cutoff spare nwk ieee e ne hit = ground arith

leases_kept :
    (cutoff spare nwk ieee : ℕ) (es : List ZigbeeNeighbor)
    → ieee ≢ 0
    → count (is_lease nwk ieee) (update_where (is_aged cutoff spare) aged es)
      ≡ count (is_lease nwk ieee) es
leases_kept cutoff spare nwk ieee [] ne = refl
leases_kept cutoff spare nwk ieee (e ∷ es) ne = elim (Bool-cases (is_aged cutoff spare e)) [
  | inl hit ↦
      rw (hit, aged-lease cutoff spare nwk ieee e ne hit)
        (omega (arith, leases_kept cutoff spare nwk ieee es ne))
  | inr miss ↦ rw miss (omega (arith, leases_kept cutoff spare nwk ieee es ne))
]

-- Aging an attached table keeps the network address of every child: there are as many used entries
-- of a child, or of a previous child, with a given network address and a given IEEE address, which
-- is not 0, as before. A second aging by the same limits, while no neighbor is heard, finds nothing
-- to age and changes nothing.
pub remove_stale_routers_again :
    (t : NeighborTable) (cutoff spare nwk ieee : ℕ)
    → t.attached ≡ true
    → ieee ≢ 0
    → let t' = (remove_stale_routers t cutoff spare).0 in
      (count (is_lease nwk ieee) t'.entries ≡ count (is_lease nwk ieee) t.entries)
      × (remove_stale_routers t' cutoff spare ≡ (t', 0))
unfolding remove_stale_routers
remove_stale_routers_again t cutoff spare nwk ieee a ne =
    let none_left = none_aged cutoff spare t.entries in
    let same =
      update_where-none (is_aged cutoff spare) (update_where (is_aged cutoff spare) aged t.entries)
        none_left in
    rw (remove_stale_routers, a)
      (leases_kept cutoff spare nwk ieee t.entries ne, ground (arith, same, none_left))
