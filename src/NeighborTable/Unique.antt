-- ===== src/NeighborTable/Unique.antt =====
-- ZigbeeNeighborTable::upsert of src/ZigbeeTables.cpp: the entry of a network address.
use arduino_nrf_zigbee.Prelude.{
  ℕ, ◌≡◌, refl, sym, ap, ◌∙◌, inl, inr, ◌⊎◌, ◌<◌, ◌≤◌, true, false, none, some, List, [], ◌∷◌, ◌==◌,
  arith, get_elem?, set, length, length-set, length-replicate, Option-cases, Bool-cases,
}
use arduino_nrf_zigbee.Slots.{find_index?, find?, count, update_where}
use arduino_nrf_zigbee.Slots.Find.{find_index?-some, find_index?-none, find?-holds}
use arduino_nrf_zigbee.Slots.Count.{
  count-replicate, count-update_where, length-update_where, count_of_find?-none, count-pos,
}
use arduino_nrf_zigbee.Slots.Spare.{spare?-any}
use arduino_nrf_zigbee.Slots.Place.{
  modify-eq-set, count-modify_le, length-modify, count-place, find?-place,
}
use arduino_nrf_zigbee.NeighborTable.{
  ZigbeeNeighbor, NeighborTable, Report, no_neighbor, begin, has_nwk, has_ieee, find_by_nwk,
  find_by_ieee, is_free, first_free, seen_before, is_fresh, least_recently_seen, refreshed,
  upsert_slot, upsert, remove_by_nwk, remove_older_than, is_older, remove_stale_routers, is_aged,
  aged,
}

pub record IsValid (t : NeighborTable) : Type 0 where
  pub is_attached : t.attached ≡ true
  pub nonempty : 0 < length t.entries
  pub unique : (nwk : ℕ) → count (has_nwk nwk) t.entries ≤ 1

pub begin-IsValid : (capacity : ℕ) → 0 < capacity → IsValid (begin capacity)
unfolding begin
begin-IsValid capacity h = record {
  is_attached = refl;
  nonempty = omega (arith, length-replicate capacity no_neighbor);
  unique = λ d. omega (arith, count-replicate (has_nwk d) capacity no_neighbor refl);
}

-- The slot of `upsert` holds the entry of the network address, if there is one.
slot_lem :
    (t : NeighborTable) (r : Report)
    → IsValid t
    → (i : ℕ) × (x : ZigbeeNeighbor) × (upsert_slot t r ≡ some i)
      × (get_elem? t.entries i ≡ some x)
      × ((find? (has_nwk r.nwk_address) t.entries ≡ some x)
          ⊎ ((find? (has_nwk r.nwk_address) t.entries ≡ none)
              × (count (has_nwk r.nwk_address) t.entries ≡ 0)))
unfolding upsert_slot find_by_nwk find_by_ieee first_free least_recently_seen
slot_lem t r v = elim (Option-cases (find_index? (has_nwk r.nwk_address) t.entries)) [
  | inr (i, e) ↦
      let (x, at, hit, f) = find_index?-some (has_nwk r.nwk_address) t.entries i e in
      (i, x, rw (upsert_slot, v.is_attached, e) refl, at, inl f)
  | inl e ↦
      let gone = find_index?-none (has_nwk r.nwk_address) t.entries e in
      let unknown = count_of_find?-none (has_nwk r.nwk_address) t.entries gone in
      let (i, x, s, at, why) =
        spare?-any is_free (λ x. x.used) seen_before (λ x p. ground arith) t.entries v.nonempty in
      elim (Bool-cases (r.ieee_address == 0)) [
        | inl zero_ieee ↦
            (i, x, rw (upsert_slot, v.is_attached, e, zero_ieee) s, at, inr (gone, unknown))
        | inr ieee ↦ elim (Option-cases (find_index? (has_ieee r.ieee_address) t.entries)) [
          | inl n ↦ (i, x, rw (upsert_slot, v.is_attached, e, ieee, n) s, at, inr (gone, unknown))
          | inr (j, f) ↦
              let (y, aty, _, _) = find_index?-some (has_ieee r.ieee_address) t.entries j f in
              (j, y, rw (upsert_slot, v.is_attached, e, ieee, f) refl, aty, inr (gone, unknown))
        ]
      ]
]

-- The entry of the network address of a report, before the call; a blank one where there is none.
abbrev pub known : NeighborTable → ℕ → ZigbeeNeighbor
known t nwk = elim (find? (has_nwk nwk) t.entries) [ none ↦ no_neighbor | some x ↦ x ]

known-some :
    (t : NeighborTable) (nwk : ℕ) (x : ZigbeeNeighbor)
    → find? (has_nwk nwk) t.entries ≡ some x
    → known t nwk ≡ x
known-some t nwk x f = rw (f, known) refl

known-none :
    (t : NeighborTable) (nwk : ℕ) → find? (has_nwk nwk) t.entries ≡ none → known t nwk ≡ no_neighbor
known-none t nwk f = rw (f, known) refl

-- A slot that was not the address's gives the link costs that a blank one gives.
refreshed_fresh :
    (r : Report) (now : ℕ) (x : ZigbeeNeighbor)
    → has_nwk r.nwk_address x ≡ false
    → refreshed r now x ≡ refreshed r now no_neighbor
refreshed_fresh r now x h = ground arith

missed :
    (nwk i : ℕ) (t : NeighborTable) (x : ZigbeeNeighbor)
    → get_elem? t.entries i ≡ some x
    → count (has_nwk nwk) t.entries ≡ 0
    → has_nwk nwk x ≡ false
missed nwk i t x at z = elim (Bool-cases (has_nwk nwk x)) [
  | inl hit ↦ absurd (omega (arith, count-pos (has_nwk nwk) t.entries i at hit))
  | inr miss ↦ miss
]

pub upsert_lem :
    (t : NeighborTable) (r : Report) (now : ℕ)
    → IsValid t
    → (i : ℕ) × (x : ZigbeeNeighbor) × (upsert t r now
        ≡ (record t { entries = set t.entries i (refreshed r now x) }, some i))
      × (get_elem? t.entries i ≡ some x)
      × (refreshed r now x ≡ refreshed r now (known t r.nwk_address))
      × ((has_nwk r.nwk_address x ≡ true) ⊎ (count (has_nwk r.nwk_address) t.entries ≡ 0))
unfolding upsert
upsert_lem t r now v =
    let (i, x, s, at, why) = slot_lem t r v in
    let e : upsert t r now ≡ (record t { entries = set t.entries i (refreshed r now x) }, some i) =
      rw (upsert, s, modify-eq-set t.entries i (refreshed r now) at) refl in
    elim why [
      | inl f ↦
          let k = known-some t r.nwk_address x f in
          (
            i,
            x,
            e,
            at,
            ap (refreshed r now) (sym k),
            inl (find?-holds (has_nwk r.nwk_address) t.entries f),
          )
      | inr (gone, unknown) ↦
          let k = known-none t r.nwk_address gone in
          (
            i,
            x,
            e,
            at,
            refreshed_fresh r now x (missed r.nwk_address i t x at unknown)
                ∙ ap (refreshed r now) (sym k),
            inr unknown,
          )
    ]

pub upsert-IsValid :
    {t : NeighborTable} (r : Report) (now : ℕ) → IsValid t → IsValid (upsert t r now).0
upsert-IsValid {t} r now v =
    let (i, x, e, at, _, why) = upsert_lem t r now v in
    let new = refreshed r now x in
    rw e record {
      is_attached = v.is_attached;
      nonempty = omega (arith, v.nonempty, length-set t.entries i new);
      unique = λ d. count-place (has_nwk d) t.entries i new x at (v.unique d) (λ hit miss.
          let same : d ≡ r.nwk_address = ground arith in
          elim why [ inl held ↦ ground arith | inr unknown ↦ rw same unknown ]);
    }

-- The entry of an address after a report, field by field: the link costs of a known address stay.
refreshed-known :
    (t : NeighborTable) (r : Report) (now : ℕ)
    → refreshed r now (known t r.nwk_address) ≡ record {
      used = true;
      nwk_address = r.nwk_address;
      ieee_address = r.ieee_address;
      device_type = r.device_type;
      relationship = r.relationship;
      depth = r.depth;
      lqi = r.lqi;
      incoming_cost = (known t r.nwk_address).incoming_cost;
      outgoing_cost = (known t r.nwk_address).outgoing_cost;
      rx_on_when_idle = r.rx_on_when_idle;
      permit_joining = r.permit_joining;
      last_seen_ms = now;
    }
refreshed-known t r now = elim (Option-cases (find? (has_nwk r.nwk_address) t.entries)) [
  | inl gone ↦ rw (gone, known) refl
  | inr (x, f) ↦
      let hit = find?-holds (has_nwk r.nwk_address) t.entries f in
      let old : is_fresh r.nwk_address x ≡ false = ground arith in rw (f, known, old) refl
]

-- After an upsert into a valid table, the entry of the network address is the report, seen at `now`.
-- Its link costs are those of the entry that the address had, or 0 where it had none, also where the
-- slot of another address was taken.
pub upsert-lookup :
    (t : NeighborTable) (r : Report) (now : ℕ)
    → IsValid t
    → IsValid (upsert t r now).0
      × (find? (has_nwk r.nwk_address) (upsert t r now).0.entries
          ≡ some (record {
            used = true;
            nwk_address = r.nwk_address;
            ieee_address = r.ieee_address;
            device_type = r.device_type;
            relationship = r.relationship;
            depth = r.depth;
            lqi = r.lqi;
            incoming_cost = (known t r.nwk_address).incoming_cost;
            outgoing_cost = (known t r.nwk_address).outgoing_cost;
            rx_on_when_idle = r.rx_on_when_idle;
            permit_joining = r.permit_joining;
            last_seen_ms = now;
          }))
upsert-lookup t r now v =
    let (i, x, e, at, costs, why) = upsert_lem t r now v in
    (
      upsert-IsValid r now v,
      rw (e, ← costs)
            (find?-place (has_nwk r.nwk_address) t.entries i (refreshed r now x) x at
              (v.unique r.nwk_address) (ground arith)
              (λ miss. elim why [ inl hit ↦ cc | inr unknown ↦ unknown ]))
          ∙ ap some (refreshed-known t r now),
    )

pub remove_by_nwk-IsValid :
    {t : NeighborTable} (nwk : ℕ) → IsValid t → IsValid (remove_by_nwk t nwk).0
unfolding remove_by_nwk
remove_by_nwk-IsValid {t} nwk v = elim (Option-cases (find_by_nwk t nwk)) [
  | inl e ↦ rw (e, remove_by_nwk) v
  | inr (i, e) ↦
      rw (e, remove_by_nwk)
        record {
          is_attached = v.is_attached;
          nonempty = omega (arith, v.nonempty, length-modify t.entries i (λ _. no_neighbor));
          unique = λ d. omega (
            arith,
            v.unique d,
            count-modify_le (has_nwk d) t.entries i (λ _. no_neighbor) (λ x. refl),
          );
        }
]

pub remove_older_than-IsValid :
    {t : NeighborTable} (cutoff : ℕ) → IsValid t → IsValid (remove_older_than t cutoff).0
unfolding remove_older_than
remove_older_than-IsValid {t} cutoff v = rw v.is_attached record {
  is_attached = refl;
  nonempty =
      omega (arith, v.nonempty, length-update_where (is_older cutoff) (λ e. no_neighbor) t.entries);
  unique = λ d. omega (
    arith,
    v.unique d,
    count-update_where (has_nwk d) (is_older cutoff) (λ e. no_neighbor) t.entries (λ x h. refl),
  );
}

count-aged :
    (cutoff spare nwk : ℕ) (es : List ZigbeeNeighbor)
    → count (has_nwk nwk) (update_where (is_aged cutoff spare) aged es) ≤ count (has_nwk nwk) es
count-aged cutoff spare nwk [] = omega arith
count-aged cutoff spare nwk (e ∷ es) = ground (arith, count-aged cutoff spare nwk es)

pub remove_stale_routers-IsValid :
    {t : NeighborTable} (cutoff spare : ℕ)
    → IsValid t
    → IsValid (remove_stale_routers t cutoff spare).0
unfolding remove_stale_routers
remove_stale_routers-IsValid {t} cutoff spare v = rw v.is_attached record {
  is_attached = refl;
  nonempty = omega (arith, v.nonempty, length-update_where (is_aged cutoff spare) aged t.entries);
  unique = λ d. omega (arith, v.unique d, count-aged cutoff spare d t.entries);
}
