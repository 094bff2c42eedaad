-- ===== src/RouteTable/Unique.antt =====
-- ZigbeeRouteTable of src/ZigbeeTables.cpp: the invariant that a destination has at most one route.
use arduino_nrf_zigbee.Prelude.{
  ℕ, ◌≡◌, refl, ap, inl, inr, ◌<◌, ◌≤◌, Bool, true, some, arith, get_elem?, set, length, length-set,
  length-replicate, Option-cases,
}
use arduino_nrf_zigbee.Slots.{find_index?, count}
use arduino_nrf_zigbee.Slots.Count.{count-replicate, count-update_where, length-update_where}
use arduino_nrf_zigbee.Slots.Target.{IsTarget, target?-some, count-target}
use arduino_nrf_zigbee.Slots.Place.{modify-eq-set, count-modify_le, length-modify}
use arduino_nrf_zigbee.RouteTable.{
  ZigbeeRoute, RouteTable, no_route, begin, matches, is_free, updated_before, find, first_free,
  least_recently_updated, route, upsert, remove, is_inactive, remove_inactive,
}

pub record IsValid (t : RouteTable) : Type 0 where
  pub is_attached : t.attached ≡ true
  pub nonempty : 0 < length t.entries
  pub unique : (dst : ℕ) → count (matches dst) t.entries ≤ 1

pub begin-IsValid : (capacity : ℕ) → 0 < capacity → IsValid (begin capacity)
unfolding begin
begin-IsValid capacity h = record {
  is_attached = refl;
  nonempty = omega (arith, length-replicate capacity no_route);
  unique = λ d. omega (arith, count-replicate (matches d) capacity no_route refl);
}

pub find-attached :
    (t : RouteTable) (dst : ℕ) → IsValid t → find t dst ≡ find_index? (matches dst) t.entries
unfolding find
find-attached t dst v = rw (find, v.is_attached) refl

pub upsert_lem :
    (t : RouteTable) (dst hop status : ℕ) (many required : Bool) (now : ℕ)
    → IsValid t
    → (i : ℕ) × (x : ZigbeeRoute) × (upsert t dst hop status many required now
        ≡ (record t { entries = set t.entries i (route dst hop status many required now) }, some i))
      × (get_elem? t.entries i ≡ some x)
      × IsTarget is_free (matches dst) t.entries x
unfolding upsert find first_free least_recently_updated
upsert_lem t dst hop status many required now v =
    let (i, x, e, at, target) =
      target?-some is_free (λ x. x.used) updated_before (λ x p. ground arith) (matches dst)
        t.entries v.nonempty in
    (
      i,
      x,
      rw
          (
            v.is_attached,
            upsert,
            e,
            modify-eq-set t.entries i (λ _. route dst hop status many required now) at,
          )
          (ground arith),
      at,
      target,
    )

pub upsert-IsValid :
    {t : RouteTable} (dst hop status : ℕ) (many required : Bool) (now : ℕ)
    → IsValid t
    → IsValid (upsert t dst hop status many required now).0
upsert-IsValid {t} dst hop status many required now v =
    let (i, x, e, at, target) = upsert_lem t dst hop status many required now v in
    let new = route dst hop status many required now in
    rw e record {
      is_attached = v.is_attached;
      nonempty = omega (arith, v.nonempty, length-set t.entries i new);
      unique = λ d.
          count-target is_free (matches dst) t.entries i new x at target (matches d) (v.unique d)
            (λ hit. ap matches (ground arith));
    }

pub remove-IsValid : {t : RouteTable} (dst : ℕ) → IsValid t → IsValid (remove t dst).0
unfolding remove
remove-IsValid {t} dst v = elim (Option-cases (find t dst)) [
  | inl e ↦ rw (e, remove) v
  | inr (i, e) ↦
      rw (e, remove)
        record {
          is_attached = v.is_attached;
          nonempty = omega (arith, v.nonempty, length-modify t.entries i (λ _. no_route));
          unique = λ d. omega (
            arith,
            v.unique d,
            count-modify_le (matches d) t.entries i (λ _. no_route) (λ x. refl),
          );
        }
]

pub remove_inactive-IsValid : {t : RouteTable} → IsValid t → IsValid (remove_inactive t).0
unfolding remove_inactive
remove_inactive-IsValid {t} v = rw v.is_attached record {
  is_attached = refl;
  nonempty = omega (arith, v.nonempty, length-update_where is_inactive (λ e. no_route) t.entries);
  unique = λ d. omega (
    arith,
    v.unique d,
    count-update_where (matches d) is_inactive (λ e. no_route) t.entries (λ x h. refl),
  );
}
