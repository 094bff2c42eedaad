-- ===== src/SourceRouteTable/Unique.antt =====
-- src/ZigbeeSourceRouteTable.h: the invariant that a device has at most one stored path.
use arduino_nrf_zigbee.Prelude.{
  ℕ, ◌≡◌, refl, inl, inr, ◌<◌, ◌≤◌, Bool, true, false, Option, some, List, ap, arith, get_elem?,
  set, length, length-set, length-replicate, Option-cases, Bool-cases, ◌&&◌, ◌||◌, ◌==◌, is_some,
  leb,
}
use arduino_nrf_zigbee.Slots.{count}
use arduino_nrf_zigbee.Slots.Count.{count-replicate, count-update_where, length-update_where}
use arduino_nrf_zigbee.Slots.Target.{IsTarget, target?-some, count-target}
use arduino_nrf_zigbee.Slots.Place.{modify-eq-set, count-modify_le, length-modify}
use arduino_nrf_zigbee.SourceRouteTable.{
  SourceRouteEntry, SourceRouteTable, empty_entry, begin, matches, is_free, older, find, first_free,
  oldest, installed, path, install, remove, expire, is_stale, max_relays,
}

pub record IsValid (t : SourceRouteTable) : Type 0 where
  pub is_attached : t.attached ≡ true
  pub nonempty : 0 < length t.entries
  pub unique : (dest : ℕ) → count (matches dest) t.entries ≤ 1

pub begin-IsValid : (capacity : ℕ) → 0 < capacity → IsValid (begin capacity)
unfolding begin
begin-IsValid capacity h = record {
  is_attached = refl;
  nonempty = omega (arith, length-replicate capacity empty_entry);
  unique = λ d. omega (arith, count-replicate (matches d) capacity empty_entry refl);
}

-- The paths that `install` takes: at most `max_relays` relays, and an array that is there.
abbrev pub fits : Option (List ℕ) → ℕ → Bool
fits relays relay_count = leb relay_count max_relays && (relay_count == 0 || is_some relays)

pub install_refused :
    (t : SourceRouteTable) (dest : ℕ) (relays : Option (List ℕ)) (relay_count now : ℕ)
    → fits relays relay_count ≡ false
    → install t dest relays relay_count now ≡ (t, false)
unfolding install
install_refused t dest relays n now h = ground arith

pub install_lem :
    (t : SourceRouteTable) (dest : ℕ) (relays : Option (List ℕ)) (relay_count now : ℕ)
    → IsValid t
    → fits relays relay_count ≡ true
    → (i : ℕ) × (x : SourceRouteEntry) × (install t dest relays relay_count now ≡ (
      record t { entries = set t.entries i (installed dest (path relays) relay_count now x) },
      true,
    ))
      × (get_elem? t.entries i ≡ some x)
      × IsTarget is_free (matches dest) t.entries x
unfolding install find first_free oldest
install_lem t dest relays n now v h =
    let (i, x, e, at, target) =
      target?-some is_free (λ x. x.used) older (λ x p. ground arith) (matches dest) t.entries
        v.nonempty in
    (
      i,
      x,
      rw
          (
            v.is_attached,
            install,
            e,
            modify-eq-set t.entries i (installed dest (path relays) n now) at,
          )
          (ground arith),
      at,
      target,
    )

pub install-IsValid :
    {t : SourceRouteTable} (dest : ℕ) (relays : Option (List ℕ)) (relay_count now : ℕ)
    → IsValid t
    → IsValid (install t dest relays relay_count now).0
install-IsValid {t} dest relays n now v = elim (Bool-cases (fits relays n)) [
  | inr h ↦ rw (install_refused t dest relays n now h) v
  | inl h ↦
      let (i, x, e, at, target) = install_lem t dest relays n now v h in
      let new = installed dest (path relays) n now x in
      rw e record {
        is_attached = v.is_attached;
        nonempty = omega (arith, v.nonempty, length-set t.entries i new);
        unique = λ d.
            count-target is_free (matches dest) t.entries i new x at target (matches d) (v.unique d)
              (λ hit. ap matches (ground arith));
      }
]

pub remove-IsValid : {t : SourceRouteTable} (dest : ℕ) → IsValid t → IsValid (remove t dest).0
unfolding remove
remove-IsValid {t} dest v = elim (Option-cases (find t dest)) [
  | inl e ↦ rw (e, remove) v
  | inr (i, e) ↦
      rw (e, remove)
        record {
          is_attached = v.is_attached;
          nonempty = omega (arith, v.nonempty, length-modify t.entries i (λ _. empty_entry));
          unique = λ d. omega (
            arith,
            v.unique d,
            count-modify_le (matches d) t.entries i (λ _. empty_entry) (λ x. refl),
          );
        }
]

pub expire-IsValid :
    {t : SourceRouteTable} (now max_age_ms : ℕ) → IsValid t → IsValid (expire t now max_age_ms).0
unfolding expire
expire-IsValid {t} now max_age_ms v = rw v.is_attached record {
  is_attached = refl;
  nonempty = omega (
    arith,
    v.nonempty,
    length-update_where (is_stale now max_age_ms) (λ e. empty_entry) t.entries,
  );
  unique = λ d. omega (
    arith,
    v.unique d,
    count-update_where (matches d) (is_stale now max_age_ms) (λ e. empty_entry) t.entries
        (λ x h. refl),
  );
}
