-- ===== src/SourceRouteTable/Routes.antt =====
-- src/ZigbeeSourceRouteTable.h: what the table remembers of each device, and the downstream route
-- that it gives back.
use mathlib.Core.List.{reverse, reverse-append}
use arduino_nrf_zigbee.Prelude.{
  ℕ, zero, suc, ◌≡◌, refl, sym, ap, ◌∙◌, inl, inr, ◌⊎◌, ◌<◌, ◌≤◌, ◌+◌, true, false, Option, none,
  some, List, [], ◌∷◌, arith, get_elem?, get_or, get_or-eq, take, drop, take-append_length,
  take-take, take-suc, length, length-take, length-append, is_some, Option-cases, Bool-cases, Bool,
  leb, ◌&&◌, ◌||◌, ◌==◌,
}
use arduino_nrf_zigbee.Slots.{find_index?, find?}
use arduino_nrf_zigbee.Slots.Find.{find_index?-some, find_index?-none}
use arduino_nrf_zigbee.Slots.Count.{
  count-update_where, count_ext, find?-update_where, find?-unless, unless,
}
use arduino_nrf_zigbee.Slots.Target.{Survives, find?-target, target-Survives}
use arduino_nrf_zigbee.Slots.Place.{find?-modify_miss, find?-modify_reset}
use arduino_nrf_zigbee.SourceRouteTable.Unique.{
  IsValid, fits, install_lem, install_refused, install-IsValid, remove-IsValid, expire-IsValid,
  begin-IsValid,
}
use arduino_nrf_zigbee.SourceRouteTable.{
  SourceRouteEntry, SourceRouteTable, empty_entry, begin, matches, is_free, find, installed, path,
  install, backwards, downstream_route, remove, expire, is_stale, active_count, copy_relays,
}

-- The entry that `find` points to.
abbrev pub lookup : SourceRouteTable → ℕ → Option SourceRouteEntry
lookup t dest = find? (matches dest) t.entries

pub data Call : Type 0 where
  installs : ℕ → Option (List ℕ) → ℕ → ℕ → Call
  removes : ℕ → Call
  expires : ℕ → ℕ → Call

pub step : SourceRouteTable → Call → SourceRouteTable
step t (installs dest relays relay_count now) = (install t dest relays relay_count now).0
step t (removes dest) = (remove t dest).0
step t (expires now max_age_ms) = (expire t now max_age_ms).0

pub run : SourceRouteTable → List Call → SourceRouteTable
run t [] = t
run t (c ∷ cs) = run (step t c) cs

step-IsValid : {t : SourceRouteTable} (c : Call) → IsValid t → IsValid (step t c)
unfolding step
step-IsValid (installs dest relays n now) v = install-IsValid dest relays n now v
step-IsValid (removes dest) v = remove-IsValid dest v
step-IsValid (expires now age) v = expire-IsValid now age v

run-IsValid : (t : SourceRouteTable) (cs : List Call) → IsValid t → IsValid (run t cs)
unfolding run
run-IsValid t [] v = v
run-IsValid t (c ∷ cs) v = run-IsValid (step t c) cs (step-IsValid c v)

-- After `begin` with at least one slot and any sequence of calls, the table holds at most one path
-- for each device.
pub source_route_run-IsValid :
    (capacity : ℕ) (cs : List Call) → 0 < capacity → IsValid (run (begin capacity) cs)
source_route_run-IsValid capacity cs h = run-IsValid (begin capacity) cs (begin-IsValid capacity h)

backwards-reverse : (n : ℕ) (xs : List ℕ) → n ≤ length xs → backwards n xs ≡ reverse (take n xs)
unfolding backwards
backwards-reverse zero xs h = refl
backwards-reverse (suc n) xs h =
    rw (backwards-reverse n xs (omega arith), take-suc n xs 0 (omega arith))
      (sym (reverse-append (take n xs) (get_or xs n 0 ∷ [])))

-- The first `n` relays of the array after the copy.
backwards-copy :
    (n : ℕ) (from to : List ℕ)
    → n ≤ length from
    → backwards n (copy_relays n from to) ≡ reverse (take n from)
backwards-copy n from to h =
    backwards-reverse n (copy_relays n from to)
      (omega (arith, length-append (take n from) (drop n to), length-take n from))
    ∙ ap reverse (
        take-append_length n (take n from) (drop n to) (omega (arith, length-take n from))
        ∙ take-take n from)

present :
    (t : SourceRouteTable) (dest : ℕ) {x : SourceRouteEntry}
    → IsValid t
    → lookup t dest ≡ some x
    → (i : ℕ) × (find t dest ≡ some i) × (get_elem? t.entries i ≡ some x)
unfolding find
present t dest v e = elim (Option-cases (find_index? (matches dest) t.entries)) [
  | inl n ↦ cc (find_index?-none (matches dest) t.entries n)
  | inr (i, p) ↦
      let (y, at, _, f) = find_index?-some (matches dest) t.entries i p in
      (i, ground (arith, v.is_attached), cc)
]

downstream_route-lookup :
    (t : SourceRouteTable) (dest out_max : ℕ) {x : SourceRouteEntry}
    → IsValid t
    → lookup t dest ≡ some x
    → x.relay_count ≤ out_max
    → downstream_route t dest out_max ≡ (x.relay_count, backwards x.relay_count x.relays)
unfolding downstream_route
downstream_route-lookup t dest out_max {x} v e room =
    let (i, p, at) = present t dest v e in
    rw (p, downstream_route, get_or-eq t.entries i empty_entry at) (ground arith)

-- The other device's path is as it was, or it made room in a full table.
abbrev pub KeptRoute : SourceRouteTable → SourceRouteTable → ℕ → Type 0
KeptRoute t t' dest = Survives is_free (matches dest) t.entries t'.entries

install-lookup :
    (t : SourceRouteTable) (dest : ℕ) (relays : Option (List ℕ)) (relay_count now other : ℕ)
    → IsValid t
    → fits relays relay_count ≡ true
    → (other == dest) ≡ false
    → let (t', done) = install t dest relays relay_count now in
      (x : SourceRouteEntry) × (done ≡ true)
      × (lookup t' dest ≡ some (installed dest (path relays) relay_count now x))
      × KeptRoute t t' other
install-lookup t dest relays n now other v h ne =
    let (i, x, e, at, target) = install_lem t dest relays n now v h in
    let new = installed dest (path relays) n now x in
    rw e (
      x,
      refl,
      find?-target is_free (matches dest) t.entries i new x at target (v.unique dest)
          (ground arith),
      target-Survives is_free (matches dest) t.entries i new x at target (matches other)
          (v.unique other) (ground arith) (λ hit. ground arith) (λ hit. ground arith),
    )

-- Installing a path of at most eight relays in a valid table, a full one included, and asking for
-- the route downstream, with room for it, gives the relays of the path in reverse order. The path
-- stored for any other device is as it was, unless the table was full and that device's path made
-- room.
pub downstream_route-install :
    (t : SourceRouteTable) (dest : ℕ) (relays : List ℕ) (relay_count now out_max other : ℕ)
    → IsValid t
    → relay_count ≤ 8
    → relay_count ≤ length relays
    → relay_count ≤ out_max
    → (other == dest) ≡ false
    → let (t', done) = install t dest (some relays) relay_count now in
      (done ≡ true)
      × (downstream_route t' dest out_max ≡ (relay_count, reverse (take relay_count relays)))
      × KeptRoute t t' other
downstream_route-install t dest relays n now out_max other v small long room ne =
    let fit : fits (some relays) n ≡ true = ground arith in
    let (x, done, held, kept) = install-lookup t dest (some relays) n now other v fit ne in
    (
      done,
      downstream_route-lookup _ dest out_max (install-IsValid dest (some relays) n now v) held room
          ∙ ap (λ (r : List ℕ). (n, r)) (backwards-copy n relays x.relays long),
      kept,
    )

-- A valid table takes a path exactly when it has at most eight relays and its array is not null,
-- which it may be for a path with no relay; any other path leaves the table as it was.
pub install_answers :
    (t : SourceRouteTable) (dest : ℕ) (relays : Option (List ℕ)) (relay_count now : ℕ)
    → IsValid t
    → ((install t dest relays relay_count now).1
        ≡ (leb relay_count 8 && (relay_count == 0 || is_some relays)))
      × (((install t dest relays relay_count now).1 ≡ true)
          ⊎ (install t dest relays relay_count now ≡ (t, false)))
install_answers t dest relays n now v = elim (Bool-cases (fits relays n)) [
  | inr h ↦
      let e = install_refused t dest relays n now h in
      (ap (λ (r : SourceRouteTable × Bool). r.1) e ∙ sym h, inr e)
  | inl h ↦
      let (i, x, e, at, target) = install_lem t dest relays n now v h in
      let done = ap (λ (r : SourceRouteTable × Bool). r.1) e in (done ∙ sym h, inl done)
]

-- In a valid table, `remove` forgets the path of the device and says whether there was one; the path
-- of any other device is as it was.
pub remove-lookup :
    (t : SourceRouteTable) (dest other : ℕ)
    → IsValid t
    → (other == dest) ≡ false
    → let (t', found) = remove t dest in
      (lookup t' dest ≡ none)
      × (found ≡ is_some (lookup t dest))
      × (lookup t' other ≡ lookup t other)
unfolding remove find
remove-lookup t dest other v ne = elim (Option-cases (find_index? (matches dest) t.entries)) [
  | inl e ↦
      let gone = find_index?-none (matches dest) t.entries e in
      rw (v.is_attached, remove, e) (gone, rw gone refl, refl)
  | inr (i, e) ↦
      let (x, at, hit, f) = find_index?-some (matches dest) t.entries i e in
      rw (v.is_attached, remove, e)
        (
          find?-modify_reset (matches dest) t.entries i (λ _. empty_entry) (v.unique dest) at hit
              refl,
          rw f refl,
          find?-modify_miss (matches other) t.entries i (λ _. empty_entry) at (ground arith) refl,
        )
]

-- In a valid table, `expire` forgets a path exactly when it was last refreshed at least `max_age_ms`
-- ago (by the wrapping clock), leaves every other path as it is, and returns the number dropped.
pub source_route_expire-lookup :
    (t : SourceRouteTable) (now max_age_ms dest : ℕ)
    → IsValid t
    → let (t', freed) = expire t now max_age_ms in
      (lookup t' dest ≡ unless (is_stale now max_age_ms) (lookup t dest))
      × (active_count t' + freed ≡ active_count t)
unfolding expire active_count
source_route_expire-lookup t now age dest v =
    let stale = is_stale now age in
    let reset = λ (e : SourceRouteEntry). empty_entry in
    rw (v.is_attached, expire)
      (
        find?-update_where (matches dest) stale reset t.entries (λ x h. refl)
            ∙ find?-unless (matches dest) stale t.entries (v.unique dest),
        omega (
          arith,
          count-update_where (λ e. e.used) stale reset t.entries (λ x h. refl),
          count_ext (λ x. x.used && stale x) stale t.entries (λ x. ground arith),
        ),
      )
