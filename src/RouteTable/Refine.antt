-- ===== src/RouteTable/Refine.antt =====
-- ZigbeeRouteTable of src/ZigbeeTables.cpp as a partial map from destinations to routes that may
-- forget an entry when it is full.
use arduino_nrf_zigbee.Prelude.{
  ℕ, ◌≡◌, refl, ◌∙◌, inl, inr, ◌⊎◌, ◌<◌, Bool, true, false, Option, none, some, List, [], ◌∷◌, ◌==◌,
  arith, set, Option-cases, Bool-cases,
}
use arduino_nrf_zigbee.Slots.{find_index?, find?}
use arduino_nrf_zigbee.Slots.Find.{find_index?-some, find_index?-none}
use arduino_nrf_zigbee.Slots.Count.{
  count-set, find?-none_of_count, find?-set_miss, unless, find?-update_where, find?-unless,
}
use arduino_nrf_zigbee.Slots.Place.{find?-modify_reset, find?-modify_miss}
use arduino_nrf_zigbee.Slots.Target.{find?-target}
use arduino_nrf_zigbee.RouteTable.{
  ZigbeeRoute, RouteTable, no_route, begin, matches, is_free, route, upsert, remove, is_inactive,
  remove_inactive,
}
use arduino_nrf_zigbee.RouteTable.Unique.{
  IsValid, begin-IsValid, find-attached, upsert_lem, upsert-IsValid, remove-IsValid,
  remove_inactive-IsValid,
}

-- What a table stands for: the route to each destination.
abbrev pub View : Type 0
View = ℕ → Option ZigbeeRoute

abbrev pub view : RouteTable → View
view t dst = find? (matches dst) t.entries

pub data Call : Type 0 where
  upserts : ℕ → ℕ → ℕ → Bool → Bool → ℕ → Call
  removes : ℕ → Call
  purges : Call

pub step : RouteTable → Call → RouteTable
step t (upserts dst hop status many required now) = (upsert t dst hop status many required now).0
step t (removes dst) = (remove t dst).0
step t purges = (remove_inactive t).0

pub run : RouteTable → List Call → RouteTable
run t [] = t
run t (c ∷ cs) = run (step t c) cs

-- The abstract map: an upsert binds the destination and may forget one other, the victim; the other
-- calls are exact.
pub data Allowed (v : View) : Call → View → Type 0 where
  upserted :
      (dst hop status : ℕ) (many required : Bool) (now victim : ℕ) {w : View}
      → w dst ≡ some (route dst hop status many required now)
      → ((d : ℕ) → (d == dst) ≡ false → (d == victim) ≡ false → w d ≡ v d)
      → ((victim == dst) ≡ true) ⊎ (w victim ≡ none)
      → Allowed v (upserts dst hop status many required now) w
  removed :
      (dst : ℕ) {w : View}
      → w dst ≡ none
      → ((d : ℕ) → (d == dst) ≡ false → w d ≡ v d)
      → Allowed v (removes dst) w
  purged : {w : View} → ((d : ℕ) → w d ≡ unless is_inactive (v d)) → Allowed v purges w

pub data AllowedRun : View → List Call → View → Type 0 where
  stay : {v : View} → AllowedRun v [] v
  go :
      {c : Call} {cs : List Call} {v w u : View}
      → Allowed v c w
      → AllowedRun w cs u
      → AllowedRun v (c ∷ cs) u

-- An upsert, by what stands in the slot that it writes.
upsert-Allowed :
    (t : RouteTable) (dst hop status : ℕ) (many required : Bool) (now : ℕ)
    → IsValid t
    → Allowed
        (view t)
        (upserts dst hop status many required now)
        (view (upsert t dst hop status many required now).0)
upsert-Allowed t dst hop status many required now v =
    let (i, x, e, at, target) = upsert_lem t dst hop status many required now v in
    let new = route dst hop status many required now in
    let bound =
      find?-target is_free (matches dst) t.entries i new x at target (v.unique dst)
        (ground arith) in
    rw e (elim (Bool-cases x.used) [
      | inr free ↦
          upserted dst hop status many required now dst bound
            (λ d ne _. find?-set_miss (matches d) t.entries i new at (ground arith) (ground arith))
            (inl (ground arith))
      | inl busy ↦
          upserted dst hop status many required now x.dst_address bound
            (λ d ne other.
              find?-set_miss (matches d) t.entries i new at (ground arith) (ground arith))
            (elim (Bool-cases (x.dst_address == dst)) [
              | inl same ↦ inl same
              | inr differs ↦ inr (
                  find?-none_of_count (matches x.dst_address) (set t.entries i new) (
                    ground (
                      arith,
                      count-set (matches x.dst_address) t.entries i new at,
                      v.unique x.dst_address,
                    )))
            ])
    ])

remove-Allowed :
    (t : RouteTable) (dst : ℕ) → IsValid t → Allowed (view t) (removes dst) (view (remove t dst).0)
unfolding remove
remove-Allowed t dst v = elim (Option-cases (find_index? (matches dst) t.entries)) [
  | inl e ↦
      rw (remove, find-attached t dst v, e)
        (removed dst (find_index?-none (matches dst) t.entries e) (λ d ne. refl))
  | inr (i, e) ↦
      let (x, at, hit, f) = find_index?-some (matches dst) t.entries i e in
      rw (remove, find-attached t dst v, e)
        (removed dst
          (find?-modify_reset (matches dst) t.entries i (λ _. no_route) (v.unique dst) at hit refl)
          (λ d ne.
            find?-modify_miss (matches d) t.entries i (λ _. no_route) at (ground arith) refl))
]

purge-Allowed : (t : RouteTable) → IsValid t → Allowed (view t) purges (view (remove_inactive t).0)
unfolding remove_inactive
purge-Allowed t v =
    rw (remove_inactive, v.is_attached)
      (purged (λ d.
        find?-update_where (matches d) is_inactive (λ _. no_route) t.entries (λ x h. refl)
        ∙ find?-unless (matches d) is_inactive t.entries (v.unique d)))

step-IsValid : (t : RouteTable) (c : Call) → IsValid t → IsValid (step t c)
unfolding step
step-IsValid t (upserts dst hop status many required now) v =
    upsert-IsValid dst hop status many required now v
step-IsValid t (removes dst) v = remove-IsValid dst v
step-IsValid t purges v = remove_inactive-IsValid v

step-Allowed : (t : RouteTable) (c : Call) → IsValid t → Allowed (view t) c (view (step t c))
unfolding step
step-Allowed t (upserts dst hop status many required now) v =
    upsert-Allowed t dst hop status many required now v
step-Allowed t (removes dst) v = remove-Allowed t dst v
step-Allowed t purges v = purge-Allowed t v

run-Allowed :
    (t : RouteTable) (cs : List Call) → IsValid t → AllowedRun (view t) cs (view (run t cs))
unfolding run
run-Allowed t [] v = stay
run-Allowed t (c ∷ cs) v = go (step-Allowed t c v) (run-Allowed (step t c) cs (step-IsValid t c v))

-- After `begin` with at least one slot, any sequence of calls does to the routes what the partial map
-- allows: an upsert binds its destination and forgets at most one other, a removal forgets its
-- destination and no other, and a purge forgets exactly the routes that are not active.
pub route_run-Allowed :
    (capacity : ℕ) (cs : List Call)
    → 0 < capacity
    → AllowedRun (view (begin capacity)) cs (view (run (begin capacity) cs))
route_run-Allowed capacity cs h = run-Allowed (begin capacity) cs (begin-IsValid capacity h)
