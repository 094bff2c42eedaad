-- ===== src/Routing/Table.antt =====
-- ZigbeeRouting of src/ZigbeeRouting.cpp: its writes to the route table, and nextHopFor after them.
use arduino_nrf_zigbee.Prelude.{
  ℕ, ◌≡◌, refl, ◌∙◌, inl, inr, ◌≤◌, false, not, Option, none, some, ◌==◌, if◌then◌else◌, arith,
  get_or-eq, Option-cases,
}
use mathlib.Core.Option
use arduino_nrf_zigbee.Slots.{find_index?}
use arduino_nrf_zigbee.Slots.Find.{find_index?-some, find_index?-none}
use arduino_nrf_zigbee.Slots.Target.{find?-target}
use arduino_nrf_zigbee.RouteTable.{
  ZigbeeRoute, RouteTable, no_route, matches, is_free, route, route_active, upsert,
}
use arduino_nrf_zigbee.RouteTable.Unique.{IsValid, find-attached, upsert_lem, upsert-IsValid}
use arduino_nrf_zigbee.RouteTable.Refine.{view}
use arduino_nrf_zigbee.Routing.{Routing, no_next_hop, next_hop_for, with_route}

-- The attached table is valid, if there is one.
abbrev pub TableValid : Option RouteTable → Type 0
TableValid none = 0 ≤ 0
TableValid (some rt) = IsValid rt

abbrev pub hop_of : Option ZigbeeRoute → ℕ
hop_of none = no_next_hop
hop_of (some r) = if not (r.status == route_active) then no_next_hop else r.next_hop

pub next_hop-view :
    (s : Routing) (rt : RouteTable) (d : ℕ)
    → s.routes ≡ some rt
    → IsValid rt
    → next_hop_for s d ≡ hop_of (view rt d)
unfolding next_hop_for
next_hop-view s rt d e v = elim (Option-cases (find_index? (matches d) rt.entries)) [
  | inl n ↦
      rw (e, next_hop_for, find-attached rt d v, n, find_index?-none (matches d) rt.entries n) refl
  | inr (i, f) ↦
      let (x, at, _, found) = find_index?-some (matches d) rt.entries i f in
      rw (e, next_hop_for, find-attached rt d v, f, found, get_or-eq rt.entries i no_route at) refl
]

pub upsert-view :
    (rt : RouteTable) (dst hop status now : ℕ)
    → IsValid rt
    → view (upsert rt dst hop status false false now).0 dst
      ≡ some (route dst hop status false false now)
upsert-view rt dst hop status now v =
    let (i, x, e, at, target) = upsert_lem rt dst hop status false false now v in
    let new = route dst hop status false false now in
    rw e (
      find?-target is_free (matches dst) rt.entries i new x at target (v.unique dst) (ground arith))

-- The routes that the table holds for a destination that was just reached.
pub next_hop-with_route :
    (s : Routing) (rt : RouteTable) (dst hop now : ℕ)
    → s.routes ≡ some rt
    → IsValid rt
    → next_hop_for (with_route s dst hop route_active now) dst ≡ hop
next_hop-with_route s rt dst hop now e v =
    let after = (upsert rt dst hop route_active false false now).0 in
    next_hop-view (with_route s dst hop route_active now) after dst (rw e refl)
      (upsert-IsValid dst hop route_active false false now v)
    ∙ rw (upsert-view rt dst hop route_active now v) refl

map-TableValid :
    (o : Option RouteTable) (dst hop status now : ℕ)
    → TableValid o
    → TableValid (Option.map (λ rt. (upsert rt dst hop status false false now).0) o)
map-TableValid none dst hop status now v = v
map-TableValid (some rt) dst hop status now v = upsert-IsValid dst hop status false false now v

pub with_route-TableValid :
    (s : Routing) (dst hop status now : ℕ)
    → TableValid s.routes
    → TableValid (with_route s dst hop status now).routes
with_route-TableValid s dst hop status now v = map-TableValid s.routes dst hop status now v
