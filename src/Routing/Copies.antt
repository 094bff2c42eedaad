-- ===== src/Routing/Copies.antt =====
-- ZigbeeRouting::handleRouteRequest of src/ZigbeeRouting.cpp: the copies of one route request that reach a
-- node from its neighbors.
use arduino_nrf_zigbee.Prelude.{
  ℕ, ◌≡◌, inl, inr, ◌<◌, ◌≤◌, ◌+◌, Bool, true, not, Option, none, some, List, [], ◌∷◌, arith,
  Bool-cases, u8, to_nat,
}
use arduino_nrf_zigbee.Nwk.RouteCommands.{NwkRouteRequestCommand}
use arduino_nrf_zigbee.Routing.{
  Routing, ZigbeeRouteDiscoveryEntry, ZigbeeRreqDecision, handle_route_request,
}
use arduino_nrf_zigbee.Routing.Discovery.{
  IsValid, lookup, improves, is_foreign, foreign_dropped, handle_route_request_lem, request-IsValid,
}

-- A copy of a route request that a node hears.
pub record Arrival : Type 0 where
  pub previous_hop : ℕ
  pub command : NwkRouteRequestCommand
  pub link_cost : ℕ
  pub now : ℕ

-- The request of discovery `id` of `orig` that arrives by one hop.
pub hear : Routing → ℕ → Bool → ℕ → ℕ → Arrival → Routing × ZigbeeRreqDecision
hear s self router id orig a =
    handle_route_request s self router a.previous_hop orig
      (record a.command { route_request_id = id }) a.link_cost a.now

-- How many of the copies are not dropped.
pub passed : Routing → ℕ → Bool → ℕ → ℕ → List Arrival → ℕ
passed s self router id orig [] = 0
passed s self router id orig (a ∷ copies) =
    let (s', decision) = hear s self router id orig a in
    to_nat (not decision.duplicate) + passed s' self router id orig copies

-- The recorded cost, or the number of costs there are; it falls with each copy that is not dropped.
abbrev pub budget : Option ZigbeeRouteDiscoveryEntry → ℕ
budget none = 256
budget (some d) = d.forward_cost

improves-budget :
    (o : Option ZigbeeRouteDiscoveryEntry) (cost : ℕ)
    → cost < 256
    → improves o cost ≡ true
    → 1 + cost ≤ budget o
improves-budget none cost small h = omega arith
improves-budget (some d) cost small h = ground arith

hear-budget :
    (s : Routing) (self : ℕ) (router : Bool) (id orig : ℕ) (a : Arrival)
    → IsValid s
    → let (s', decision) = hear s self router id orig a in
      to_nat (not decision.duplicate) + budget (lookup s' id orig) ≤ budget (lookup s id orig)
unfolding hear
hear-budget s self router id orig a v =
    let rreq : NwkRouteRequestCommand = record a.command { route_request_id = id } in
    elim (Bool-cases (is_foreign rreq orig self)) [
      | inr own ↦
          rw (hear, foreign_dropped s self router a.previous_hop orig rreq a.link_cost a.now own)
            (omega arith)
      | inl h ↦
          elim (handle_route_request_lem s self router a.previous_hop orig rreq a.link_cost a.now v
            h) [
              | inl (worse, same, d) ↦ rw (hear, d, same) (omega arith)
              | inr (better, held, d) ↦
                  rw (hear, d, held)
                    (improves-budget (lookup s id orig) (u8 (a.command.path_cost + a.link_cost))
                      (omega arith) better)
            ]
    ]

-- Of the copies of one route request that a valid node hears one after the other, in whatever order and
-- at whatever cost they come, it drops all but at most 256, or all but at most as many as the cost of the
-- recorded discovery, when it had recorded one before.
pub passed_bounded :
    (s : Routing) (self : ℕ) (router : Bool) (id orig : ℕ) (copies : List Arrival)
    → IsValid s
    → passed s self router id orig copies ≤ budget (lookup s id orig)
unfolding passed hear
passed_bounded s self router id orig [] v = omega arith
passed_bounded s self router id orig (a ∷ copies) v =
    let (s', decision) = hear s self router id orig a in
    let ih = passed_bounded (hear s self router id orig a).0 self router id orig copies (
      request-IsValid s self router a.previous_hop orig (record a.command { route_request_id = id })
        a.link_cost a.now v) in
    omega (arith, ih, hear-budget s self router id orig a v)
