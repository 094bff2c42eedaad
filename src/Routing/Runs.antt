-- ===== src/Routing/Runs.antt =====
-- ZigbeeRouting of src/ZigbeeRouting.cpp: what stays true over a run of its methods.
use arduino_nrf_zigbee.Prelude.{
  ℕ, ◌≡◌, refl, inl, inr, ◌⊎◌, ◌+◌, Bool, List, [], ◌∷◌, ◌==◌, arith, Option-cases, Bool-cases, u8,
}
use arduino_nrf_zigbee.Slots.Count.{count-update_where, length-update_where}
use arduino_nrf_zigbee.Nwk.RouteCommands.{NwkRouteRequestCommand, NwkRouteReplyCommand}
use arduino_nrf_zigbee.RouteTable.{RouteTable, route_active, discovery_underway, upsert}
use arduino_nrf_zigbee.RouteTable
use arduino_nrf_zigbee.RouteTable.Unique
use arduino_nrf_zigbee.RouteTable.Unique.{upsert-IsValid}
use arduino_nrf_zigbee.Routing.{
  Routing, attach_route_table, no_discovery, start, is_discovery, find_discovery, no_next_hop,
  handle_route_request, handle_route_reply, with_route, originate_discovery, expire, is_over,
}
use arduino_nrf_zigbee.Routing.Table.{with_route-TableValid}
use arduino_nrf_zigbee.Routing.Discovery.{IsValid, start-IsValid, request-IsValid}

-- A route that is written leaves the discoveries alone.
with_route-IsValid :
    (s : Routing) (dst hop status now : ℕ) → IsValid s → IsValid (with_route s dst hop status now)
with_route-IsValid s dst hop status now v = record {
  nonempty = v.nonempty;
  unique = v.unique;
  table = with_route-TableValid s dst hop status now v.table;
}

-- A reply changes nothing, or makes the responder reachable by the neighbor that sent it.
reply_cases :
    (s : Routing) (self hop : ℕ) (rrep : NwkRouteReplyCommand) (link now : ℕ)
    → ((handle_route_reply s self hop rrep link now).0 ≡ s)
      ⊎ ((handle_route_reply s self hop rrep link now).0
          ≡ with_route s rrep.responder hop route_active now)
unfolding handle_route_reply
reply_cases s self hop rrep link now = elim (Bool-cases rrep.valid) [
  | inr bad ↦ inl (rw (handle_route_reply, bad) refl)
  | inl ok ↦ elim (Bool-cases (rrep.originator == self)) [
    | inl own ↦ inr (rw (handle_route_reply, ok, own) refl)
    | inr other ↦ elim (Option-cases (find_discovery s rrep.route_request_id rrep.originator)) [
      | inl e ↦ inl (rw (handle_route_reply, ok, other, e) refl)
      | inr (i, e) ↦ inr (rw (handle_route_reply, ok, other, e) refl)
    ]
  ]
]

reply-IsValid :
    (s : Routing) (self hop : ℕ) (rrep : NwkRouteReplyCommand) (link now : ℕ)
    → IsValid s
    → IsValid (handle_route_reply s self hop rrep link now).0
reply-IsValid s self hop rrep link now v = elim (reply_cases s self hop rrep link now) [
  | inl same ↦ rw same v
  | inr reached ↦ rw reached (with_route-IsValid s rrep.responder hop route_active now v)
]

originate-IsValid :
    (s : Routing) (destination now : ℕ)
    → IsValid s
    → IsValid (originate_discovery s destination now).0
unfolding originate_discovery
originate-IsValid s destination now v =
    with_route-IsValid (record s { request_id = u8 (s.request_id + 1) }) destination no_next_hop
      discovery_underway now (record { nonempty = v.nonempty; unique = v.unique; table = v.table })

expire-IsValid : (s : Routing) (now : ℕ) → IsValid s → IsValid (expire s now)
unfolding expire
expire-IsValid s now v = record {
  nonempty =
      omega
        (arith, v.nonempty, length-update_where (is_over now) (λ d. no_discovery) s.discoveries);
  unique = λ id orig. omega (
    arith,
    count-update_where (is_discovery id orig) (is_over now) (λ d. no_discovery) s.discoveries
        (λ x h. refl),
    v.unique id orig,
  );
  table = v.table;
}

-- What reaches the routing of a node: a route request or reply, an application that wants a route, or
-- time.
pub data Event : Type 0 where
  request : ℕ → ℕ → NwkRouteRequestCommand → ℕ → ℕ → Event
  reply : ℕ → NwkRouteReplyCommand → ℕ → ℕ → Event
  originate : ℕ → ℕ → Event
  tick : ℕ → Event

pub step : ℕ → Bool → Routing → Event → Routing
step self router s (request prev orig rreq link now) =
    (handle_route_request s self router prev orig rreq link now).0
step self router s (reply hop rrep link now) = (handle_route_reply s self hop rrep link now).0
step self router s (originate destination now) = (originate_discovery s destination now).0
step self router s (tick now) = expire s now

pub run : ℕ → Bool → Routing → List Event → Routing
run self router s [] = s
run self router s (e ∷ events) = run self router (step self router s e) events

pub step-IsValid :
    (self : ℕ) (router : Bool) (s : Routing) (e : Event)
    → IsValid s
    → IsValid (step self router s e)
unfolding step
step-IsValid self router s (request prev orig rreq link now) v =
    request-IsValid s self router prev orig rreq link now v
step-IsValid self router s (reply hop rrep link now) v = reply-IsValid s self hop rrep link now v
step-IsValid self router s (originate destination now) v = originate-IsValid s destination now v
step-IsValid self router s (tick now) v = expire-IsValid s now v

run-IsValid :
    (self : ℕ) (router : Bool) (s : Routing) (events : List Event)
    → IsValid s
    → IsValid (run self router s events)
unfolding run
run-IsValid self router s [] v = v
run-IsValid self router s (e ∷ events) v =
    run-IsValid self router (step self router s e) events (step-IsValid self router s e v)

-- A node that starts with a valid route table attached never records the same discovery twice and keeps
-- its route table valid, whatever requests and replies it hears, routes it looks for and entries it
-- expires.
pub routing_run-IsValid :
    (self_short : ℕ) (is_router : Bool) (rt : RouteTable) (events : List Event)
    → RouteTable.Unique.IsValid rt
    → IsValid (run self_short is_router (attach_route_table start rt) events)
unfolding attach_route_table
routing_run-IsValid self router rt events v =
    run-IsValid self router (attach_route_table start rt) events
      (record { nonempty = start-IsValid.nonempty; unique = start-IsValid.unique; table = v })
