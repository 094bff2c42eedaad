-- ===== src/Routing.antt =====
-- ZigbeeRouting of src/ZigbeeRouting.h and src/ZigbeeRouting.cpp: what a node does with the route
-- requests and replies that it hears. The route table, which the class is attached to, is part of the
-- state; a method returns the new state beside its result.
pub mod Table
pub mod Discovery
pub mod Copies
pub mod Relay
pub mod Runs
mod Tests
use arduino_nrf_zigbee.Prelude.{
  ℕ, ◌+◌, Bool, true, false, not, ◌&&◌, ◌||◌, Option, none, some, List, if◌then◌else◌, ltb, leb,
  ◌==◌, replicate, get_or, u8, add32, before32,
}
use mathlib.Core.Option
use arduino_nrf_zigbee.Slots.{find_index?, spare?, modify, update_where}
use arduino_nrf_zigbee.RouteTable.{
  RouteTable, ZigbeeRoute, no_route, route_active, discovery_underway,
}
use arduino_nrf_zigbee.RouteTable
use arduino_nrf_zigbee.Nwk.RouteCommands.{NwkRouteRequestCommand, NwkRouteReplyCommand}

pub record ZigbeeRouteDiscoveryEntry : Type 0 where
  pub used : Bool
  pub request_id : ℕ
  pub originator : ℕ
  pub previous_hop : ℕ
  pub forward_cost : ℕ
  pub expires_ms : ℕ

abbrev pub no_discovery : ZigbeeRouteDiscoveryEntry
no_discovery = record {
  used = false;
  request_id = 0;
  originator = 0;
  previous_hop = 0;
  forward_cost = 0;
  expires_ms = 0;
}

pub record ZigbeeRreqDecision : Type 0 where
  pub duplicate : Bool
  pub reply_as_destination : Bool
  pub rebroadcast : Bool
  pub reply_to : ℕ
  pub path_cost : ℕ

pub record ZigbeeRrepDecision : Type 0 where
  pub route_installed : Bool
  pub forward : Bool
  pub forward_to : ℕ
  pub path_cost : ℕ

abbrev pub max_discoveries : ℕ
max_discoveries = 4

abbrev pub discovery_lifetime_ms : ℕ
discovery_lifetime_ms = 10000

abbrev pub no_next_hop : ℕ
no_next_hop = 0xFFFF

-- `routes` is null until attachRouteTable.
pub record Routing : Type 0 where
  pub routes : Option RouteTable
  pub discoveries : List ZigbeeRouteDiscoveryEntry
  pub request_id : ℕ

pub start : Routing
start = record {
  routes = none;
  discoveries = replicate max_discoveries no_discovery;
  request_id = 0;
}

pub attach_route_table : Routing → RouteTable → Routing
attach_route_table s routes = record s { routes = some routes }

abbrev pub is_discovery : ℕ → ℕ → ZigbeeRouteDiscoveryEntry → Bool
is_discovery request_id originator d =
    d.used && (d.request_id == request_id && d.originator == originator)

pub find_discovery : Routing → ℕ → ℕ → Option ℕ
find_discovery s request_id originator =
    find_index? (is_discovery request_id originator) s.discoveries

abbrev pub is_unused : ZigbeeRouteDiscoveryEntry → Bool
is_unused d = not d.used

-- By the stamps as plain numbers, also where the clock has wrapped between them.
abbrev pub expires_before : ZigbeeRouteDiscoveryEntry → ZigbeeRouteDiscoveryEntry → Bool
expires_before a b = ltb a.expires_ms b.expires_ms

-- The first unused entry, or else the one closest to expiry.
pub alloc_discovery : Routing → Option ℕ
alloc_discovery s = spare? is_unused (λ d. true) expires_before s.discoveries

-- if (routes_) routes_->upsert(...)
abbrev pub with_route : Routing → ℕ → ℕ → ℕ → ℕ → Routing
with_route s dst next_hop status now = record s {
  routes = Option.map (λ rt. (RouteTable.upsert rt dst next_hop status false false now).0) s.routes;
}

pub originate_discovery : Routing → ℕ → ℕ → Routing × ℕ
originate_discovery s destination now =
    let id = u8 (s.request_id + 1) in
    (with_route (record s { request_id = id }) destination no_next_hop discovery_underway now, id)

abbrev pub recorded : ℕ → ℕ → ℕ → ℕ → ℕ → ZigbeeRouteDiscoveryEntry
recorded request_id originator previous_hop cost now = record {
  used = true;
  request_id = request_id;
  originator = originator;
  previous_hop = previous_hop;
  forward_cost = cost;
  expires_ms = add32 now discovery_lifetime_ms;
}

abbrev pub dropped_request : ℕ → ZigbeeRreqDecision
dropped_request previous_hop = record {
  duplicate = true;
  reply_as_destination = false;
  rebroadcast = false;
  reply_to = previous_hop;
  path_cost = 0;
}

-- The decision on a request that is not a duplicate.
abbrev pub answered : Bool → Bool → ℕ → ℕ → ZigbeeRreqDecision
answered is_destination is_router previous_hop cost = record {
  duplicate = false;
  reply_as_destination = is_destination;
  rebroadcast = not is_destination && is_router;
  reply_to = previous_hop;
  path_cost = if not is_destination && is_router then cost else 0;
}

-- The rest of handleRouteRequest, with the entry `i` to write.
pub accept_request :
    Routing → ℕ → Bool → ℕ → ℕ → NwkRouteRequestCommand → ℕ → ℕ → ℕ → Routing × ZigbeeRreqDecision
accept_request s self_short is_router previous_hop originator rreq cost now i = (
  with_route
      (record s {
        discoveries =
            modify s.discoveries i
              (λ _. recorded rreq.route_request_id originator previous_hop cost now);
      })
      originator previous_hop route_active now,
  answered (rreq.destination == self_short) is_router previous_hop cost,
)

pub handle_route_request :
    Routing → ℕ → Bool → ℕ → ℕ → NwkRouteRequestCommand → ℕ → ℕ → Routing × ZigbeeRreqDecision
handle_route_request s self_short is_router previous_hop originator rreq link_cost now =
    let cost = u8 (rreq.path_cost + link_cost) in
    if not rreq.valid || originator == self_short
    then (s, dropped_request previous_hop)
    else (elim (find_discovery s rreq.route_request_id originator) [
      | some i ↦
          if leb (get_or s.discoveries i no_discovery).forward_cost cost
          then (s, dropped_request previous_hop)
          else accept_request s self_short is_router previous_hop originator rreq cost now i
      | none ↦ elim (alloc_discovery s) [
        | none ↦ (s, dropped_request previous_hop)
        | some i ↦ accept_request s self_short is_router previous_hop originator rreq cost now i
      ]
    ])

pub handle_route_reply :
    Routing → ℕ → ℕ → NwkRouteReplyCommand → ℕ → ℕ → Routing × ZigbeeRrepDecision
handle_route_reply s self_short previous_hop rrep link_cost now =
    let cost = u8 (rrep.path_cost + link_cost) in
    let reached = with_route s rrep.responder previous_hop route_active now in
    if not rrep.valid
    then (s, record { route_installed = false; forward = false; forward_to = 0; path_cost = 0 })
    else if rrep.originator == self_short
    then (
      reached,
      record { route_installed = true; forward = false; forward_to = 0; path_cost = cost },
    )
    else (elim (find_discovery s rrep.route_request_id rrep.originator) [
      | none ↦
          (s, record { route_installed = false; forward = false; forward_to = 0; path_cost = cost })
      | some i ↦ (
        reached,
        record {
          route_installed = false;
          forward = true;
          forward_to = (get_or s.discoveries i no_discovery).previous_hop;
          path_cost = cost;
        },
      )
    ])

-- The next hop of a route that `find` returned.
abbrev pub active_hop : RouteTable → ℕ → ℕ
active_hop rt i =
    let r = get_or rt.entries i no_route in
    if not (r.status == route_active) then no_next_hop else r.next_hop

pub next_hop_for : Routing → ℕ → ℕ
next_hop_for s destination = elim s.routes [
  | none ↦ no_next_hop
  | some rt ↦ elim (RouteTable.find rt destination) [
    | none ↦ no_next_hop
    | some i ↦ active_hop rt i
  ]
]

pub route_is_active : Routing → ℕ → Bool
route_is_active s destination = not (next_hop_for s destination == no_next_hop)

abbrev pub is_over : ℕ → ZigbeeRouteDiscoveryEntry → Bool
is_over now d = d.used && not (before32 now d.expires_ms)

pub expire : Routing → ℕ → Routing
expire s now = record s {
  discoveries = update_where (is_over now) (λ _. no_discovery) s.discoveries;
}
