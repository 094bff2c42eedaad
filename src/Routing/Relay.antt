-- ===== src/Routing/Relay.antt =====
-- ZigbeeRouting of src/ZigbeeRouting.cpp: a router that relays a route request and, later, the reply.
use arduino_nrf_zigbee.Prelude.{
  ℕ, ◌≡◌, refl, ◌∙◌, inl, inr, ◌+◌, true, false, some, ◌==◌, arith, get_or-eq, Option-cases, u8,
}
use arduino_nrf_zigbee.Slots.{find_index?, modify}
use arduino_nrf_zigbee.Slots.Find.{find_index?-some, find_index?-none}
use arduino_nrf_zigbee.Nwk.RouteCommands.{NwkRouteRequestCommand, NwkRouteReplyCommand}
use arduino_nrf_zigbee.RouteTable.{RouteTable, route_active, discovery_underway, upsert}
use arduino_nrf_zigbee.RouteTable
use arduino_nrf_zigbee.RouteTable.Unique
use arduino_nrf_zigbee.RouteTable.Unique.{upsert-IsValid}
use arduino_nrf_zigbee.Routing.{
  Routing, ZigbeeRouteDiscoveryEntry, no_discovery, is_discovery, find_discovery, recorded,
  answered, accept_request, handle_route_request, handle_route_reply, with_route, next_hop_for,
}
use arduino_nrf_zigbee.Routing.Table.{next_hop-with_route}
use arduino_nrf_zigbee.Routing.Discovery.{
  IsValid, lookup, improves, is_foreign, foreign→ok, accepted_lem, accept-IsValid,
  accepted_decision,
}

-- A reply that the node forwards towards the originator, by the discovery that it recorded.
forwarded_lem :
    (s : Routing) (self hop : ℕ) (rrep : NwkRouteReplyCommand) (link now : ℕ)
    {d : ZigbeeRouteDiscoveryEntry}
    → rrep.valid ≡ true
    → (rrep.originator == self) ≡ false
    → lookup s rrep.route_request_id rrep.originator ≡ some d
    → handle_route_reply s self hop rrep link now ≡ (
      with_route s rrep.responder hop route_active now,
      record {
        route_installed = false;
        forward = true;
        forward_to = d.previous_hop;
        path_cost = u8 (rrep.path_cost + link);
      },
    )
unfolding handle_route_reply find_discovery
forwarded_lem s self hop rrep link now {d} ok other held =
    let p = is_discovery rrep.route_request_id rrep.originator in
    elim (Option-cases (find_index? p s.discoveries)) [
      | inl e ↦ absurd (cc (find_index?-none p s.discoveries e))
      | inr (i, e) ↦
          let (x, at, _, f) = find_index?-some p s.discoveries i e in
          let same : x ≡ d = cc in
          rw (handle_route_reply, ok, other, e, get_or-eq s.discoveries i no_discovery at, same)
            refl
    ]

attached_table :
    (s : Routing) (rt : RouteTable) → s.routes ≡ some rt → IsValid s → RouteTable.Unique.IsValid rt
attached_table s rt attached v = rw attached at v.table

-- What a router has once it has accepted a request for another node.
request_relay :
    (s : Routing) (rt : RouteTable) (self prev orig : ℕ) (rreq : NwkRouteRequestCommand)
    (link now : ℕ)
    → IsValid s
    → s.routes ≡ some rt
    → is_foreign rreq orig self ≡ true
    → improves (lookup s rreq.route_request_id orig) (u8 (rreq.path_cost + link)) ≡ true
    → let s' = (handle_route_request s self true prev orig rreq link now).0 in
      let cost = u8 (rreq.path_cost + link) in
      ((handle_route_request s self true prev orig rreq link now).1
        ≡ answered (rreq.destination == self) true prev cost)
      × (lookup s' rreq.route_request_id orig
          ≡ some (recorded rreq.route_request_id orig prev cost now))
      × (next_hop_for s' orig ≡ prev)
      × (s'.routes ≡ some (upsert rt orig prev route_active false false now).0)
unfolding accept_request
request_relay s rt self prev orig rreq link now v attached h better =
    let cost = u8 (rreq.path_cost + link) in
    let (i, x, e, at, why) =
      accepted_lem s self true prev orig rreq link now v (foreign→ok rreq orig self h) better in
    let reached : Routing = record s {
      discoveries = modify s.discoveries i (λ _. recorded rreq.route_request_id orig prev cost now);
    } in
    (
      rw e (accepted_decision s self true prev orig rreq cost now i),
      rw e (accept-IsValid s i self true prev orig rreq cost now v at why).1,
      rw e (next_hop-with_route reached rt orig prev now attached (attached_table s rt attached v)),
      rw (e, attached) refl,
    )

-- A router that hears the first copy of a route request for another node, or a better one, with a valid
-- route table attached, sends it on with the cost up to itself, and its route to the originator is then
-- by the neighbor that it heard it from. When it next hears a reply of that discovery, it forwards the
-- reply to the neighbor that it heard the request from, with the cost up to itself, and its route to the
-- responder is then by the neighbor that it heard the reply from. (Whether a full table keeps the route
-- to the originator through the reply is not stated.)
pub request-reply_relay :
    (s : Routing) (rt : RouteTable) (self_short previous_hop next_hop originator : ℕ)
    (rreq : NwkRouteRequestCommand) (rrep : NwkRouteReplyCommand)
    (link_cost back_cost now later : ℕ)
    → IsValid s
    → s.routes ≡ some rt
    → is_foreign rreq originator self_short ≡ true
    → (rreq.destination == self_short) ≡ false
    → improves (lookup s rreq.route_request_id originator) (u8 (rreq.path_cost + link_cost)) ≡ true
    → rrep.valid ≡ true
    → rrep.route_request_id ≡ rreq.route_request_id
    → rrep.originator ≡ originator
    → let (s', sent) =
        handle_route_request s self_short true previous_hop originator rreq link_cost now in
      let (s'', back) = handle_route_reply s' self_short next_hop rrep back_cost later in
      (sent ≡ record {
        duplicate = false;
        reply_as_destination = false;
        rebroadcast = true;
        reply_to = previous_hop;
        path_cost = u8 (rreq.path_cost + link_cost);
      })
      × (next_hop_for s' originator ≡ previous_hop)
      × (back ≡ record {
        route_installed = false;
        forward = true;
        forward_to = previous_hop;
        path_cost = u8 (rrep.path_cost + back_cost);
      })
      × (next_hop_for s'' rrep.responder ≡ next_hop)
request-reply_relay s rt self prev hop orig rreq rrep link back now later v attached h other better
      ok same_id same_orig =
    let s' = (handle_route_request s self true prev orig rreq link now).0 in
    let (sent, held, home, routes) =
      request_relay s rt self prev orig rreq link now v attached h better in
    let back_home : (rrep.originator == self) ≡ false = ground arith in
    let forwarded =
      forwarded_lem s' self hop rrep back later
        {d = recorded rreq.route_request_id orig prev (u8 (rreq.path_cost + link)) now} ok back_home
        (rw (same_id, same_orig) held) in
    (
      sent ∙ rw other refl,
      home,
      rw forwarded refl,
      rw forwarded (
          next_hop-with_route s' (upsert rt orig prev route_active false false now).0 rrep.responder
            hop later routes
            (upsert-IsValid orig prev route_active false false now
              (attached_table s rt attached v))),
    )
