-- ===== src/Routing/Tests.antt =====
-- The theorems on route discovery, at a router that has recorded one discovery.
use arduino_nrf_zigbee.Prelude.{
  ◌≡◌, refl, ◌⊎◌, ◌≤◌, ◌+◌, true, false, not, some, ◌&&◌, ◌==◌, arith, u8, if◌then◌else◌, ◌%◌, ◌^◌,
  [], ◌∷◌,
}
use arduino_nrf_zigbee.Nwk.RouteCommands.{
  NwkRouteRequestCommand, NwkRouteReplyCommand, no_route_request, no_route_reply,
}
use arduino_nrf_zigbee.RouteTable.{route_active, RouteTable, discovery_underway, upsert, no_route}
use arduino_nrf_zigbee.Routing.{
  Routing, no_discovery, start, recorded, handle_route_request, handle_route_reply, next_hop_for,
  attach_route_table,
}
use arduino_nrf_zigbee.Routing.Discovery.{IsValid, lookup, improves, handle_route_request_lem}
use arduino_nrf_zigbee.RouteTable.Unique.{upsert-IsValid}
use arduino_nrf_zigbee.Routing.Copies.{Arrival, passed, budget, passed_bounded}
use arduino_nrf_zigbee.Routing.Runs.{Event, run, routing_run-IsValid}
use arduino_nrf_zigbee.Routing.Relay.{request-reply_relay}
use arduino_nrf_zigbee.RouteTable
use arduino_nrf_zigbee.RouteTable.Unique

abbrev routes : RouteTable
routes = record { attached = true; entries = no_route ∷ no_route ∷ [] }

routes-IsValid : RouteTable.Unique.IsValid routes
routes-IsValid = record { is_attached = refl; nonempty = omega arith; unique = λ d. ground arith }

-- It has recorded request 4 of node 0x1111, which came from node 0x2222 at cost 9.
abbrev node : Routing
node = record {
  routes = some routes;
  discoveries = recorded 4 0x1111 0x2222 9 100 ∷ no_discovery ∷ [];
  request_id = 0;
}

node-IsValid : IsValid node
node-IsValid = record {
  nonempty = omega arith;
  unique = λ i o. ground arith;
  table = routes-IsValid;
}

abbrev request : NwkRouteRequestCommand
request = record no_route_request {
  valid = true;
  route_request_id = 4;
  destination = 0x3333;
  path_cost = 2;
}

abbrev reply : NwkRouteReplyCommand
reply = record no_route_reply {
  valid = true;
  route_request_id = 4;
  originator = 0x1111;
  responder = 0x3333;
  path_cost = 1;
}

abbrev copy : Arrival
copy = record { previous_hop = 0x4444; command = request; link_cost = 3; now = 200 }

handle_route_request_lem_example :
    let cost = (request.path_cost + 3) % 256 in
    let (s', decision) = handle_route_request node 0x5555 true 0x4444 0x1111 request 3 200 in
    ((improves (lookup node request.route_request_id 0x1111) cost ≡ false)
      × (s' ≡ node)
      × (decision ≡ record {
        duplicate = true;
        reply_as_destination = false;
        rebroadcast = false;
        reply_to = 0x4444;
        path_cost = 0;
      }))
    ⊎ ((improves (lookup node request.route_request_id 0x1111) cost ≡ true)
        × (lookup s' request.route_request_id 0x1111
            ≡ some (record {
              used = true;
              request_id = request.route_request_id;
              originator = 0x1111;
              previous_hop = 0x4444;
              forward_cost = cost;
              expires_ms = (200 + 10000) % 2 ^ 32;
            }))
        × (decision ≡ record {
          duplicate = false;
          reply_as_destination = request.destination == 0x5555;
          rebroadcast = true && not (request.destination == 0x5555);
          reply_to = 0x4444;
          path_cost = if true && not (request.destination == 0x5555) then cost else 0;
        }))
handle_route_request_lem_example =
    handle_route_request_lem node 0x5555 true 0x4444 0x1111 request 3 200 node-IsValid refl

passed_bounded_example :
    passed node 0x5555 true 4 0x1111 (copy ∷ copy ∷ []) ≤ budget (lookup node 4 0x1111)
passed_bounded_example = passed_bounded node 0x5555 true 4 0x1111 (copy ∷ copy ∷ []) node-IsValid

request-reply_relay_example :
    let (s', sent) = handle_route_request node 0x5555 true 0x4444 0x1111 request 3 200 in
    let (s'', back) = handle_route_reply s' 0x5555 0x6666 reply 1 300 in
    (sent ≡ record {
      duplicate = false;
      reply_as_destination = false;
      rebroadcast = true;
      reply_to = 0x4444;
      path_cost = u8 (request.path_cost + 3);
    })
    × (next_hop_for s' 0x1111 ≡ 0x4444)
    × (back ≡ record {
      route_installed = false;
      forward = true;
      forward_to = 0x4444;
      path_cost = u8 (reply.path_cost + 1);
    })
    × (next_hop_for s'' reply.responder ≡ 0x6666)
request-reply_relay_example =
    request-reply_relay node routes 0x5555 0x4444 0x6666 0x1111 request reply 3 1 200 300
      node-IsValid refl refl refl refl refl refl refl

routing_run-IsValid_example : IsValid (
    run 0x5555 true
      (attach_route_table start routes)
      (Event.request 0x4444 0x1111 request 3 200 ∷ Event.tick 300 ∷ []))
routing_run-IsValid_example =
    routing_run-IsValid 0x5555 true routes
      (Event.request 0x4444 0x1111 request 3 200 ∷ Event.tick 300 ∷ []) routes-IsValid
