-- ===== src/Routing/Discovery.antt =====
-- ZigbeeRouting::handleRouteRequest of src/ZigbeeRouting.cpp: the discoveries that a node records.
use arduino_nrf_zigbee.Prelude.{
  ℕ, ◌≡◌, refl, inl, inr, ◌⊎◌, ◌<◌, ◌≤◌, ◌+◌, Bool, true, false, not, Option, none, some, ◌&&◌,
  ◌||◌, ◌==◌, arith, get_elem?, get_or-eq, set, length, length-set, Option-cases, Bool-cases, ltb,
  leb, u8, ◌∙◌, if◌then◌else◌, ◌%◌, ◌^◌,
}
use arduino_nrf_zigbee.Slots.{find_index?, find?, count}
use arduino_nrf_zigbee.Slots.Find.{find_index?-some, find_index?-none}
use arduino_nrf_zigbee.Slots.Count.{count_of_find?-none}
use arduino_nrf_zigbee.Slots.Spare.{spare?-any}
use arduino_nrf_zigbee.Slots.Place.{modify-eq-set, count-place, find?-place}
use arduino_nrf_zigbee.Nwk.RouteCommands.{NwkRouteRequestCommand}
use arduino_nrf_zigbee.RouteTable.{route_active}
use arduino_nrf_zigbee.Routing.{
  Routing, ZigbeeRouteDiscoveryEntry, no_discovery, start, is_discovery, find_discovery,
  alloc_discovery, is_unused, expires_before, recorded, dropped_request, answered, accept_request,
  handle_route_request,
}
use arduino_nrf_zigbee.Routing.Table.{TableValid, with_route-TableValid}

pub record IsValid (s : Routing) : Type 0 where
  pub nonempty : 0 < length s.discoveries
  pub unique : (id originator : ℕ) → count (is_discovery id originator) s.discoveries ≤ 1
  pub table : TableValid s.routes

pub start-IsValid : IsValid start
unfolding start
start-IsValid = record {
  nonempty = omega arith;
  unique = λ id originator. omega arith;
  table = omega arith;
}

-- The discovery that a node has recorded.
abbrev pub lookup : Routing → ℕ → ℕ → Option ZigbeeRouteDiscoveryEntry
lookup s id originator = find? (is_discovery id originator) s.discoveries

-- The request is the first of its discovery, or came at less cost than the one recorded.
abbrev pub improves : Option ZigbeeRouteDiscoveryEntry → ℕ → Bool
improves none cost = true
improves (some d) cost = ltb cost d.forward_cost

pub accept-IsValid :
    (s : Routing) (i self : ℕ) (router : Bool) (prev orig : ℕ) (rreq : NwkRouteRequestCommand)
    (cost now : ℕ) {x : ZigbeeRouteDiscoveryEntry}
    → IsValid s
    → get_elem? s.discoveries i ≡ some x
    → (is_discovery rreq.route_request_id orig x ≡ true)
      ⊎ (count (is_discovery rreq.route_request_id orig) s.discoveries ≡ 0)
    → IsValid (accept_request s self router prev orig rreq cost now i).0
      × (lookup
            (accept_request s self router prev orig rreq cost now i).0
            rreq.route_request_id
            orig
          ≡ some (recorded rreq.route_request_id orig prev cost now))
unfolding accept_request
accept-IsValid s i self router prev orig rreq cost now {x} v at why =
    let new = recorded rreq.route_request_id orig prev cost now in
    rw (modify-eq-set s.discoveries i (λ _. new) at) (
      record {
        nonempty = omega (arith, v.nonempty, length-set s.discoveries i new);
        unique = λ id o.
            count-place (is_discovery id o) s.discoveries i new x at (v.unique id o) (λ hit miss.
              let same_id : id ≡ rreq.route_request_id = ground arith in
              let same_orig : o ≡ orig = ground arith in
              elim why [ inl held ↦ ground arith | inr unknown ↦ rw (same_id, same_orig) unknown ]);
        table =
            with_route-TableValid (record s { discoveries = set s.discoveries i new }) orig prev
              route_active now v.table;
      },
      find?-place (is_discovery rreq.route_request_id orig) s.discoveries i new x at
          (v.unique rreq.route_request_id orig) (ground arith)
          (λ miss. elim why [ inl hit ↦ cc | inr unknown ↦ unknown ]),
    )

-- What a request that is not a duplicate does.
pub accepted_lem :
    (s : Routing) (self : ℕ) (router : Bool) (prev orig : ℕ) (rreq : NwkRouteRequestCommand)
    (link now : ℕ)
    → IsValid s
    → (not rreq.valid || orig == self) ≡ false
    → improves (lookup s rreq.route_request_id orig) (u8 (rreq.path_cost + link)) ≡ true
    → (i : ℕ) × (x : ZigbeeRouteDiscoveryEntry) × (handle_route_request s self router prev orig rreq
          link now
        ≡ accept_request s self router prev orig rreq (u8 (rreq.path_cost + link)) now i)
      × (get_elem? s.discoveries i ≡ some x)
      × ((is_discovery rreq.route_request_id orig x ≡ true)
          ⊎ (count (is_discovery rreq.route_request_id orig) s.discoveries ≡ 0))
unfolding handle_route_request find_discovery alloc_discovery
accepted_lem s self router prev orig rreq link now v ok better =
    elim (Option-cases (find_index? (is_discovery rreq.route_request_id orig) s.discoveries)) [
      | inr (i, e) ↦
          let (x, at, hit, f) =
            find_index?-some (is_discovery rreq.route_request_id orig) s.discoveries i e in
          let cheaper : leb x.forward_cost (u8 (rreq.path_cost + link)) ≡ false =
            ground (arith, rw f at better) in
          (
            i,
            x,
            rw (handle_route_request, ok, e, get_or-eq s.discoveries i no_discovery at, cheaper)
                refl,
            at,
            inl hit,
          )
      | inl e ↦
          let gone = find_index?-none (is_discovery rreq.route_request_id orig) s.discoveries e in
          let (i, x, a, at, why) =
            spare?-any is_unused (λ d. true) expires_before (λ x p. refl) s.discoveries
              v.nonempty in
          (
            i,
            x,
            rw (handle_route_request, ok, e, a) refl,
            at,
            inr (count_of_find?-none (is_discovery rreq.route_request_id orig) s.discoveries gone),
          )
    ]

dropped_lem :
    (s : Routing) (self : ℕ) (router : Bool) (prev orig : ℕ) (rreq : NwkRouteRequestCommand)
    (link now : ℕ)
    → (not rreq.valid || orig == self) ≡ false
    → improves (lookup s rreq.route_request_id orig) (u8 (rreq.path_cost + link)) ≡ false
    → handle_route_request s self router prev orig rreq link now ≡ (s, dropped_request prev)
unfolding handle_route_request find_discovery alloc_discovery
dropped_lem s self router prev orig rreq link now ok worse =
    elim (Option-cases (find_index? (is_discovery rreq.route_request_id orig) s.discoveries)) [
      | inr (i, e) ↦
          let (x, at, hit, f) =
            find_index?-some (is_discovery rreq.route_request_id orig) s.discoveries i e in
          let dearer : leb x.forward_cost (u8 (rreq.path_cost + link)) ≡ true =
            ground (arith, rw f at worse) in
          rw (handle_route_request, ok, e, get_or-eq s.discoveries i no_discovery at, dearer) refl
      | inl e ↦
          let gone = find_index?-none (is_discovery rreq.route_request_id orig) s.discoveries e in
          absurd (cc (rw gone at worse))
    ]

-- The node processes the request: it is valid, and it is not the node's own that comes back.
abbrev pub is_foreign : NwkRouteRequestCommand → ℕ → ℕ → Bool
is_foreign rreq orig self = rreq.valid && not (orig == self)

pub foreign→ok :
    (rreq : NwkRouteRequestCommand) (orig self : ℕ)
    → is_foreign rreq orig self ≡ true
    → (not rreq.valid || orig == self) ≡ false
foreign→ok rreq orig self h = ground arith

pub foreign_dropped :
    (s : Routing) (self : ℕ) (router : Bool) (prev orig : ℕ) (rreq : NwkRouteRequestCommand)
    (link now : ℕ)
    → is_foreign rreq orig self ≡ false
    → handle_route_request s self router prev orig rreq link now ≡ (s, dropped_request prev)
unfolding handle_route_request
foreign_dropped s self router prev orig rreq link now h =
    let own : (not rreq.valid || orig == self) ≡ true = ground arith in
    rw (handle_route_request, own) refl

pub accepted_decision :
    (s : Routing) (self : ℕ) (router : Bool) (prev orig : ℕ) (rreq : NwkRouteRequestCommand)
    (cost now i : ℕ)
    → (accept_request s self router prev orig rreq cost now i).1
      ≡ answered (rreq.destination == self) router prev cost
unfolding accept_request
accepted_decision s self router prev orig rreq cost now i = refl

pub request-IsValid :
    (s : Routing) (self : ℕ) (router : Bool) (prev orig : ℕ) (rreq : NwkRouteRequestCommand)
    (link now : ℕ)
    → IsValid s
    → IsValid (handle_route_request s self router prev orig rreq link now).0
request-IsValid s self router prev orig rreq link now v =
    elim (Bool-cases (is_foreign rreq orig self)) [
      | inr own ↦ rw (foreign_dropped s self router prev orig rreq link now own) v
      | inl h ↦
          elim (Bool-cases
            (improves (lookup s rreq.route_request_id orig) (u8 (rreq.path_cost + link)))) [
              | inr worse ↦
                  rw
                    (dropped_lem s self router prev orig rreq link now (foreign→ok rreq orig self h)
                      worse)
                    v
              | inl better ↦
                  let (i, x, e, at, why) =
                    accepted_lem s self router prev orig rreq link now v
                      (foreign→ok rreq orig self h) better in
                  rw e
                    (accept-IsValid s i self router prev orig rreq (u8 (rreq.path_cost + link)) now
                      v at why).0
            ]
    ]

answered_lem :
    (here router : Bool) (prev cost : ℕ)
    → answered here router prev cost ≡ record {
      duplicate = false;
      reply_as_destination = here;
      rebroadcast = router && not here;
      reply_to = prev;
      path_cost = if router && not here then cost else 0;
    }
answered_lem true true prev cost = refl
answered_lem true false prev cost = refl
answered_lem false true prev cost = refl
answered_lem false false prev cost = refl

-- A valid node adds the link cost to the path cost of a foreign request (modulo 256). It drops the
-- request as a duplicate, neither answers it nor sends it on, and stays as it was, exactly when it
-- has recorded the discovery at an equal or smaller cost. Otherwise it records the sender and the
-- cost for ten seconds; it answers exactly if it is the destination, and sends the request on, with
-- the cost up to itself, exactly if it is a router and not the destination.
pub handle_route_request_lem :
    (s : Routing) (self_short : ℕ) (is_router : Bool) (previous_hop originator : ℕ)
    (rreq : NwkRouteRequestCommand) (link_cost now : ℕ)
    → IsValid s
    → is_foreign rreq originator self_short ≡ true
    → let cost = (rreq.path_cost + link_cost) % 256 in
      let (s', decision) =
        handle_route_request s self_short is_router previous_hop originator rreq link_cost now in
      ((improves (lookup s rreq.route_request_id originator) cost ≡ false)
        × (s' ≡ s)
        × (decision ≡ record {
          duplicate = true;
          reply_as_destination = false;
          rebroadcast = false;
          reply_to = previous_hop;
          path_cost = 0;
        }))
      ⊎ ((improves (lookup s rreq.route_request_id originator) cost ≡ true)
          × (lookup s' rreq.route_request_id originator
              ≡ some (record {
                used = true;
                request_id = rreq.route_request_id;
                originator = originator;
                previous_hop = previous_hop;
                forward_cost = cost;
                expires_ms = (now + 10000) % 2 ^ 32;
              }))
          × (decision ≡ record {
            duplicate = false;
            reply_as_destination = rreq.destination == self_short;
            rebroadcast = is_router && not (rreq.destination == self_short);
            reply_to = previous_hop;
            path_cost = if is_router && not (rreq.destination == self_short) then cost else 0;
          }))
handle_route_request_lem s self router prev orig rreq link now v h =
    elim (Bool-cases
      (improves (lookup s rreq.route_request_id orig) (u8 (rreq.path_cost + link)))) [
        | inr worse ↦
            let e =
              dropped_lem s self router prev orig rreq link now (foreign→ok rreq orig self h)
                worse in
            inl (worse, rw e refl, rw e refl)
        | inl better ↦
            let (i, x, e, at, why) =
              accepted_lem s self router prev orig rreq link now v (foreign→ok rreq orig self h)
                better in
            let kept =
              (accept-IsValid s i self router prev orig rreq (u8 (rreq.path_cost + link)) now v at
                why).1 in
            inr (
              better,
              rw e kept,
              rw e (
                  accepted_decision s self router prev orig rreq (u8 (rreq.path_cost + link)) now i
                  ∙ answered_lem (rreq.destination == self) router prev
                      (u8 (rreq.path_cost + link))),
            )
      ]
