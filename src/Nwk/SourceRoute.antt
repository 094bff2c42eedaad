-- ===== src/Nwk/SourceRoute.antt =====
-- The relaying of a source-routed frame: getDataFrameRelay and sourceRouteAction of src/ZigbeeNwk.cpp.
use arduino_nrf_zigbee.Prelude.{
  ℕ, zero, suc, ◌≡◌, refl, ◌+◌, ◌*◌, ◌<◌, ◌≤◌, true, false, not, ◌||◌, Option, none, some, List, [],
  ◌∷◌, ◌++◌, if◌then◌else◌, ltb, leb, ◌==◌, is_some, u8, IsU16, length, inl, inr, Bool-cases,
  ltb→lt, get_or, get_elem?, drop, arith,
}
use arduino_nrf_zigbee.Bytes.{read_le16_at, bytes_of}
use arduino_nrf_zigbee.Bytes.RoundTrip.{le16}
use arduino_nrf_zigbee.Nwk.DataFrame.{NwkDataFrame, write_relays}

-- `none` is the return of false.
pub get_data_frame_relay : NwkDataFrame → ℕ → Option ℕ
get_data_frame_relay frame index =
    if not frame.valid
      || (not frame.source_route
          || (not (is_some frame.sr_relay_list) || leb frame.sr_relay_count index))
    then none
    else some (read_le16_at (bytes_of frame.sr_relay_list) (index * 2))

-- enum NwkSourceRouteAction, with the two out-parameters that a relay sets
pub data SourceRouteAction : Type 0 where
  deliver : SourceRouteAction
  relay : (next_hop out_relay_index : ℕ) → SourceRouteAction
  dropped : SourceRouteAction

pub source_route_action : NwkDataFrame → ℕ → SourceRouteAction
source_route_action frame self_short =
    let relays = bytes_of frame.sr_relay_list in
    let next_index = u8 (frame.sr_relay_index + 1) in
    if not frame.valid || not frame.source_route
    then dropped
    else if frame.dst_short == self_short
    then deliver
    else if not (is_some frame.sr_relay_list) || leb frame.sr_relay_count frame.sr_relay_index
    then dropped
    else if not (read_le16_at relays (frame.sr_relay_index * 2) == self_short)
    then dropped
    else relay
        (if ltb next_index frame.sr_relay_count
          then read_le16_at relays (next_index * 2)
          else frame.dst_short)
        next_index

-- Every address of the list is a 16-bit number.
abbrev pub AreU16 : List ℕ → Type 0
AreU16 [] = 0 ≤ 0
AreU16 (x ∷ xs) = IsU16 x × AreU16 xs

-- The destination is not one of the relays.
abbrev pub Avoids : ℕ → List ℕ → Type 0
Avoids dst [] = 0 ≤ 0
Avoids dst (x ∷ xs) = (dst == x ≡ false) × Avoids dst xs

-- How the way of a frame ends: a node delivers it, a node drops it, or the fuel runs out before.
pub data Ending : Type 0 where
  delivered lost on_the_way : Ending

-- The nodes that process a frame which starts at `self`, each sending it on as its sourceRouteAction
-- says, the one that delivers it included, and how its way ends.
pub travel : ℕ → NwkDataFrame → ℕ → List ℕ × Ending
travel zero frame self = ([], on_the_way)
travel (suc fuel) frame self = elim (source_route_action frame self) [
  | deliver ↦ (self ∷ [], delivered)
  | relay next_hop out_relay_index ↦
      let (nodes, ending) =
        travel fuel (record frame { sr_relay_index = out_relay_index }) next_hop in
      (self ∷ nodes, ending)
  | dropped ↦ ([], lost)
]

-- A frame that is to follow `relays` from index `i` on.
abbrev routed : ℕ → List ℕ → List ℕ → ℕ → NwkDataFrame → NwkDataFrame
routed dst relays rest i frame = record frame {
  valid = true;
  source_route = true;
  dst_short = dst;
  sr_relay_count = length relays;
  sr_relay_index = i;
  sr_relay_list = some (write_relays relays ++ rest);
}

pub read-write_relays :
    (relays rest : List ℕ) (i d : ℕ)
    → AreU16 relays
    → i < length relays
    → read_le16_at (write_relays relays ++ rest) (i * 2) ≡ get_or relays i d
read-write_relays [] rest i d u h = absurd (omega arith)
read-write_relays (x ∷ xs) rest zero d u h = le16 x u.0
read-write_relays (x ∷ xs) rest (suc i) d u h =
    let low : suc i * 2 ≡ suc (suc (i * 2)) = omega arith in
    let high : suc (suc (i * 2)) + 1 ≡ suc (suc (i * 2 + 1)) = omega arith in
    rw (low, high) (read-write_relays xs rest i d u.1 (omega arith))

-- The relay that stands at an index of a list, and none behind its end.
relays-get_elem? :
    (relays rest : List ℕ) (i : ℕ)
    → AreU16 relays
    → (if leb (length relays) i
        then none
        else some (read_le16_at (write_relays relays ++ rest) (i * 2)))
      ≡ get_elem? relays i
relays-get_elem? [] rest zero u = refl
relays-get_elem? [] rest (suc i) u = ground arith
relays-get_elem? (x ∷ xs) rest zero u = rw (le16 x u.0) (ground arith)
relays-get_elem? (x ∷ xs) rest (suc i) u =
    let low : suc i * 2 ≡ suc (suc (i * 2)) = omega arith in
    let high : suc (suc (i * 2)) + 1 ≡ suc (suc (i * 2 + 1)) = omega arith in
    let next : leb (suc (length xs)) (suc i) ≡ leb (length xs) i = ground arith in
    rw (low, high, next) (relays-get_elem? xs rest i u.1)

pub get_data_frame_relay-get_elem? :
    (relays rest : List ℕ) (frame : NwkDataFrame) (i : ℕ)
    → AreU16 relays
    → get_data_frame_relay
        (record frame {
          valid = true;
          source_route = true;
          sr_relay_count = length relays;
          sr_relay_list = some (write_relays relays ++ rest);
        })
        i
      ≡ get_elem? relays i
unfolding get_data_frame_relay
get_data_frame_relay-get_elem? relays rest frame i u = relays-get_elem? relays rest i u

Avoids-get_or :
    (dst : ℕ) (relays : List ℕ) (i : ℕ)
    → Avoids dst relays
    → i < length relays
    → dst == get_or relays i dst ≡ false
Avoids-get_or dst [] i a h = absurd (omega arith)
Avoids-get_or dst (x ∷ xs) zero a h = a.0
Avoids-get_or dst (x ∷ xs) (suc i) a h = Avoids-get_or dst xs i a.1 (omega arith)

-- What is left of the path at index `i`: the relay that stands there, and the rest.
drop-lt :
    (relays : List ℕ) (i d : ℕ)
    → i < length relays
    → drop i relays ≡ get_or relays i d ∷ drop (suc i) relays
drop-lt [] i d h = absurd (omega arith)
drop-lt (x ∷ xs) zero d h = refl
drop-lt (x ∷ xs) (suc i) d h = drop-lt xs i d (omega arith)

get_or-out : (relays : List ℕ) (i d : ℕ) → length relays ≤ i → get_or relays i d ≡ d
get_or-out [] i d h = refl
get_or-out (x ∷ xs) zero d h = absurd (omega arith)
get_or-out (x ∷ xs) (suc i) d h = get_or-out xs i d (omega arith)

drop-out : (relays : List ℕ) (i : ℕ) → length relays ≤ i → drop i relays ≡ []
drop-out [] zero h = refl
drop-out [] (suc i) h = refl
drop-out (x ∷ xs) zero h = absurd (omega arith)
drop-out (x ∷ xs) (suc i) h = drop-out xs i (omega arith)

-- The relay whose turn it is sends the frame to the node that is next on the path.
hop :
    (dst : ℕ) (relays rest : List ℕ) (i : ℕ) (frame : NwkDataFrame)
    → AreU16 relays
    → Avoids dst relays
    → length relays < 256
    → i < length relays
    → source_route_action (routed dst relays rest i frame) (get_or relays i dst)
      ≡ relay (get_or relays (suc i) dst) (suc i)
unfolding source_route_action
hop dst relays rest i frame u a small h =
    let here = read-write_relays relays rest i dst u h in
    let away = Avoids-get_or dst relays i a h in
    elim (Bool-cases (ltb (suc i) (length relays))) [
      | inl more ↦
          let there =
            read-write_relays relays rest (suc i) dst u (ltb→lt (suc i) (length relays) more) in
          let wrap : u8 (i + 1) ≡ suc i = omega arith in rw (wrap, here, there, away) (ground arith)
      | inr last ↦
          let wrap : u8 (i + 1) ≡ suc i = omega arith in
          rw (wrap, here, away, get_or-out relays (suc i) dst (ground (arith, last))) (ground arith)
    ]

-- The destination delivers the frame, whatever the index.
arrives :
    (dst : ℕ) (relays rest : List ℕ) (i : ℕ) (frame : NwkDataFrame)
    → source_route_action (routed dst relays rest i frame) dst ≡ deliver
unfolding source_route_action
arrives dst relays rest i frame = ground arith

travel-deliver :
    (n : ℕ) (frame : NwkDataFrame) (self : ℕ)
    → source_route_action frame self ≡ deliver
    → travel (suc n) frame self ≡ (self ∷ [], delivered)
unfolding travel
travel-deliver n frame self e = rw (e, travel) refl

travel-relay :
    (n : ℕ) (frame : NwkDataFrame) (self next i : ℕ) {nodes : List ℕ} {ending : Ending}
    → source_route_action frame self ≡ relay next i
    → travel n (record frame { sr_relay_index = i }) next ≡ (nodes, ending)
    → travel (suc n) frame self ≡ (self ∷ nodes, ending)
unfolding travel
travel-relay n frame self next i e rest = rw (e, travel, rest) refl

travel-from :
    (k fuel i dst : ℕ) (relays rest : List ℕ) (frame : NwkDataFrame)
    → AreU16 relays
    → Avoids dst relays
    → length relays < 256
    → i + k ≡ length relays
    → k < fuel
    → travel fuel (routed dst relays rest i frame) (get_or relays i dst)
      ≡ (drop i relays ++ dst ∷ [], delivered)
travel-from k zero i dst relays rest frame u a small e enough = absurd (omega arith)
travel-from zero (suc fuel) i dst relays rest frame u a small e enough =
    rw (get_or-out relays i dst (omega arith), drop-out relays i (omega arith))
      (travel-deliver fuel (routed dst relays rest i frame) dst (arrives dst relays rest i frame))
travel-from (suc k) (suc fuel) i dst relays rest frame u a small e enough =
    rw (drop-lt relays i dst (omega arith)) (
      travel-relay fuel (routed dst relays rest i frame) (get_or relays i dst)
        (get_or relays (suc i) dst) (suc i) (hop dst relays rest i frame u a small (omega arith))
        (travel-from k fuel (suc i) dst relays rest frame u a small (omega arith) (omega arith)))

-- A frame whose relay list is `relays`, at most 255 of them, sent to the first of them with index 0,
-- is processed by exactly these relays, in their order, and then by its destination, which delivers
-- it, if the addresses have 16 bits and the destination is not a relay itself; any fuel above the
-- number of relays is enough.
pub source_route_travel :
    (dst : ℕ) (relays rest : List ℕ) (frame : NwkDataFrame) (fuel : ℕ)
    → AreU16 relays
    → Avoids dst relays
    → length relays < 256
    → length relays < fuel
    → travel fuel
        (record frame {
          valid = true;
          source_route = true;
          dst_short = dst;
          sr_relay_count = length relays;
          sr_relay_index = 0;
          sr_relay_list = some (write_relays relays ++ rest);
        })
        (get_or relays 0 dst)
      ≡ (relays ++ dst ∷ [], delivered)
source_route_travel dst relays rest frame fuel u a small enough =
    travel-from (length relays) fuel 0 dst relays rest frame u a small (omega arith) enough
