-- ===== src/ApsFragment/Transfer.antt =====
-- src/ZigbeeApsFragment.h from end to end: an ASDU that one node splits and another puts together.
use arduino_nrf_zigbee.Prelude.{
  ℕ, zero, suc, ◌≡◌, refl, ap, ◌∙◌, ◌+◌, ◌*◌, ◌<◌, ◌≤◌, Bool, true, false, List, [], ◌∷◌, arith,
  if◌then◌else◌, length, take, get_or, some, ◌⊎◌, map, IsU16,
}
use arduino_nrf_zigbee.Bytes.{Built, bytes_of}
use arduino_nrf_zigbee.ApsFragment.{
  ApsFragmentInfo, no_fragment, Fragmenter, Reassembler, max_blocks, parse_fragment,
  begin_fragments, next_fragment, done, block_total, begin_reassembly, complete,
}
use arduino_nrf_zigbee.ApsFragment.Receive.{fragment}
use arduino_nrf_zigbee.ApsFragment.Reassembly.{receive, all_arrived, Below, reassembly_complete}
use arduino_nrf_zigbee.ApsFragment.Send.{
  header, at_block, next_fragment-frame, parse-frame, begin-Fits, done-begun,
}

-- The frames that a fragmenter makes until it is done.
pub send : ℕ → Fragmenter → ℕ → Bool → List Built
send zero f out_max ack = []
send (suc fuel) f out_max ack =
    let (f', b) = next_fragment f true out_max ack in
    let rest = send fuel f' out_max ack in if done f then [] else b ∷ rest

abbrev pub parsed : Built → ApsFragmentInfo
parsed b = (parse_fragment (some b.written) b.size).0

-- The frames that arrive, by their numbers.
abbrev pub pick : List ApsFragmentInfo → List ℕ → List ApsFragmentInfo
pick frames order = map (λ i. get_or frames i no_fragment) order

-- Fragments `i`, `i + 1`, … of an ASDU.
fragments : ApsFragmentInfo → List ℕ → ℕ → ℕ → ℕ → ℕ → List ApsFragmentInfo
fragments h asdu size n i zero = []
fragments h asdu size n i (suc k) = fragment h asdu size n i ∷ fragments h asdu size n (suc i) k

get_or-fragments :
    (h : ApsFragmentInfo) (asdu : List ℕ) (size n i k j : ℕ)
    → j < k
    → get_or (fragments h asdu size n i k) j no_fragment ≡ fragment h asdu size n (i + j)
unfolding fragments
get_or-fragments h asdu size n i zero j l = absurd (omega arith)
get_or-fragments h asdu size n i (suc k) zero l = ap (fragment h asdu size n) (omega arith)
get_or-fragments h asdu size n i (suc k) (suc j) l =
    get_or-fragments h asdu size n (suc i) k j (omega arith)
    ∙ ap (fragment h asdu size n) (omega arith)

pick-fragments :
    (h : ApsFragmentInfo) (asdu : List ℕ) (size n : ℕ) (order : List ℕ)
    → Below n order
    → pick (fragments h asdu size n 0 n) order ≡ map (fragment h asdu size n) order
pick-fragments h asdu size n [] below = refl
pick-fragments h asdu size n (i ∷ order) (k, below) =
    ap (λ f. f ∷ pick (fragments h asdu size n 0 n) order)
      (get_or-fragments h asdu size n 0 n i k ∙ ap (fragment h asdu size n) (omega arith))
    ∙ ap (◌∷◌ (fragment h asdu size n i)) (pick-fragments h asdu size n order below)

module _ (asdu : List ℕ) (size out_max dst_endpoint cluster_id profile_id src_endpoint counter : ℕ)
    (ack_request : Bool) (positive : 0 < size) (small : length asdu ≤ max_blocks * size)
    (word : length asdu < 65536) (room : 10 + size ≤ out_max) (byte : out_max ≤ 255)
    (c : IsU16 cluster_id) (p : IsU16 profile_id) where
  abbrev h : ApsFragmentInfo
  h = header dst_endpoint cluster_id profile_id src_endpoint counter ack_request

  abbrev f : Fragmenter
  f =
      begin_fragments (some asdu) (length asdu) size dst_endpoint cluster_id profile_id src_endpoint
        counter

  abbrev n : ℕ
  n = block_total (length asdu) size

  send-fragments :
      (fuel i k : ℕ)
      → i + k ≡ n
      → k ≤ fuel
      → map parsed (send fuel (at_block f i) out_max ack_request) ≡ fragments h asdu size n i k
  unfolding send fragments done
  send-fragments zero i zero e l = refl
  send-fragments zero i (suc k) e l = absurd (omega arith)
  send-fragments (suc fuel) i zero e l =
      let over : done (at_block f i) ≡ true =
        done-begun asdu size out_max dst_endpoint cluster_id profile_id src_endpoint counter
          ack_request positive small word room byte c p i
        ∙ ground arith in
      rw (send, over) refl
  send-fragments (suc fuel) i (suc k) e l =
      let lt : i < n = omega arith in
      let more : done (at_block f i) ≡ false =
        done-begun asdu size out_max dst_endpoint cluster_id profile_id src_endpoint counter
          ack_request positive small word room byte c p i
        ∙ ground arith in
      let step =
        next_fragment-frame asdu size out_max dst_endpoint cluster_id profile_id src_endpoint
          counter ack_request positive small word room byte c p i lt in
      rw (send, more, step)
        (ap (λ g. g ∷ map parsed (send fuel (at_block f (suc i)) out_max ack_request))
            (ap (λ q. q.0)
              (parse-frame asdu size out_max dst_endpoint cluster_id profile_id src_endpoint counter
                ack_request positive small word room byte c p i))
          ∙ ap (◌∷◌ (fragment h asdu size n i))
              (send-fragments fuel (suc i) k (omega arith) (omega arith)))

-- An ASDU of at most 16 blocks, split into frames of at most 255 bytes that hold a whole block, and put
-- together from those frames by a receiver with room for it that knows the block size. Fuel for
-- as many frames as there are blocks is enough for the sender. Whatever the order in which the frames arrive and
-- whichever are lost or repeated, the receiver reports the ASDU complete exactly when each frame has
-- arrived, and then holds the ASDU byte for byte.
pub asdu_transfer :
    (asdu : List ℕ) (size out_max dst_endpoint cluster_id profile_id src_endpoint counter : ℕ)
    (ack_request : Bool) (fuel : ℕ) (order : List ℕ) (r : Reassembler) (buf : List ℕ) (buf_max : ℕ)
    → 0 < size
    → length asdu ≤ max_blocks * size
    → 10 + size ≤ out_max
    → out_max ≤ 255
    → IsU16 cluster_id
    → IsU16 profile_id
    → block_total (length asdu) size ≤ fuel
    → Below (block_total (length asdu) size) order
    → length asdu ≤ buf_max
    → buf_max < 65536
    → buf_max ≤ length buf
    → let n = block_total (length asdu) size in
      let f =
        begin_fragments
          (some asdu)
          (length asdu)
          size
          dst_endpoint
          cluster_id
          profile_id
          src_endpoint
          counter in
      let frames = map parsed (send fuel f out_max ack_request) in
      let r' = receive (begin_reassembly r (some buf) buf_max size) (pick frames order) in
      ((all_arrived n order ≡ true)
        × (complete r' ≡ true)
        × (r'.asdu_len ≡ length asdu)
        × (take r'.asdu_len (bytes_of r'.buffer) ≡ asdu))
      ⊎ ((all_arrived n order ≡ false) × (complete r' ≡ false))
unfolding begin_fragments
asdu_transfer asdu size out_max dst_endpoint cluster_id profile_id src_endpoint counter ack_request
      fuel order r buf buf_max positive small room byte c p l below fit word space =
    let n : ℕ = block_total (length asdu) size in
    let h : ApsFragmentInfo =
      header dst_endpoint cluster_id profile_id src_endpoint counter ack_request in
    let made =
      send-fragments asdu size out_max dst_endpoint cluster_id profile_id src_endpoint counter
        ack_request positive small (omega arith) room byte c p fuel 0 n (omega arith) l in
    rw (made, pick-fragments h asdu size n order below)
      (reassembly_complete r h asdu size n buf_max order buf
        (begin-Fits asdu size buf_max positive small fit word) space below)
