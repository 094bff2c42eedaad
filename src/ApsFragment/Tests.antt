-- ===== src/ApsFragment/Tests.antt =====
-- The theorems on APS fragmentation, at short blocks.
use arduino_nrf_zigbee.Prelude.{
  ℕ, ◌≡◌, true, false, List, [], ◌∷◌, arith, length, take, some, ◌⊎◌, map, none,
}
use arduino_nrf_zigbee.Bytes.{bytes_of}
use arduino_nrf_zigbee.ApsFragment.{
  Reassembler, begin_fragments, block_total, begin_reassembly, complete,
}
use arduino_nrf_zigbee.ApsFragment.Reassembly.{receive, all_arrived}
use arduino_nrf_zigbee.ApsFragment.Transfer.{parsed, send, pick, asdu_transfer}

abbrev asdu : List ℕ
asdu = 1 ∷ 33 ∷ 2 ∷ []

abbrev buffer : List ℕ
buffer = 0 ∷ 0 ∷ 0 ∷ 0 ∷ []

-- A receiver that has put an ASDU together before.
abbrev used : Reassembler
used = record {
  buffer = none;
  buf_max = 0;
  asdu_len = 5;
  total_blocks = 1;
  received = 1;
  counter = 9;
  have_counter = true;
  block_size = 1;
  got = true ∷ [];
}

asdu_transfer_example :
    let n = block_total (length asdu) 2 in
    let f = begin_fragments (some asdu) (length asdu) 2 1 6 0x104 2 9 in
    let frames = map parsed (send 3 f 100 true) in
    let r' = receive (begin_reassembly used (some buffer) 4 2) (pick frames (1 ∷ 0 ∷ 1 ∷ [])) in
    ((all_arrived n (1 ∷ 0 ∷ 1 ∷ []) ≡ true)
      × (complete r' ≡ true)
      × (r'.asdu_len ≡ length asdu)
      × (take r'.asdu_len (bytes_of r'.buffer) ≡ asdu))
    ⊎ ((all_arrived n (1 ∷ 0 ∷ 1 ∷ []) ≡ false) × (complete r' ≡ false))
asdu_transfer_example =
    asdu_transfer asdu 2 100 1 6 0x104 2 9 true 3 (1 ∷ 0 ∷ 1 ∷ []) used buffer 4 (omega arith)
      (omega arith) (omega arith) (omega arith) (omega arith) (omega arith) (omega arith)
      (omega arith, (omega arith, (omega arith, omega arith))) (omega arith) (omega arith)
      (omega arith)
