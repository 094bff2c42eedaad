-- ===== src/ApsFragment.antt =====
-- src/ZigbeeApsFragment.h: the frames that carry a long APS payload in blocks, the sender that splits
-- it and the receiver that puts it together. A method that changes its object returns the new one.
pub mod Frame
pub mod Blocks
pub mod Receive
pub mod Reassembly
pub mod Send
pub mod Transfer
mod Tests
use Prim.Native.Nat.{bit_and, bit_or}
use arduino_nrf_zigbee.Prelude.{
  ℕ, ◌+◌, ◌-◌, ◌*◌, ◌/◌, ◌^◌, Bool, true, false, not, ◌&&◌, ◌||◌, Option, none, some, List, [], ◌∷◌,
  ◌++◌, if◌then◌else◌, ltb, leb, ◌==◌, is_some, take, drop, replicate, set, get_or, u8, u16,
}
use mathlib.Core.Option
use arduino_nrf_zigbee.Bytes.{
  Built, refused, byte_at, advance, read_le16_at, write_le16, write_at, has_bit, bytes_of,
}

-- `payload` points into the parsed frame.
pub record ApsFragmentInfo : Type 0 where
  pub valid : Bool
  pub frame_type : ℕ
  pub delivery_mode : ℕ
  pub ack_request : Bool
  pub dst_endpoint : ℕ
  pub cluster_id : ℕ
  pub profile_id : ℕ
  pub src_endpoint : ℕ
  pub counter : ℕ
  pub first_block : Bool
  pub block_number : ℕ
  pub payload : Option (List ℕ)
  pub payload_len : ℕ

abbrev pub no_fragment : ApsFragmentInfo
no_fragment = record {
  valid = false;
  frame_type = 0;
  delivery_mode = 0;
  ack_request = false;
  dst_endpoint = 0;
  cluster_id = 0;
  profile_id = 0;
  src_endpoint = 0;
  counter = 0;
  first_block = false;
  block_number = 0;
  payload = none;
  payload_len = 0;
}

abbrev pub header_len : ℕ
header_len = 10

abbrev pub ext_fcf_first : ℕ
ext_fcf_first = 0x01

abbrev pub ext_fcf_subsequent : ℕ
ext_fcf_subsequent = 0x02

abbrev pub fcf_ext_header_bit : ℕ
fcf_ext_header_bit = 0x80

pub build_fragment : Bool → ℕ → ℕ → ℕ → ℕ → ℕ → ℕ → Bool → ℕ → Option (List ℕ) → ℕ → Bool → Built
build_fragment out out_max dst_endpoint cluster_id profile_id src_endpoint counter first_block
      block_number block block_len ack_request =
    if not out || (ltb 0 block_len && not (is_some block))
    then refused
    else if ltb out_max (header_len + block_len)
    then refused
    else record {
      size = u8 (header_len + block_len);
      written =
          (if ack_request then bit_or fcf_ext_header_bit (2 ^ 6) else fcf_ext_header_bit)
          ∷ dst_endpoint
          ∷ (write_le16 cluster_id
              ++ (write_le16 profile_id
                  ++ (src_endpoint
                      ∷ counter
                      ∷ (if first_block then ext_fcf_first else ext_fcf_subsequent)
                      ∷ block_number
                      ∷ take block_len (bytes_of block))));
    }

pub parse_fragment : Option (List ℕ) → ℕ → ApsFragmentInfo × Bool
parse_fragment none len = (no_fragment, false)
parse_fragment (some apdu) len =
    let fcf = byte_at apdu 0 in
    if ltb len header_len
    then (no_fragment, false)
    else if not (has_bit fcf fcf_ext_header_bit)
    then (no_fragment, false)
    else if not (u8 (bit_and fcf 0x03) == 0)
    then (no_fragment, false)
    else (
      record {
        valid = true;
        frame_type = 0;
        delivery_mode = u8 (bit_and (fcf / 2 ^ 2) 0x03);
        ack_request = has_bit fcf (2 ^ 6);
        dst_endpoint = byte_at apdu 1;
        cluster_id = read_le16_at apdu 2;
        profile_id = read_le16_at apdu 4;
        src_endpoint = byte_at apdu 6;
        counter = byte_at apdu 7;
        first_block = bit_and (byte_at apdu 8) 0x03 == ext_fcf_first;
        block_number = byte_at apdu 9;
        payload = some (advance header_len apdu);
        payload_len = u8 (len - header_len);
      },
      true,
    )

abbrev pub max_blocks : ℕ
max_blocks = 16

-- `buffer` is the array of `buf_max` bytes; `asdu_len` is `length_`.
pub record Reassembler : Type 0 where
  pub buffer : Option (List ℕ)
  pub buf_max : ℕ
  pub asdu_len : ℕ
  pub total_blocks : ℕ
  pub received : ℕ
  pub counter : ℕ
  pub have_counter : Bool
  pub block_size : ℕ
  pub got : List Bool

pub reset : Reassembler → Reassembler
reset r = record r {
  asdu_len = 0;
  total_blocks = 0;
  received = 0;
  have_counter = false;
  got = replicate max_blocks false;
}

pub begin_reassembly : Reassembler → Option (List ℕ) → ℕ → ℕ → Reassembler
begin_reassembly r buffer buf_max block_size =
    record (reset (record r { buffer = buffer; buf_max = buf_max })) { block_size = block_size }

-- if (!got_[index]) { got_[index] = true; ++received_; }
abbrev pub mark_got : ℕ → Reassembler → Reassembler
mark_got index r =
    if get_or r.got index false
    then r
    else record r { got = set r.got index true; received = u8 (r.received + 1) }

pub store_block : Reassembler → ℕ → List ℕ → ℕ → Reassembler
store_block r index block len =
    let offset = u16 (index * r.block_size) in
    if leb max_blocks index
    then r
    else if ltb r.buf_max (offset + len)
    then r
    else mark_got index (record r {
      buffer = Option.map (write_at offset (take len block)) r.buffer;
      asdu_len = if ltb r.asdu_len (offset + len) then u16 (offset + len) else r.asdu_len;
    })

pub complete : Reassembler → Bool
complete r = ltb 0 r.total_blocks && leb r.total_blocks r.received

-- A new counter starts a new ASDU.
abbrev pub expecting : ℕ → Reassembler → Reassembler
expecting counter r =
    if not r.have_counter || not (counter == r.counter)
    then record (reset r) { counter = counter; have_counter = true }
    else r

pub add_block : Reassembler → ApsFragmentInfo → Reassembler × Bool
add_block r f =
    let r1 = expecting f.counter r in
    let r2 =
      (if f.first_block
        then store_block (record r1 { total_blocks = f.block_number }) 0 (bytes_of f.payload)
            f.payload_len
        else store_block r1 f.block_number (bytes_of f.payload) f.payload_len) in
    if not (is_some r.buffer) || not f.valid then (r, false) else (r2, complete r2)

pub record Fragmenter : Type 0 where
  pub payload : Option (List ℕ)
  pub payload_len : ℕ
  pub block_size : ℕ
  pub dst_endpoint : ℕ
  pub cluster_id : ℕ
  pub profile_id : ℕ
  pub src_endpoint : ℕ
  pub counter : ℕ
  pub index : ℕ
  pub total : ℕ

-- A block size of 0 is 1.
abbrev pub effective : ℕ → ℕ
effective block_size = if block_size == 0 then 1 else block_size

abbrev pub block_total : ℕ → ℕ → ℕ
block_total payload_len block_size =
    let n = u8 ((payload_len + block_size - 1) / block_size) in if n == 0 then 1 else n

pub begin_fragments : Option (List ℕ) → ℕ → ℕ → ℕ → ℕ → ℕ → ℕ → ℕ → Fragmenter
begin_fragments payload payload_len block_size dst_endpoint cluster_id profile_id src_endpoint
      counter =
    record {
      payload = payload;
      payload_len = payload_len;
      block_size = effective block_size;
      dst_endpoint = dst_endpoint;
      cluster_id = cluster_id;
      profile_id = profile_id;
      src_endpoint = src_endpoint;
      counter = counter;
      index = 0;
      total = block_total payload_len (effective block_size);
    }

pub done : Fragmenter → Bool
done f = leb f.total f.index

-- `offset` stays at or below `payloadLen_` while blocks are left.
pub next_fragment : Fragmenter → Bool → ℕ → Bool → Fragmenter × Built
next_fragment f out out_max ack_request =
    let offset = u16 (f.index * f.block_size) in
    let left = f.payload_len - offset in
    let block_len = u8 (if ltb left f.block_size then left else f.block_size) in
    let first = (f.index == 0) in
    let b =
      build_fragment out out_max f.dst_endpoint f.cluster_id f.profile_id f.src_endpoint f.counter
        first (if first then f.total else f.index) (Option.map (advance offset) f.payload) block_len
        ack_request in
    if done f || not out
    then (f, refused)
    else if ltb 0 b.size
    then (record f { index = u8 (f.index + 1) }, b)
    else (f, b)
