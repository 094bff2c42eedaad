-- ===== src/ApsFragment/Send.antt =====
-- ZigbeeApsFragmenter of src/ZigbeeApsFragment.h: the fragments that it makes of an ASDU.
use arduino_nrf_zigbee.Prelude.{
  ℕ, zero, suc, ◌≡◌, refl, sym, ap, subst, ◌∙◌, ◌+◌, ◌-◌, ◌*◌, ◌/◌, ◌<◌, ◌≤◌, Bool, true, false,
  List, [], ◌∷◌, arith, if◌then◌else◌, ltb, leb, ◌==◌, length, take, drop, some, inl, inr, ◌⊎◌,
  Bool-cases, u8, u16, length-take, take-length, length-drop, IsU16,
}
use native.Mathlib.Nat.{div-add-mod, mod-lt, mul-le-mul_right, lt_of_mul-lt-mul_right}
use arduino_nrf_zigbee.Bytes.{Built}
use arduino_nrf_zigbee.ApsFragment.{
  ApsFragmentInfo, no_fragment, Fragmenter, max_blocks, build_fragment, parse_fragment,
  begin_fragments, next_fragment, done, block_total,
}
use arduino_nrf_zigbee.ApsFragment.Frame.{built_fragment, parse-fragment_bytes, fragment_bytes}
use arduino_nrf_zigbee.ApsFragment.Receive.{block, fragment, Fits}

-- (len + size - 1) / size is at least and at most what is needed.
ceil_bounds :
    (len size : ℕ)
    → 0 < size
    → let q = (len + size - 1) / size in (len ≤ q * size) × (q * size < len + size)
ceil_bounds len size h =
    let d = div-add-mod (len + size - 1) size in
    let m = mod-lt (len + size - 1) h in (omega arith, omega arith)

-- What the number of blocks satisfies.
total_cases :
    (len size : ℕ)
    → 0 < size
    → len ≤ max_blocks * size
    → ((len ≡ 0) × (block_total len size ≡ 1))
      ⊎ ((0 < block_total len size)
          × (block_total len size ≤ max_blocks)
          × (len ≤ block_total len size * size)
          × (block_total len size * size < len + size))
total_cases len size h small =
    let q : ℕ = (len + size - 1) / size in
    let (lo, hi) = ceil_bounds len size h in
    let few : q < 17 = lt_of_mul-lt-mul_right size (omega arith) in
    let word : u8 q ≡ q = omega arith in
    elim (Bool-cases (q == 0)) [
      | inl is_none ↦
          let z : q ≡ 0 = ground arith in
          inl (
            subst (λ k. len ≤ k * size → len ≡ 0) (sym z) (λ l. omega arith) lo,
            rw (word, is_none) refl,
          )
      | inr has_some ↦
          let positive : 0 < q = ground (arith, has_some) in
          let le : q ≤ max_blocks = omega arith in inr (rw (word, has_some) (positive, le, lo, hi))
    ]

-- The blocks that a fragmenter counts carry the ASDU.
pub begin-Fits :
    (asdu : List ℕ) (size buf_max : ℕ)
    → 0 < size
    → length asdu ≤ max_blocks * size
    → length asdu ≤ buf_max
    → buf_max < 65536
    → Fits asdu size (block_total (length asdu) size) buf_max
begin-Fits asdu size buf_max h small room word = elim (total_cases (length asdu) size h small) [
  | inl (empty, one) ↦ rw one (record {
    some_blocks = omega arith;
    few_blocks = omega arith;
    starts = λ i k. let z : i ≡ 0 = omega arith in rw z (omega arith);
    whole = λ i k. absurd (omega arith);
    ends = λ i e. omega arith;
    room = room;
    word = word;
  })
  | inr (positive, few, lo, hi) ↦ record {
    some_blocks = positive;
    few_blocks = few;
    starts = λ i k. let m = mul-le-mul_right {m = suc i} size k in omega arith;
    whole = λ i k. let m = mul-le-mul_right {m = suc (suc i)} size k in omega arith;
    ends = λ i e. let l = subst (λ n. length asdu ≤ n * size) (sym e) lo in omega arith;
    room = room;
    word = word;
  }
]

-- What every fragment of an ASDU parses as, but for its block.
abbrev pub header : ℕ → ℕ → ℕ → ℕ → ℕ → Bool → ApsFragmentInfo
header dst cluster profile src counter ack = record no_fragment {
  valid = true;
  dst_endpoint = dst;
  cluster_id = cluster;
  profile_id = profile;
  src_endpoint = src;
  counter = counter;
  ack_request = ack;
}

take-length-take : (n : ℕ) (xs : List ℕ) → take (length (take n xs)) xs ≡ take n xs
take-length-take zero xs = refl
take-length-take (suc n) [] = refl
take-length-take (suc n) (x ∷ xs) = ap (◌∷◌ x) (take-length-take n xs)

-- The frame with the first bytes of what is left of an ASDU.
built_part :
    (out_max dst cluster profile src counter : ℕ) (first : Bool) (number n : ℕ) (rest : List ℕ)
    (ack : Bool)
    → 10 + length (take n rest) ≤ out_max
    → out_max ≤ 255
    → build_fragment true out_max dst cluster profile src counter first number
        (some rest)
        (length (take n rest))
        ack
      ≡ record {
        size = 10 + length (take n rest);
        written = fragment_bytes dst cluster profile src counter first number (take n rest) ack;
      }
unfolding build_fragment
built_part out_max dst cluster profile src counter first number n rest ack room byte =
    same
    ∙ built_fragment out_max dst cluster profile src counter first number (take n rest) ack room
        byte
  where
    same :
        build_fragment true out_max dst cluster profile src counter first number
          (some rest)
          (length (take n rest))
          ack
        ≡ build_fragment true out_max dst cluster profile src counter first number
            (some (take n rest))
            (length (take n rest))
            ack
    same = rw (build_fragment, take-length-take n rest, take-length (take n rest)) refl

-- The fragmenter of an ASDU once `i` fragments are out.
abbrev pub at_block : Fragmenter → ℕ → Fragmenter
at_block f i = record f { index = i }

module _ (asdu : List ℕ) (size out_max dst cluster profile src counter : ℕ) (ack : Bool)
    (positive : 0 < size) (small : length asdu ≤ max_blocks * size) (word : length asdu < 65536)
    (room : 10 + size ≤ out_max) (byte : out_max ≤ 255) (c : IsU16 cluster)
    (p : IsU16 profile) where
  abbrev pub begun : Fragmenter
  begun = begin_fragments (some asdu) (length asdu) size dst cluster profile src counter

  abbrev pub total : ℕ
  total = block_total (length asdu) size

  abbrev pub frame : ℕ → Built
  frame i = record {
    size = 10 + length (block asdu size i);
    written =
        fragment_bytes dst cluster profile src counter (i == 0) (if i == 0 then total else i)
          (block asdu size i) ack;
  }

  pub next_fragment-frame :
      (i : ℕ)
      → i < total
      → next_fragment (at_block begun i) true out_max ack ≡ (at_block begun (suc i), frame i)
  unfolding next_fragment begin_fragments done
  next_fragment-frame i k =
      let fits = begin-Fits asdu size 65535 positive small (omega arith) (omega arith) in
      let start = fits.starts i k in
      let few = fits.few_blocks in
      let size_ok : (size == 0) ≡ false = ground arith in
      let at : u16 (i * size) ≡ i * size = omega arith in
      let more : leb total i ≡ false = ground arith in
      let rest : List ℕ = drop (i * size) asdu in
      let left : ℕ = length asdu - i * size in
      let n : u8 (if ltb left size then left else size) ≡ length (take size rest) =
        ground (arith, length-take size rest, length-drop (i * size) asdu) in
      let built =
        built_part out_max dst cluster profile src counter (i == 0) (if i == 0 then total else i)
          size rest ack (omega (arith, length-take size rest)) byte in
      let next : u8 (i + 1) ≡ suc i = omega arith in
      let has_size : ltb 0 (10 + length (block asdu size i)) ≡ true = ground arith in
      rw (next_fragment, begin_fragments, size_ok, at, more, n, built, has_size, next) refl

  pub parse-frame :
      (i : ℕ)
      → parse_fragment (some (frame i).written) (frame i).size
        ≡ (fragment (header dst cluster profile src counter ack) asdu size total i, true)
  parse-frame i =
      parse-fragment_bytes dst cluster profile src counter (i == 0) (if i == 0 then total else i)
        (block asdu size i) ack (omega (arith, length-take size (drop (i * size) asdu))) c p

  pub done-begun : (i : ℕ) → done (at_block begun i) ≡ leb total i
  unfolding begin_fragments done
  done-begun i =
      let size_ok : (size == 0) ≡ false = ground arith in rw (begin_fragments, size_ok) refl
