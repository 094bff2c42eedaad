-- ===== src/ApsFragment/Receive.antt =====
-- ZigbeeApsReassembler of src/ZigbeeApsFragment.h: what it holds after each block of one ASDU.
use arduino_nrf_zigbee.Prelude.{
  ℕ, suc, ◌≡◌, refl, sym, ap, subst, ◌∙◌, ◌+◌, ◌-◌, ◌*◌, ◌<◌, ◌≤◌, Bool, true, false, ◌||◌, ◌&&◌,
  List, arith, if◌then◌else◌, ltb, leb, ◌==◌, length, take, drop, set, get_or, some, min,
  length-take, length-drop, inl, inr, ◌⊎◌, Bool-cases, u8, u16, length-set, take-length,
}
use arduino_nrf_zigbee.Bytes.{write_at}
use arduino_nrf_zigbee.Slots.{count}
use arduino_nrf_zigbee.Slots.Count.{count-le-length}
use arduino_nrf_zigbee.ApsFragment.{ApsFragmentInfo, Reassembler, max_blocks, mark_got, store_block}
use arduino_nrf_zigbee.ApsFragment.Blocks.{
  get_or-take, get_or-drop, get_or-write_at, get_or-write_at_other, length-write_at, had,
  get_or-set_bool, count-set_bool,
}

-- Block `i` of an ASDU in blocks of `size` bytes.
abbrev pub block : List ℕ → ℕ → ℕ → List ℕ
block asdu size i = take size (drop (i * size) asdu)

-- What the fragment of block `i` of `n` parses as; `h` has the rest of its header.
abbrev pub fragment : ApsFragmentInfo → List ℕ → ℕ → ℕ → ℕ → ApsFragmentInfo
fragment h asdu size n i = record h {
  valid = true;
  first_block = i == 0;
  block_number = if i == 0 then n else i;
  payload = some (block asdu size i);
  payload_len = length (block asdu size i);
}

-- `n` blocks of `size` bytes carry the ASDU, and the receiver has room for it.
pub record Fits (asdu : List ℕ) (size n buf_max : ℕ) : Type 0 where
  pub some_blocks : 0 < n
  pub few_blocks : n ≤ max_blocks
  pub starts : (i : ℕ) → i < n → i * size ≤ length asdu
  pub whole : (i : ℕ) → suc i < n → i * size + size ≤ length asdu
  pub ends : (i : ℕ) → suc i ≡ n → length asdu ≤ i * size + size
  pub room : length asdu ≤ buf_max
  pub word : buf_max < 65536

-- A receiver that expects the blocks of the ASDU with counter `c`.
abbrev pub expects : ℕ → ℕ → ℕ → List ℕ → ℕ → ℕ → List Bool → Reassembler
expects buf_max size c buf len total got = record {
  buffer = some buf;
  buf_max = buf_max;
  asdu_len = len;
  total_blocks = total;
  received = count had got;
  counter = c;
  have_counter = true;
  block_size = size;
  got = got;
}

-- The blocks that `got` marks are in the buffer.
pub record Holds (asdu : List ℕ) (size n buf_max : ℕ) (buf : List ℕ) (len total : ℕ)
    (got : List Bool) : Type 0 where
  pub space : buf_max ≤ length buf
  pub slots : length got ≡ max_blocks
  pub announced : total ≡ (if get_or got 0 false then n else 0)
  pub within : (i : ℕ) → n ≤ i → get_or got i false ≡ false
  pub bytes :
      (i j : ℕ)
      → get_or got i false ≡ true
      → i * size ≤ j
      → j < i * size + size
      → j < length asdu
      → get_or buf j 0 ≡ get_or asdu j 0
  pub len_le : len ≤ length asdu
  pub len_last : (i : ℕ) → suc i ≡ n → get_or got i false ≡ true → len ≡ length asdu

abbrev pub marked : List Bool → ℕ → List Bool
marked got i = if get_or got i false then got else set got i true

length-marked : (got : List Bool) (i : ℕ) → length (marked got i) ≡ length got
length-marked got i = elim (Bool-cases (get_or got i false)) [
  | inl e ↦ rw e refl
  | inr e ↦ rw e (length-set got i true)
]

pub marked_at :
    (got : List Bool) (i j : ℕ)
    → i < length got
    → get_or (marked got i) j false ≡ (i == j) || get_or got j false
marked_at got i j h = elim (Bool-cases (get_or got i false)) [
  | inr e ↦ rw e (get_or-set_bool got i j h)
  | inl e ↦ rw e (elim (Bool-cases (i == j)) [
    | inr other ↦ rw other refl
    | inl same ↦
        let at : i ≡ j = ground arith in rw same (sym (ap (λ k. get_or got k false) at) ∙ e)
  ])
]

one_more :
    (got : List Bool) (i : ℕ)
    → length got ≡ max_blocks
    → i < length got
    → get_or got i false ≡ false
    → u8 (count had got + 1) ≡ count had (set got i true)
one_more got i slots h e =
    let few = count-le-length had got in omega (arith, count-set_bool got i h e)

-- The end of block `i`.
abbrev pub block_end : List ℕ → ℕ → ℕ → ℕ
block_end asdu size i = i * size + length (block asdu size i)

length-block :
    (asdu : List ℕ) (size i : ℕ) → length (block asdu size i) ≡ min size (length asdu - i * size)
length-block asdu size i =
    length-take size (drop (i * size) asdu) ∙ ap (min size) (length-drop (i * size) asdu)

block_end_le :
    {n buf_max : ℕ} (asdu : List ℕ) (size i : ℕ)
    → Fits asdu size n buf_max
    → i < n
    → block_end asdu size i ≤ length asdu
block_end_le asdu size i fits h = omega (arith, length-block asdu size i, fits.starts i h)

block_end_last :
    {n buf_max : ℕ} (asdu : List ℕ) (size i : ℕ)
    → Fits asdu size n buf_max
    → suc i ≡ n
    → block_end asdu size i ≡ length asdu
block_end_last asdu size i fits h =
    omega (arith, length-block asdu size i, fits.starts i (omega arith), fits.ends i h)

-- The buffer once block `i` is copied.
abbrev pub copied : List ℕ → List ℕ → ℕ → ℕ → List ℕ
copied buf asdu size i = write_at (i * size) (block asdu size i) buf

abbrev pub extended : ℕ → ℕ → ℕ
extended len end = if ltb len end then end else len

mark_got_lem :
    (buf_max size c : ℕ) (buf : List ℕ) (len total : ℕ) (got : List Bool) (i : ℕ)
    → length got ≡ max_blocks
    → i < max_blocks
    → mark_got i (expects buf_max size c buf len total got)
      ≡ expects buf_max size c buf len total (marked got i)
mark_got_lem buf_max size c buf len total got i slots h = elim (Bool-cases (get_or got i false)) [
  | inl e ↦ rw e refl
  | inr e ↦ rw (e, one_more got i slots (omega arith) e) refl
]

pub store_block_lem :
    {n buf_max : ℕ} (c : ℕ) (buf asdu : List ℕ) (size i len total : ℕ) (got : List Bool)
    → Fits asdu size n buf_max
    → length got ≡ max_blocks
    → i < n
    → store_block
        (expects buf_max size c buf len total got)
        i
        (block asdu size i)
        (length (block asdu size i))
      ≡ expects buf_max size c
          (copied buf asdu size i)
          (extended len (block_end asdu size i))
          total
          (marked got i)
unfolding store_block
store_block_lem {n} {buf_max} c buf asdu size i len total got fits slots h =
    let le = block_end_le asdu size i fits h in
    let few = fits.few_blocks in
    let room = fits.room in
    let word = fits.word in
    let at : u16 (i * size) ≡ i * size = omega arith in
    let index_ok : leb max_blocks i ≡ false = ground arith in
    let end_ok : ltb buf_max (i * size + length (block asdu size i)) ≡ false = ground arith in
    let end_word : u16 (i * size + length (block asdu size i)) ≡ block_end asdu size i =
      omega arith in
    rw (store_block, at, index_ok, end_ok, end_word, take-length (block asdu size i))
      (mark_got_lem buf_max size c (copied buf asdu size i) (extended len (block_end asdu size i))
        total got i slots (omega arith))

-- The bytes of block `k`, if it is marked, after block `i` is in.
copied_bytes :
    {n buf_max : ℕ} {buf : List ℕ} {len total : ℕ} {got : List Bool} (asdu : List ℕ)
    (size i k j : ℕ)
    → Fits asdu size n buf_max
    → Holds asdu size n buf_max buf len total got
    → i < n
    → (i == k) || get_or got k false ≡ true
    → k * size ≤ j
    → j < k * size + size
    → j < length asdu
    → get_or (copied buf asdu size i) j 0 ≡ get_or asdu j 0
copied_bytes {n} {buf_max} {buf} {len} {total} {got} asdu size i k j fits held h had_k lo hi short =
    let le = block_end_le asdu size i fits h in
    let room : block_end asdu size i ≤ length buf = omega (arith, le, fits.room, held.space) in
    let n_block = length-block asdu size i in
    elim (Bool-cases (leb (i * size) j && ltb j (block_end asdu size i))) [
      | inl inside ↦
          let m : ℕ = j - i * size in
          let at : j ≡ i * size + m = ground arith in
          let small : m < length (block asdu size i) = ground arith in
          let size_ok : m < size = omega arith in
          ap (λ l. get_or (copied buf asdu size i) l 0) at
          ∙ get_or-write_at (i * size) (block asdu size i) buf m small (omega arith)
          ∙ get_or-take size m (drop (i * size) asdu) size_ok
          ∙ get_or-drop (i * size) m asdu
          ∙ ap (λ l. get_or asdu l 0) (sym at)
      | inr outside ↦
          let apart : (j < i * size) ⊎ (block_end asdu size i ≤ j) = ground arith in
          get_or-write_at_other (i * size) (block asdu size i) buf j room apart
          ∙ held.bytes k j
              (elim (Bool-cases (i == k)) [
                | inr other ↦ rw other at had_k
                | inl same ↦
                    let e : i ≡ k = ground arith in
                    let lo_i : i * size ≤ j = subst (λ l. l * size ≤ j) (sym e) lo in
                    let hi_i : j < i * size + size = subst (λ l. j < l * size + size) (sym e) hi in
                    absurd (omega arith)
              ])
              lo hi short
    ]

announced_step :
    (n total total' : ℕ) (got0 first : Bool)
    → total ≡ (if got0 then n else 0)
    → total' ≡ (if first then n else total)
    → total' ≡ (if first || got0 then n else 0)
announced_step n total total' got0 true h t = t
announced_step n total total' got0 false h t = t ∙ h

-- What the receiver holds once block `i` is in.
pub add-Holds :
    {n buf_max : ℕ} {buf : List ℕ} {len total total' : ℕ} {got : List Bool} (asdu : List ℕ)
    (size i : ℕ)
    → Fits asdu size n buf_max
    → Holds asdu size n buf_max buf len total got
    → i < n
    → total' ≡ (if i == 0 then n else total)
    → Holds asdu size n buf_max
        (copied buf asdu size i)
        (extended len (block_end asdu size i))
        total'
        (marked got i)
add-Holds {n} {buf_max} {buf} {len} {total} {total'} {got} asdu size i fits held h t =
    let le = block_end_le asdu size i fits h in
    let few = fits.few_blocks in
    let at : (j : ℕ) → get_or (marked got i) j false ≡ (i == j) || get_or got j false =
      (λ j. marked_at got i j (omega (arith, held.slots))) in
    record {
      space = omega (
        arith,
        length-write_at (i * size) (block asdu size i) buf
            (omega (arith, le, fits.room, held.space)),
        held.space,
      );
      slots = length-marked got i ∙ held.slots;
      announced =
          let new = at 0 in
          let old = held.announced in
          announced_step n total total' (get_or got 0 false) (i == 0) old t
          ∙ ap (λ b. if b then n else 0) (sym new);
      within = λ j k. let old = held.within j k in let new = at j in ground arith;
      bytes = λ k j had_k lo hi short.
          copied_bytes asdu size i k j fits held h (sym (at k) ∙ had_k) lo hi short;
      len_le = ground (arith, held.len_le, le);
      len_last = λ k e marked_k. elim (Bool-cases (i == k)) [
        | inl same ↦
            let at_end = block_end_last asdu size i fits (ground arith) in
            ground (arith, at_end, held.len_le)
        | inr other ↦
            let old = held.len_last k e (rw other at (sym (at k) ∙ marked_k)) in
            ground (arith, old, le)
      ];
    }
