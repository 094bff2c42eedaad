-- ===== src/ApsFragment/Reassembly.antt =====
-- ZigbeeApsReassembler of src/ZigbeeApsFragment.h: the ASDU that it puts together from the fragments
-- of one counter, in whatever order and however often they arrive.
use arduino_nrf_zigbee.Prelude.{
  ℕ, zero, suc, ◌≡◌, refl, sym, ap, ◌∙◌, ◌+◌, ◌-◌, ◌*◌, ◌<◌, ◌≤◌, Bool, true, false, ◌||◌, ◌&&◌,
  List, [], ◌∷◌, arith, if◌then◌else◌, leb, ◌==◌, ==_refl, length, take, get_or, some, replicate,
  inl, inr, ◌⊎◌, Bool-cases, map, is_some,
}
use arduino_nrf_zigbee.Bytes.{bytes_of}
use arduino_nrf_zigbee.Slots.{count}
use arduino_nrf_zigbee.ApsFragment.{
  ApsFragmentInfo, Reassembler, max_blocks, complete, expecting, add_block, reset, begin_reassembly,
  store_block,
}
use arduino_nrf_zigbee.ApsFragment.Blocks.{
  take-by_index, had, get_or-replicate, count-full, count-missing,
}
use arduino_nrf_zigbee.ApsFragment.Receive.{
  block, fragment, Fits, expects, Holds, marked, marked_at, block_end, copied, extended,
  store_block_lem, add-Holds,
}

-- What an attempt to add each fragment in turn leaves.
pub receive : Reassembler → List ApsFragmentInfo → Reassembler
receive r [] = r
receive r (f ∷ frames) = receive (add_block r f).0 frames

-- A block has arrived.
abbrev pub arrived : ℕ → List ℕ → Bool
arrived j [] = false
arrived j (i ∷ order) = (i == j) || arrived j order

-- Each of the first `n` blocks has arrived.
abbrev pub all_arrived : ℕ → List ℕ → Bool
all_arrived zero order = true
all_arrived (suc n) order = arrived n order && all_arrived n order

-- Only blocks of the ASDU arrive.
abbrev pub Below : ℕ → List ℕ → Type 0
Below n [] = 0 ≤ 0
Below n (i ∷ order) = (i < n) × Below n order

add_block_lem :
    {n buf_max : ℕ} (r : Reassembler) (h : ApsFragmentInfo) (asdu buf : List ℕ)
    (size i len total : ℕ) (got : List Bool)
    → Fits asdu size n buf_max
    → length got ≡ max_blocks
    → i < n
    → is_some r.buffer ≡ true
    → expecting h.counter r ≡ expects buf_max size h.counter buf len total got
    → (add_block r (fragment h asdu size n i)).0
      ≡ expects buf_max size h.counter
          (copied buf asdu size i)
          (extended len (block_end asdu size i))
          (if i == 0 then n else total)
          (marked got i)
unfolding add_block
add_block_lem {n} {buf_max} r h asdu buf size i len total got fits slots k here start =
    elim (Bool-cases (i == 0)) [
      | inr later ↦
          rw (add_block, here, start, later)
            (store_block_lem h.counter buf asdu size i len total got fits slots k)
      | inl first ↦
          let e : i ≡ 0 = ground arith in
          rw (add_block, here, start, first)
            (ap
                (λ j.
                  store_block (expects buf_max size h.counter buf len n got) j (block asdu size i)
                    (length (block asdu size i)))
                (sym e)
              ∙ store_block_lem h.counter buf asdu size i len n got fits slots k)
    ]

expecting_same :
    (buf_max size c : ℕ) (buf : List ℕ) (len total : ℕ) (got : List Bool)
    → expecting c (expects buf_max size c buf len total got)
      ≡ expects buf_max size c buf len total got
expecting_same buf_max size c buf len total got = rw (==_refl c) refl

-- What the receiver is after the blocks of `order`.
abbrev After :
    (h : ApsFragmentInfo) (asdu : List ℕ) (size n buf_max : ℕ) → (ℕ → Bool) → Reassembler → Type 0
After h asdu size n buf_max seen r =
    (buf : List ℕ) × (len : ℕ) × (total : ℕ) × (got : List Bool) × (r
      ≡ expects buf_max size h.counter buf len total got)
    × Holds asdu size n buf_max buf len total got
    × ((j : ℕ) → get_or got j false ≡ seen j)

receive_from :
    {n buf_max : ℕ} (h : ApsFragmentInfo) (asdu : List ℕ) (size : ℕ) (order : List ℕ) (buf : List ℕ)
    (len total : ℕ) (got : List Bool)
    → Fits asdu size n buf_max
    → Holds asdu size n buf_max buf len total got
    → Below n order
    → After h asdu size n buf_max
        (λ j. arrived j order || get_or got j false)
        (receive
          (expects buf_max size h.counter buf len total got)
          (map (fragment h asdu size n) order))
unfolding receive
receive_from h asdu size [] buf len total got fits held below =
    (buf, len, total, got, refl, held, λ j. refl)
receive_from {n} {buf_max} h asdu size (i ∷ order) buf len total got fits held (k, below) =
    let added =
      add_block_lem (expects buf_max size h.counter buf len total got) h asdu buf size i len total
        got fits held.slots k refl (expecting_same buf_max size h.counter buf len total got) in
    let (buf', len', total', got', e, held', seen) =
      receive_from h asdu size order (copied buf asdu size i) (extended len (block_end asdu size i))
        (if i == 0 then n else total) (marked got i) fits (add-Holds asdu size i fits held k refl)
        below in
    let few = fits.few_blocks in
    (
      buf',
      len',
      total',
      got',
      ap (λ r. receive r (map (fragment h asdu size n) order)) added ∙ e,
      held',
      λ j.
          let m = marked_at got i j (omega (arith, held.slots)) in
          let s = seen j in ground (arith, m, s),
    )

no_blocks : (j : ℕ) → get_or (replicate max_blocks false) j false ≡ false
no_blocks j = get_or-replicate max_blocks j

begin-Holds :
    {n buf_max : ℕ} (asdu : List ℕ) (size : ℕ) (buf : List ℕ)
    → buf_max ≤ length buf
    → Holds asdu size n buf_max buf 0 0 (replicate max_blocks false)
begin-Holds asdu size buf space = record {
  space = space;
  slots = refl;
  announced = refl;
  within = λ i k. no_blocks i;
  bytes = λ i j h. absurd (cc (no_blocks i, h));
  len_le = omega arith;
  len_last = λ i e h. absurd (cc (no_blocks i, h));
}

receive_all :
    {n buf_max : ℕ} (r : Reassembler) (h : ApsFragmentInfo) (asdu : List ℕ) (size i : ℕ)
    (order buf : List ℕ)
    → Fits asdu size n buf_max
    → buf_max ≤ length buf
    → Below n (i ∷ order)
    → After h asdu size n buf_max
        (λ j. arrived j (i ∷ order))
        (receive
          (begin_reassembly r (some buf) buf_max size)
          (map (fragment h asdu size n) (i ∷ order)))
unfolding receive begin_reassembly reset
receive_all {n} {buf_max} r h asdu size i order buf fits space (k, below) =
    let none_yet = replicate max_blocks false in
    let held = begin-Holds asdu size buf space in
    let added =
      add_block_lem (begin_reassembly r (some buf) buf_max size) h asdu buf size i 0 0 none_yet fits
        refl k refl refl in
    let (buf', len', total', got', e, held', seen) =
      receive_from h asdu size order (copied buf asdu size i) (extended 0 (block_end asdu size i))
        (if i == 0 then n else 0) (marked none_yet i) fits (add-Holds asdu size i fits held k refl)
        below in
    let few = fits.few_blocks in
    (
      buf',
      len',
      total',
      got',
      ap (λ r. receive r (map (fragment h asdu size n) order)) added ∙ e,
      held',
      λ j.
          let m = marked_at none_yet i j (omega arith) in
          let s = seen j in let z = no_blocks j in ground (arith, m, s, z),
    )

-- The block that byte `j` is in.
locate :
    (size j k : ℕ)
    → j < k * size + size
    → (i : ℕ) × (i ≤ k) × (i * size ≤ j) × (j < i * size + size)
locate size j zero h = (0, omega arith, omega arith, h)
locate size j (suc k) h = elim (Bool-cases (leb (suc k * size) j)) [
  | inl lo ↦ (suc k, omega arith, ground arith, h)
  | inr hi ↦ let (i, le, lo, hi') = locate size j k (ground arith) in (i, omega arith, lo, hi')
]

all_arrived→arrived :
    (n i : ℕ) (order : List ℕ) → all_arrived n order ≡ true → i < n → arrived i order ≡ true
all_arrived→arrived zero i order h k = absurd (omega arith)
all_arrived→arrived (suc n) i order h k = elim (Bool-cases (n == i)) [
  | inl same ↦ let e : n ≡ i = ground arith in ap (λ j. arrived j order) (sym e) ∙ ground arith
  | inr other ↦ all_arrived→arrived n i order (ground arith) (ground arith)
]

missing :
    (n : ℕ) (order : List ℕ)
    → all_arrived n order ≡ false
    → (i : ℕ) × (i < n) × (arrived i order ≡ false)
missing zero order h = absurd (cc)
missing (suc n) order h = elim (Bool-cases (arrived n order)) [
  | inr gone ↦ (n, omega arith, gone)
  | inl here ↦ let (i, k, e) = missing n order (ground arith) in (i, omega arith, e)
]

-- The bytes of an ASDU, all of whose blocks are marked.
whole :
    {n buf_max : ℕ} {buf : List ℕ} {len total : ℕ} {got : List Bool} (asdu : List ℕ) (size : ℕ)
    → Fits asdu size n buf_max
    → Holds asdu size n buf_max buf len total got
    → ((i : ℕ) → i < n → get_or got i false ≡ true)
    → (len ≡ length asdu) × (take (length asdu) buf ≡ asdu)
whole {n} {buf_max} {buf} asdu size fits held every =
    let last : ℕ = n - 1 in
    let e : suc last ≡ n = omega (arith, fits.some_blocks) in
    (
      held.len_last last e (every last (omega arith)),
      take-by_index buf asdu (omega (arith, fits.room, held.space)) (λ j k.
          let (i, le, lo, hi) = locate size j last (omega (arith, fits.ends last e)) in
          held.bytes i j (every i (omega arith)) lo hi k),
    )

complete-expects :
    {n buf_max : ℕ} {buf : List ℕ} {len total : ℕ} {got : List Bool} (c : ℕ) (asdu : List ℕ)
    (size : ℕ)
    → Fits asdu size n buf_max
    → Holds asdu size n buf_max buf len total got
    → complete (expects buf_max size c buf len total got)
      ≡ get_or got 0 false && leb n (count had got)
unfolding complete
complete-expects {n} {buf_max} {buf} {len} {total} {got} c asdu size fits held =
    let positive = fits.some_blocks in
    elim (Bool-cases (get_or got 0 false)) [
      | inl first ↦ rw (complete, held.announced, first) (ground arith)
      | inr first ↦ rw (complete, held.announced, first) refl
    ]

none_arrived : (n : ℕ) → 0 < n → all_arrived n [] ≡ false
none_arrived zero h = absurd (omega arith)
none_arrived (suc n) h = refl

-- What a receiver that has room for an ASDU of at most 16 blocks holds after fragments of that ASDU
-- alone, in any order and with any repetitions: it reports the ASDU complete exactly when each block has
-- arrived at least once, and then the ASDU that it holds is the one that was split, in length and in each
-- byte.
pub reassembly_complete :
    (r : Reassembler) (h : ApsFragmentInfo) (asdu : List ℕ) (size n buf_max : ℕ)
    (order buf : List ℕ)
    → Fits asdu size n buf_max
    → buf_max ≤ length buf
    → Below n order
    → let r' =
        receive (begin_reassembly r (some buf) buf_max size) (map (fragment h asdu size n) order) in
      ((all_arrived n order ≡ true)
        × (complete r' ≡ true)
        × (r'.asdu_len ≡ length asdu)
        × (take r'.asdu_len (bytes_of r'.buffer) ≡ asdu))
      ⊎ ((all_arrived n order ≡ false) × (complete r' ≡ false))
unfolding complete receive begin_reassembly reset
reassembly_complete r h asdu size n buf_max [] buf fits space below =
    inr (none_arrived n fits.some_blocks, refl)
reassembly_complete r h asdu size n buf_max (i ∷ order) buf fits space below =
    let (buf', len, total, got, e, held, seen) =
      receive_all r h asdu size i order buf fits space below in
    elim (Bool-cases (all_arrived n (i ∷ order))) [
      | inl every ↦
          let marks : (j : ℕ) → j < n → get_or got j false ≡ true =
            (λ j k. seen j ∙ all_arrived→arrived n j (i ∷ order) every k) in
          let full = count-full got n marks in
          let (same_len, same) = whole asdu size fits held marks in
          inl (
            every,
            ap complete e
                ∙ complete-expects h.counter asdu size fits held
                ∙ (let first = marks 0 fits.some_blocks in ground (arith, first, full)),
            ap (λ s. s.asdu_len) e ∙ same_len,
            ap (λ s. take s.asdu_len (bytes_of s.buffer)) e ∙ ap (λ l. take l buf') same_len ∙ same,
          )
      | inr some_missing ↦
          let (j, k, gone) = missing n (i ∷ order) some_missing in
          let few = count-missing got n j held.within k (seen j ∙ gone) in
          inr (
            some_missing,
            ap complete e ∙ complete-expects h.counter asdu size fits held ∙ ground (arith, few),
          )
    ]
