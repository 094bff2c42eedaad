-- ===== src/ApsFragment/Blocks.antt =====
-- Bytes by their index, for the reassembly of src/ZigbeeApsFragment.h: what a write into a buffer
-- leaves, and what marks an array of blocks as complete.
use arduino_nrf_zigbee.Prelude.{
  ℕ, zero, suc, ◌≡◌, refl, sym, ap, ◌∙◌, ◌+◌, ◌<◌, ◌≤◌, Bool, true, false, ◌||◌, List, [], ◌∷◌,
  ◌++◌, arith, ◌==◌, length, take, drop, set, get_or, replicate, length-append, length-take,
  length-drop, inl, inr, ◌⊎◌,
}
use arduino_nrf_zigbee.Bytes.{write_at}
use arduino_nrf_zigbee.Slots.{count}

pub get_or-take : (n i : ℕ) (xs : List ℕ) → i < n → get_or (take n xs) i 0 ≡ get_or xs i 0
get_or-take zero i xs h = absurd (omega arith)
get_or-take (suc n) i [] h = refl
get_or-take (suc n) zero (x ∷ xs) h = refl
get_or-take (suc n) (suc i) (x ∷ xs) h = get_or-take n i xs (omega arith)

suc_plus : (n i : ℕ) → suc n + i ≡ suc (n + i)
suc_plus n i = omega arith

pub get_or-drop : (n i : ℕ) (xs : List ℕ) → get_or (drop n xs) i 0 ≡ get_or xs (n + i) 0
get_or-drop zero i xs = ap (λ k. get_or xs k 0) (omega arith)
get_or-drop (suc n) i [] = refl
get_or-drop (suc n) i (x ∷ xs) =
    get_or-drop n i xs ∙ sym (ap (λ k. get_or (x ∷ xs) k 0) (suc_plus n i))

before :
    (offset : ℕ) (buf rest : List ℕ) (j : ℕ)
    → j < offset
    → offset ≤ length buf
    → get_or (take offset buf ++ rest) j 0 ≡ get_or buf j 0
before zero buf rest j h k = absurd (omega arith)
before (suc offset) [] rest j h k = absurd (omega arith)
before (suc offset) (x ∷ buf) rest zero h k = refl
before (suc offset) (x ∷ buf) rest (suc j) h k =
    before offset buf rest j (omega arith) (omega arith)

inside :
    (offset : ℕ) (buf bytes rest : List ℕ) (j i : ℕ)
    → j ≡ offset + i
    → i < length bytes
    → offset ≤ length buf
    → get_or (take offset buf ++ (bytes ++ rest)) j 0 ≡ get_or bytes i 0
inside zero buf [] rest j i e h k = absurd (omega arith)
inside zero buf (b ∷ bytes) rest zero zero e h k = refl
inside zero buf (b ∷ bytes) rest zero (suc i) e h k = absurd (omega arith)
inside zero buf (b ∷ bytes) rest (suc j) zero e h k = absurd (omega arith)
inside zero buf (b ∷ bytes) rest (suc j) (suc i) e h k =
    inside zero buf bytes rest j i (omega arith) (omega arith) (omega arith)
inside (suc offset) [] bytes rest j i e h k = absurd (omega arith)
inside (suc offset) (x ∷ buf) bytes rest zero i e h k = absurd (omega arith)
inside (suc offset) (x ∷ buf) bytes rest (suc j) i e h k =
    inside offset buf bytes rest j i (omega arith) h (omega arith)

-- `n` is the index after the last byte of the write.
after :
    (offset n : ℕ) (bytes buf : List ℕ) (j : ℕ)
    → n ≡ offset + length bytes
    → n ≤ j
    → n ≤ length buf
    → get_or (take offset buf ++ (bytes ++ drop n buf)) j 0 ≡ get_or buf j 0
after zero zero [] buf j e h k = refl
after zero zero (b ∷ bytes) buf j e h k = absurd (omega arith)
after zero (suc n) [] buf j e h k = absurd (omega arith)
after zero (suc n) (b ∷ bytes) [] j e h k = absurd (omega arith)
after zero (suc n) (b ∷ bytes) (x ∷ buf) zero e h k = absurd (omega arith)
after zero (suc n) (b ∷ bytes) (x ∷ buf) (suc j) e h k =
    after zero n bytes buf j (omega arith) (omega arith) (omega arith)
after (suc offset) zero bytes buf j e h k = absurd (omega arith)
after (suc offset) (suc n) bytes [] j e h k = absurd (omega arith)
after (suc offset) (suc n) bytes (x ∷ buf) zero e h k = absurd (omega arith)
after (suc offset) (suc n) bytes (x ∷ buf) (suc j) e h k =
    after offset n bytes buf j (omega arith) (omega arith) (omega arith)

-- A write into a buffer with room for it puts its bytes at their place.
pub get_or-write_at :
    (offset : ℕ) (bytes buf : List ℕ) (i : ℕ)
    → i < length bytes
    → offset ≤ length buf
    → get_or (write_at offset bytes buf) (offset + i) 0 ≡ get_or bytes i 0
get_or-write_at offset bytes buf i h k =
    inside offset buf bytes (drop (offset + length bytes) buf) (offset + i) i refl h k

-- The other bytes stay as they were.
pub get_or-write_at_other :
    (offset : ℕ) (bytes buf : List ℕ) (j : ℕ)
    → offset + length bytes ≤ length buf
    → (j < offset) ⊎ (offset + length bytes ≤ j)
    → get_or (write_at offset bytes buf) j 0 ≡ get_or buf j 0
get_or-write_at_other offset bytes buf j k (inl h) =
    before offset buf (bytes ++ drop (offset + length bytes) buf) j h (omega arith)
get_or-write_at_other offset bytes buf j k (inr h) =
    after offset (offset + length bytes) bytes buf j refl h k

pub length-write_at :
    (offset : ℕ) (bytes buf : List ℕ)
    → offset + length bytes ≤ length buf
    → length (write_at offset bytes buf) ≡ length buf
length-write_at offset bytes buf h = omega (
  arith,
  length-append (take offset buf) (bytes ++ drop (offset + length bytes) buf),
  length-append bytes (drop (offset + length bytes) buf),
  length-take offset buf,
  length-drop (offset + length bytes) buf,
)

-- Two buffers with the same bytes up to the end of the second.
pub take-by_index :
    (xs ys : List ℕ)
    → length ys ≤ length xs
    → ((i : ℕ) → i < length ys → get_or xs i 0 ≡ get_or ys i 0)
    → take (length ys) xs ≡ ys
take-by_index xs [] h same = refl
take-by_index [] (y ∷ ys) h same = absurd (omega arith)
take-by_index (x ∷ xs) (y ∷ ys) h same =
    ap (λ z. z ∷ take (length ys) xs) (same 0 (omega arith))
    ∙ ap (◌∷◌ y) (take-by_index xs ys (omega arith) (λ i k. same (suc i) (omega arith)))

-- The blocks that are there.
abbrev pub had : Bool → Bool
had b = b

pub get_or-set_bool :
    (got : List Bool) (i j : ℕ)
    → i < length got
    → get_or (set got i true) j false ≡ (i == j) || get_or got j false
get_or-set_bool [] i j h = absurd (omega arith)
get_or-set_bool (g ∷ got) zero zero h = ground arith
get_or-set_bool (g ∷ got) zero (suc j) h = ground arith
get_or-set_bool (g ∷ got) (suc i) zero h = ground arith
get_or-set_bool (g ∷ got) (suc i) (suc j) h =
    let ih = get_or-set_bool got i j (omega arith) in ground arith

pub count-set_bool :
    (got : List Bool) (i : ℕ)
    → i < length got
    → get_or got i false ≡ false
    → count had (set got i true) ≡ 1 + count had got
count-set_bool [] i h e = absurd (omega arith)
count-set_bool (g ∷ got) zero h e = ground arith
count-set_bool (g ∷ got) (suc i) h e = omega (arith, count-set_bool got i (omega arith) e)

pub count-le :
    (got : List Bool) (n : ℕ) → ((i : ℕ) → n ≤ i → get_or got i false ≡ false) → count had got ≤ n
count-le [] n h = omega arith
count-le (g ∷ got) zero h =
    let here = h 0 (omega arith) in
    ground (arith, count-le got zero (λ i k. h (suc i) (omega arith)))
count-le (g ∷ got) (suc n) h = ground (arith, count-le got n (λ i k. h (suc i) (omega arith)))

pub count-full :
    (got : List Bool) (n : ℕ) → ((i : ℕ) → i < n → get_or got i false ≡ true) → n ≤ count had got
count-full got zero h = omega arith
count-full [] (suc n) h = absurd (cc (h 0 (omega arith)))
count-full (g ∷ got) (suc n) h =
    let here = h 0 (omega arith) in
    ground (arith, count-full got n (λ i k. h (suc i) (omega arith)))

-- With one of the first `n` blocks missing, fewer than `n` are there.
pub count-missing :
    (got : List Bool) (n i : ℕ)
    → ((k : ℕ) → n ≤ k → get_or got k false ≡ false)
    → i < n
    → get_or got i false ≡ false
    → count had got < n
count-missing [] n i h k e = omega arith
count-missing (g ∷ got) zero i h k e = absurd (omega arith)
count-missing (g ∷ got) (suc n) zero h k e =
    ground (arith, count-le got n (λ i k. h (suc i) (omega arith)))
count-missing (g ∷ got) (suc n) (suc i) h k e =
    ground (arith, count-missing got n i (λ j l. h (suc j) (omega arith)) (omega arith) e)

pub get_or-replicate : (n j : ℕ) → get_or (replicate n false) j false ≡ false
get_or-replicate zero j = refl
get_or-replicate (suc n) zero = refl
get_or-replicate (suc n) (suc j) = get_or-replicate n j
