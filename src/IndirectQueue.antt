-- ===== src/IndirectQueue.antt =====
-- src/ZigbeeIndirectQueue.h: the frames that a parent buffers for its sleepy children. A method that
-- changes the queue returns the new one beside its result.
pub mod Unique
pub mod Delivery
mod Tests
use arduino_nrf_zigbee.Prelude.{
  ℕ, Bool, true, false, not, ◌&&◌, ◌||◌, Option, none, some, List, [], ◌++◌, if◌then◌else◌, ltb,
  ◌==◌, is_some, or_else, length, get_elem?, take, drop, replicate, add32, before32,
}
use arduino_nrf_zigbee.Slots.{Table, find_index?, count, update_where, modify, best?}

abbrev pub max_payload : ℕ
max_payload = 100

-- `payload` is an array of `kMaxPayload` bytes; the first `length` of them are the frame.
pub record IndirectEntry : Type 0 where
  pub used : Bool
  pub child_short : ℕ
  pub expiry_ms : ℕ
  pub frame_length : ℕ
  pub payload : List ℕ

-- The constructor leaves `payload` as it was; no reader looks past `length`.
abbrev pub empty_entry : IndirectEntry
empty_entry = record {
  used = false;
  child_short = 0xffff;
  expiry_ms = 0;
  frame_length = 0;
  payload = replicate max_payload 0;
}

abbrev pub IndirectQueue : Type 0
IndirectQueue = Table IndirectEntry

abbrev pub default_persistence_ms : ℕ
default_persistence_ms = 7680

-- `storage` of `capacity` entries
pub begin : ℕ → IndirectQueue
begin capacity = record { attached = true; entries = replicate capacity empty_entry }

pub slot : IndirectQueue → ℕ → Option IndirectEntry
slot t i = if t.attached && ltb i (length t.entries) then get_elem? t.entries i else none

abbrev pub matches : ℕ → IndirectEntry → Bool
matches child e = e.used && e.child_short == child

pub find : IndirectQueue → ℕ → Option ℕ
find t child = if t.attached then find_index? (matches child) t.entries else none

abbrev pub is_free : IndirectEntry → Bool
is_free e = not e.used

pub first_free : IndirectQueue → Option ℕ
first_free t = find_index? is_free t.entries

-- `(int32_t)(a.expiryMs - b.expiryMs) < 0`
abbrev pub sooner : IndirectEntry → IndirectEntry → Bool
sooner a b = before32 a.expiry_ms b.expiry_ms

pub oldest : IndirectQueue → Option ℕ
oldest t = best? (λ e. e.used) sooner t.entries

-- memcpy(e->payload, data, len)
abbrev pub buffered : ℕ → List ℕ → ℕ → ℕ → IndirectEntry → IndirectEntry
buffered child data_bytes len expiry e = record {
  used = true;
  child_short = child;
  expiry_ms = expiry;
  frame_length = len;
  payload = take len data_bytes ++ drop len e.payload;
}

abbrev pub bytes : Option (List ℕ) → List ℕ
bytes none = []
bytes (some bs) = bs

-- `frame` is null or an array of at least `len` bytes.
pub enqueue : IndirectQueue → ℕ → Option (List ℕ) → ℕ → ℕ → ℕ → IndirectQueue × Bool
enqueue t child frame len now persistence_ms =
    if not t.attached || not (is_some frame) || ltb max_payload len
    then (t, false)
    else (elim (or_else (find t child) (or_else (first_free t) (oldest t))) [
      | none ↦ (t, false)
      | some i ↦ (
        record t {
          entries =
              modify t.entries i (buffered child (bytes frame) len (add32 now persistence_ms));
        },
        true,
      )
    ])

pub has_pending : IndirectQueue → ℕ → Bool
has_pending t child = is_some (find t child)

-- the pointer to the buffered frame
pub pending : IndirectQueue → ℕ → Option ℕ
pending t child = find t child

-- `dequeue(IndirectEntry*)`
pub dequeue_entry : IndirectQueue → Option ℕ → IndirectQueue
dequeue_entry t none = t
dequeue_entry t (some i) = record t { entries = modify t.entries i (λ _. empty_entry) }

-- `dequeue(uint16_t)`
pub dequeue : IndirectQueue → ℕ → IndirectQueue × Bool
dequeue t child = elim (find t child) [
  | none ↦ (t, false)
  | some i ↦ (record t { entries = modify t.entries i (λ _. empty_entry) }, true)
]

abbrev pub is_expired : ℕ → IndirectEntry → Bool
is_expired now e = e.used && not (before32 now e.expiry_ms)

pub expire : IndirectQueue → ℕ → IndirectQueue × ℕ
expire t now =
    if t.attached
    then (
      record t { entries = update_where (is_expired now) (λ _. empty_entry) t.entries },
      count (is_expired now) t.entries,
    )
    else (t, 0)

pub active_count : IndirectQueue → ℕ
active_count t = count (λ e. e.used) t.entries
