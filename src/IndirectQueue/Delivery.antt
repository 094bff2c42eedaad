-- ===== src/IndirectQueue/Delivery.antt =====
-- src/ZigbeeIndirectQueue.h: what the queue holds for each child.
use arduino_nrf_zigbee.Prelude.{
  ℕ, ◌≡◌, refl, ◌∙◌, inl, inr, ◌⊎◌, ◌<◌, ◌≤◌, ◌+◌, true, false, Option, none, some, List, [], ◌∷◌,
  ◌++◌, arith, take, drop, take-append_length, take-take, length, length-take, Option-cases,
  Bool-cases, Bool, leb, ap, sym, ◌&&◌, ◌==◌, is_some, add32, before32, ltb, ◌%◌, ◌^◌,
}
use arduino_nrf_zigbee.Slots.{find_index?, find?, modify}
use arduino_nrf_zigbee.Slots.Find.{find_index?-some, find_index?-none, find_index?_of_none}
use arduino_nrf_zigbee.Slots.Count.{
  count-update_where, count_ext, find?-update_where, find?-unless, unless,
}
use arduino_nrf_zigbee.Slots.Place.{find?-modify_miss, find?-modify_reset}
use arduino_nrf_zigbee.Slots.Target.{Survives, find?-target, target-Survives}
use arduino_nrf_zigbee.IndirectQueue.Unique.{
  IsValid, fits, begin-IsValid, enqueue_lem, enqueue_refused, enqueue-IsValid,
  dequeue_entry-IsValid, dequeue-entry, expire-IsValid,
}
use arduino_nrf_zigbee.IndirectQueue.{
  IndirectEntry, IndirectQueue, empty_entry, begin, matches, is_free, find, buffered, enqueue,
  has_pending, dequeue, dequeue_entry, expire, is_expired, active_count,
}

-- The entry that `find` points to.
abbrev pub lookup : IndirectQueue → ℕ → Option IndirectEntry
lookup t child = find? (matches child) t.entries

pub data Call : Type 0 where
  enqueues : ℕ → Option (List ℕ) → ℕ → ℕ → ℕ → Call
  dequeues : ℕ → Call
  dequeues_entry : Option ℕ → Call
  expires : ℕ → Call

pub step : IndirectQueue → Call → IndirectQueue
step t (enqueues child frame len now persistence_ms) =
    (enqueue t child frame len now persistence_ms).0
step t (dequeues child) = (dequeue t child).0
step t (dequeues_entry e) = dequeue_entry t e
step t (expires now) = (expire t now).0

pub run : IndirectQueue → List Call → IndirectQueue
run t [] = t
run t (c ∷ cs) = run (step t c) cs

step-IsValid : {t : IndirectQueue} (c : Call) → IsValid t → IsValid (step t c)
unfolding step
step-IsValid (enqueues child frame len now p) v = enqueue-IsValid child frame len now p v
step-IsValid {t} (dequeues child) v =
    rw (dequeue-entry t child) (dequeue_entry-IsValid (find t child) v)
step-IsValid (dequeues_entry e) v = dequeue_entry-IsValid e v
step-IsValid (expires now) v = expire-IsValid now v

run-IsValid : (t : IndirectQueue) (cs : List Call) → IsValid t → IsValid (run t cs)
unfolding run
run-IsValid t [] v = v
run-IsValid t (c ∷ cs) v = run-IsValid (step t c) cs (step-IsValid c v)

-- After `begin` with at least one slot and any sequence of calls, the queue holds at most one frame
-- for each child.
pub indirect_run-IsValid :
    (capacity : ℕ) (cs : List Call) → 0 < capacity → IsValid (run (begin capacity) cs)
indirect_run-IsValid capacity cs h = run-IsValid (begin capacity) cs (begin-IsValid capacity h)

-- `hasPending` tells whether an entry is held, in an attached queue.
has_pending-lookup :
    (t : IndirectQueue) (child : ℕ)
    → t.attached ≡ true
    → has_pending t child ≡ is_some (lookup t child)
unfolding has_pending find
has_pending-lookup t child a = elim (Option-cases (find_index? (matches child) t.entries)) [
  | inl e ↦ rw (a, e, find_index?-none (matches child) t.entries e) refl
  | inr (i, e) ↦
      let (x, _, _, f) = find_index?-some (matches child) t.entries i e in rw (a, e, f) refl
]

frame_kept :
    (len : ℕ) (frame old : List ℕ)
    → len ≤ length frame
    → take len (take len frame ++ drop len old) ≡ take len frame
frame_kept len frame old h =
    take-append_length len (take len frame) (drop len old) (omega (arith, length-take len frame))
    ∙ take-take len frame

-- What the entry of a child says of its frame.
abbrev pub frame_of : Option IndirectEntry → Option (List ℕ × ℕ)
frame_of none = none
frame_of (some e) = some (take e.frame_length e.payload, e.expiry_ms)

-- A valid queue takes a frame exactly when it is not null and has at most 100 bytes; any other frame
-- leaves the queue as it was.
pub enqueue_answers :
    (t : IndirectQueue) (child : ℕ) (frame : Option (List ℕ)) (len now persistence_ms : ℕ)
    → IsValid t
    → ((enqueue t child frame len now persistence_ms).1 ≡ (is_some frame && leb len 100))
      × (((enqueue t child frame len now persistence_ms).1 ≡ true)
          ⊎ (enqueue t child frame len now persistence_ms ≡ (t, false)))
enqueue_answers t child frame len now p v = elim (Bool-cases (fits frame len)) [
  | inr h ↦
      let e = enqueue_refused t child frame len now p h in
      (ap (λ (r : IndirectQueue × Bool). r.1) e ∙ sym h, inr e)
  | inl h ↦
      let (i, x, e, at, target) = enqueue_lem t child frame len now p v h in
      let done = ap (λ (r : IndirectQueue × Bool). r.1) e in (done ∙ sym h, inl done)
]

-- In a valid queue, `dequeue` drops the frame of the child and says whether there was one; the frame
-- of any other child is as it was.
pub dequeue-lookup :
    (t : IndirectQueue) (child other : ℕ)
    → IsValid t
    → (other == child) ≡ false
    → let (t', found) = dequeue t child in
      (has_pending t' child ≡ false)
      × (found ≡ has_pending t child)
      × (lookup t' other ≡ lookup t other)
unfolding dequeue find has_pending
dequeue-lookup t child other v ne = elim (Option-cases (find_index? (matches child) t.entries)) [
  | inl e ↦ rw (v.is_attached, dequeue, e) (rw e (ground arith), ground arith, refl)
  | inr (i, e) ↦
      let (x, at, hit, f) = find_index?-some (matches child) t.entries i e in
      let gone =
        find?-modify_reset (matches child) t.entries i (λ _. empty_entry) (v.unique child) at hit
          refl in
      rw (v.is_attached, dequeue, e)
        (
          rw (find_index?_of_none (matches child) (modify t.entries i (λ _. empty_entry)) gone)
              (ground arith),
          refl,
          find?-modify_miss (matches other) t.entries i (λ _. empty_entry) at (ground arith) refl,
        )
]

-- In a valid queue, `expire` drops a frame exactly when its persistence time has elapsed (by the
-- wrapping clock), leaves every other frame as it is, and returns the number dropped.
pub indirect_expire-lookup :
    (t : IndirectQueue) (now child : ℕ)
    → IsValid t
    → let (t', freed) = expire t now in
      (lookup t' child ≡ unless (is_expired now) (lookup t child))
      × (active_count t' + freed ≡ active_count t)
unfolding expire active_count
indirect_expire-lookup t now child v =
    let expired = is_expired now in
    let reset = λ (e : IndirectEntry). empty_entry in
    rw (v.is_attached, expire)
      (
        find?-update_where (matches child) expired reset t.entries (λ x h. refl)
            ∙ find?-unless (matches child) expired t.entries (v.unique child),
        omega (
          arith,
          count-update_where (λ e. e.used) expired reset t.entries (λ x h. refl),
          count_ext (λ x. x.used && expired x) expired t.entries (λ x. ground arith),
        ),
      )

-- On the wrapping clock, an entry that lasts at most 2^31 ms has expired exactly from its last moment on,
-- for as long as its end is less than 2^31 ms ago.
expired-elapsed :
    (now elapsed persistence_ms : ℕ)
    → persistence_ms ≤ 2 ^ 31
    → elapsed < persistence_ms + 2 ^ 31
    → before32 (add32 now elapsed) (add32 now persistence_ms) ≡ ltb elapsed persistence_ms
expired-elapsed now elapsed p long late = ground arith

-- A frame of at most 100 bytes is taken by a valid queue: it is then pending for the child, byte for
-- byte, in place of any earlier frame of that child. The frame of any other child is as it was, unless
-- the queue was full and that frame made room. Where the next call is an `expire` after `elapsed_ms`
-- (on the wrapping clock), the frame is still pending for the child exactly if `elapsed_ms` is below
-- `persistence_ms`, which is at most 2^31, and the end of that time is less than 2^31 ms ago.
pub enqueue-lookup :
    (t : IndirectQueue) (child other : ℕ) (frame : List ℕ) (len now persistence_ms elapsed_ms : ℕ)
    → IsValid t
    → len ≤ 100
    → len ≤ length frame
    → (other == child) ≡ false
    → persistence_ms ≤ 2 ^ 31
    → elapsed_ms < persistence_ms + 2 ^ 31
    → let (t', done) = enqueue t child (some frame) len now persistence_ms in
      (done ≡ true)
      × (has_pending t' child ≡ true)
      × (frame_of (lookup t' child) ≡ some (take len frame, (now + persistence_ms) % 2 ^ 32))
      × (has_pending (expire t' ((now + elapsed_ms) % 2 ^ 32)).0 child
          ≡ ltb elapsed_ms persistence_ms)
      × Survives is_free (matches other) t.entries t'.entries
enqueue-lookup t child other frame len now p elapsed v small long ne lasts late =
    let (i, x, e, at, target) = enqueue_lem t child (some frame) len now p v (ground arith) in
    let new = buffered child frame len (add32 now p) x in
    let held =
      find?-target is_free (matches child) t.entries i new x at target (v.unique child)
        (ground arith) in
    let v' = enqueue-IsValid child (some frame) len now p v in
    let left = (indirect_expire-lookup _ (add32 now elapsed) child v').0 in
    let after =
      has_pending-lookup _ child (expire-IsValid (add32 now elapsed) v').is_attached
      ∙ ap is_some left in
    let time = expired-elapsed now elapsed p lasts late in
    (
      rw e refl,
      rw e (has_pending-lookup _ child v.is_attached ∙ rw held refl),
      rw e (rw (held, frame_kept len frame x.payload long) refl),
      after ∙ rw (e, held, time) (ground arith),
      rw e (
          target-Survives is_free (matches child) t.entries i new x at target (matches other)
            (v.unique other) (ground arith) (λ hit. ground arith) (λ hit. ground arith)),
    )
