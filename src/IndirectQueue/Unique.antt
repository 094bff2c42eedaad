-- ===== src/IndirectQueue/Unique.antt =====
-- src/ZigbeeIndirectQueue.h: the invariant that a child has at most one buffered frame.
use arduino_nrf_zigbee.Prelude.{
  ℕ, ◌≡◌, refl, ap, inl, inr, ◌<◌, ◌≤◌, Bool, true, false, Option, none, some, List, arith,
  get_elem?, set, length, length-set, length-replicate, Option-cases, Bool-cases, ◌&&◌, is_some,
  leb, add32,
}
use arduino_nrf_zigbee.Slots.{count}
use arduino_nrf_zigbee.Slots.Count.{count-replicate, count-update_where, length-update_where}
use arduino_nrf_zigbee.Slots.Place.{modify-eq-set, count-modify_le, length-modify}
use arduino_nrf_zigbee.Slots.Target.{IsTarget, target?-some, count-target}
use arduino_nrf_zigbee.IndirectQueue.{
  IndirectEntry, IndirectQueue, empty_entry, begin, matches, is_free, sooner, find, first_free,
  oldest, buffered, bytes, enqueue, dequeue, dequeue_entry, expire, is_expired, max_payload,
}

pub record IsValid (t : IndirectQueue) : Type 0 where
  pub is_attached : t.attached ≡ true
  pub nonempty : 0 < length t.entries
  pub unique : (child : ℕ) → count (matches child) t.entries ≤ 1

pub begin-IsValid : (capacity : ℕ) → 0 < capacity → IsValid (begin capacity)
unfolding begin
begin-IsValid capacity h = record {
  is_attached = refl;
  nonempty = omega (arith, length-replicate capacity empty_entry);
  unique = λ c. omega (arith, count-replicate (matches c) capacity empty_entry refl);
}

-- The frames that `enqueue` takes: not null, and at most `max_payload` bytes.
abbrev pub fits : Option (List ℕ) → ℕ → Bool
fits frame len = is_some frame && leb len max_payload

pub enqueue_refused :
    (t : IndirectQueue) (child : ℕ) (frame : Option (List ℕ)) (len now persistence_ms : ℕ)
    → fits frame len ≡ false
    → enqueue t child frame len now persistence_ms ≡ (t, false)
unfolding enqueue
enqueue_refused t child frame len now p h = ground arith

pub enqueue_lem :
    (t : IndirectQueue) (child : ℕ) (frame : Option (List ℕ)) (len now persistence_ms : ℕ)
    → IsValid t
    → fits frame len ≡ true
    → (i : ℕ) × (x : IndirectEntry) × (enqueue t child frame len now persistence_ms ≡ (
      record t {
        entries = set t.entries i (buffered child (bytes frame) len (add32 now persistence_ms) x);
      },
      true,
    ))
      × (get_elem? t.entries i ≡ some x)
      × IsTarget is_free (matches child) t.entries x
unfolding enqueue find first_free oldest
enqueue_lem t child frame len now p v h =
    let (i, x, e, at, target) =
      target?-some is_free (λ x. x.used) sooner (λ x p. ground arith) (matches child) t.entries
        v.nonempty in
    (
      i,
      x,
      rw
          (
            v.is_attached,
            enqueue,
            e,
            modify-eq-set t.entries i (buffered child (bytes frame) len (add32 now p)) at,
          )
          (ground arith),
      at,
      target,
    )

pub enqueue-IsValid :
    {t : IndirectQueue} (child : ℕ) (frame : Option (List ℕ)) (len now persistence_ms : ℕ)
    → IsValid t
    → IsValid (enqueue t child frame len now persistence_ms).0
enqueue-IsValid {t} child frame len now p v = elim (Bool-cases (fits frame len)) [
  | inr h ↦ rw (enqueue_refused t child frame len now p h) v
  | inl h ↦
      let (i, x, e, at, target) = enqueue_lem t child frame len now p v h in
      let new = buffered child (bytes frame) len (add32 now p) x in
      rw e record {
        is_attached = v.is_attached;
        nonempty = omega (arith, v.nonempty, length-set t.entries i new);
        unique = λ c.
            count-target is_free (matches child) t.entries i new x at target (matches c)
              (v.unique c) (λ hit. ap matches (ground arith));
      }
]

pub dequeue_entry-IsValid :
    {t : IndirectQueue} (e : Option ℕ) → IsValid t → IsValid (dequeue_entry t e)
unfolding dequeue_entry
dequeue_entry-IsValid none v = v
dequeue_entry-IsValid {t} (some i) v = record {
  is_attached = v.is_attached;
  nonempty = omega (arith, v.nonempty, length-modify t.entries i (λ _. empty_entry));
  unique = λ c.
      omega
        (arith, v.unique c, count-modify_le (matches c) t.entries i (λ _. empty_entry) (λ x. refl));
}

pub dequeue-entry :
    (t : IndirectQueue) (child : ℕ) → (dequeue t child).0 ≡ dequeue_entry t (find t child)
unfolding dequeue dequeue_entry
dequeue-entry t child = elim (Option-cases (find t child)) [
  | inl e ↦ rw (e, dequeue) refl
  | inr (i, e) ↦ rw (e, dequeue) refl
]

pub expire-IsValid : {t : IndirectQueue} (now : ℕ) → IsValid t → IsValid (expire t now).0
unfolding expire
expire-IsValid {t} now v = rw v.is_attached record {
  is_attached = refl;
  nonempty =
      omega (arith, v.nonempty, length-update_where (is_expired now) (λ e. empty_entry) t.entries);
  unique = λ c. omega (
    arith,
    v.unique c,
    count-update_where (matches c) (is_expired now) (λ e. empty_entry) t.entries (λ x h. refl),
  );
}
