-- ===== src/ApsRetransmit/Attempts.antt =====
-- src/ZigbeeApsRetransmit.h: how often a frame is sent again, and when.
use arduino_nrf_zigbee.Prelude.{
  ℕ, zero, suc, ◌≡◌, refl, inl, inr, ◌<◌, ◌+◌, Bool, true, false, Option, none, some, List, [], ◌∷◌,
  arith, get_elem?, get_or-eq, Option-cases, Bool-cases, if◌then◌else◌, ◌==◌, to_nat, ◌-◌, ◌%◌, ◌^◌,
}
use arduino_nrf_zigbee.Slots.{modify}
use arduino_nrf_zigbee.Slots.Place.{get_elem?-modify_self}
use arduino_nrf_zigbee.ApsRetransmit.{
  ApsPending, ApsRetransmit, no_pending, is_ready, due_from, due, attempted, mark_attempted,
}
use mathlib.Core.Option

-- How the driver uses the table at one moment: send again the frame that is due, and say so. The
-- flag is whether a frame went out.
pub serve : ApsRetransmit → ℕ → ApsRetransmit × Bool
serve t now =
    let (t₁, found) = due t now in
    elim found [ none ↦ (t₁, false) | some i ↦ (mark_attempted t₁ (some i) now, true) ]

pub serve_all : ApsRetransmit → List ℕ → ApsRetransmit × ℕ
serve_all t [] = (t, 0)
serve_all t (now ∷ later) =
    let (t₁, sent) = serve t now in let (t₂, n) = serve_all t₁ later in (t₂, to_nat sent + n)

-- The attempts left, over the frames that are pending.
abbrev pub tries : List ApsPending → ℕ
tries [] = 0
tries (e ∷ es) = (if e.used then e.tries_left else 0) + tries es

map-suc : (o : Option ℕ) {i : ℕ} → Option.map suc o ≡ some i → (j : ℕ) × (o ≡ some j) × (i ≡ suc j)
map-suc none h = absurd (cc)
map-suc (some j) h = (j, refl, ground arith)

-- the entry that a pointer of `due` names
abbrev Due : ℕ → List ApsPending → List ApsPending → ℕ → Type 0
Due now es es' i =
    (x : ApsPending) × (get_elem? es' i ≡ some x)
    × (get_elem? es i ≡ some x)
    × (is_ready now x ≡ true)
    × (0 < x.tries_left)

due_from_lem :
    (now : ℕ) (e d : ApsPending) (es es' : List ApsPending) {i j : ℕ}
    → Due now es es' j
    → i ≡ suc j
    → Due now (e ∷ es) (d ∷ es') i
due_from_lem now e d es es' {i} {j} (x, after, before, ready, left) h =
    rw h (x, after, before, ready, left)

due_from-some :
    (now : ℕ) (es : List ApsPending) (i : ℕ)
    → (due_from now es).2 ≡ some i
    → Due now es (due_from now es).0 i
unfolding due_from
due_from-some now [] i h = absurd (cc)
due_from-some now (e ∷ es) i h = elim (Bool-cases (is_ready now e)) [
  | inl ready ↦ elim (Bool-cases (e.tries_left == 0)) [
    | inl out ↦
        let (j, found, at) = map-suc (due_from now es).2 (ground arith) in
        rw (ready, out)
          (due_from_lem now e no_pending es (due_from now es).0 (due_from-some now es j found) at)
    | inr left ↦
        let at : i ≡ 0 = ground arith in rw (ready, left, at) (e, refl, refl, ready, ground arith)
  ]
  | inr waits ↦
      let (j, found, at) = map-suc (due_from now es).2 (ground arith) in
      rw waits (due_from_lem now e e es (due_from now es).0 (due_from-some now es j found) at)
]

due_from-tries : (now : ℕ) (es : List ApsPending) → tries (due_from now es).0 ≡ tries es
unfolding due_from
due_from-tries now [] = refl
due_from-tries now (e ∷ es) = ground (arith, due_from-tries now es)

tries-attempted :
    (now : ℕ) (es : List ApsPending) (i : ℕ) {x : ApsPending}
    → get_elem? es i ≡ some x
    → x.used ≡ true
    → 0 < x.tries_left
    → tries (modify es i (attempted now)) + 1 ≡ tries es
tries-attempted now [] i at u h = absurd (cc)
tries-attempted now (y ∷ ys) zero at u h = ground arith
tries-attempted now (y ∷ ys) (suc i) at u h = omega (arith, tries-attempted now ys i at u h)

serve-tries :
    (t : ApsRetransmit) (now : ℕ)
    → tries (serve t now).0.entries + to_nat (serve t now).1 ≡ tries t.entries
unfolding serve due mark_attempted
serve-tries t now = elim (Bool-cases t.attached) [
  | inr a ↦ ground arith
  | inl a ↦ elim (Option-cases (due_from now t.entries).2) [
    | inl e ↦ ground (arith, due_from-tries now t.entries)
    | inr (i, e) ↦
        let (x, at, _, ready, left) = due_from-some now t.entries i e in
        ground (
          arith,
          due_from-tries now t.entries,
          get_or-eq (due_from now t.entries).0 i no_pending at,
          tries-attempted now (due_from now t.entries).0 i at,
        )
  ]
]

served :
    (t : ApsRetransmit) (now i : ℕ) (x : ApsPending)
    → t.attached ≡ true
    → (due_from now t.entries).2 ≡ some i
    → get_elem? (due_from now t.entries).0 i ≡ some x
    → is_ready now x ≡ true
    → get_elem? (serve t now).0.entries i ≡ some (attempted now x)
unfolding serve due mark_attempted
served t now i x a e at ready = ground (
  arith,
  get_or-eq (due_from now t.entries).0 i no_pending at,
  get_elem?-modify_self (due_from now t.entries).0 i (attempted now) at,
)

-- While no frame is registered and no ack arrives, the frames sent again over any sequence of
-- moments are exactly the attempts that the pending frames have lost, so never more than they had
-- left at the start.
pub serve_all-tries :
    (t : ApsRetransmit) (times : List ℕ)
    → tries (serve_all t times).0.entries + (serve_all t times).1 ≡ tries t.entries
unfolding serve_all
serve_all-tries t [] = omega arith
serve_all-tries t (now ∷ later) =
    omega (arith, serve-tries t now, serve_all-tries (serve t now).0 later)

-- A frame that is ready is pending, and its next time is less than half of the clock's circle ago.
ready_lem :
    (now : ℕ) (x : ApsPending)
    → is_ready now x ≡ true
    → (x.used ≡ true) × ((now + 2 ^ 32 - x.next_attempt_ms) % 2 ^ 32 < 2 ^ 31)
ready_lem now x h = (ground arith, ground arith)

-- What `due` returns is a frame of the table that is pending, whose next time is now or less than 2^31
-- ms ago on the wrapping clock, and that has an attempt left. Marking it takes one attempt, sets its
-- next time to `now + interval_ms`, modulo 2^32, and changes nothing else of it.
pub due_lem :
    (t : ApsRetransmit) (now i : ℕ)
    → (due t now).1 ≡ some i
    → (x : ApsPending) × (get_elem? t.entries i ≡ some x)
      × (x.used ≡ true)
      × ((now + 2 ^ 32 - x.next_attempt_ms) % 2 ^ 32 < 2 ^ 31)
      × (0 < x.tries_left)
      × (get_elem? (serve t now).0.entries i
          ≡ some (record x {
            tries_left = x.tries_left - 1;
            next_attempt_ms = (now + x.interval_ms) % 2 ^ 32;
          }))
unfolding due
due_lem t now i h = elim (Bool-cases t.attached) [
  | inr a ↦ absurd (ground arith)
  | inl a ↦
      let e : (due_from now t.entries).2 ≡ some i = ground arith in
      let (x, at, before, ready, left) = due_from-some now t.entries i e in
      let (used, time) = ready_lem now x ready in
      (x, before, used, time, left, served t now i x a e at ready)
]
