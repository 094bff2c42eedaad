-- ===== src/ApsRetransmit/Accounts.antt =====
-- src/ZigbeeApsRetransmit.h: the counters of the table, and the frames that they count.
use arduino_nrf_zigbee.Prelude.{
  ℕ, ◌≡◌, refl, inl, inr, ◌+◌, ◌%◌, ◌^◌, Option, none, some, List, [], ◌∷◌, arith, get_elem?,
  Option-cases, to_nat,
}
use arduino_nrf_zigbee.Slots.{find_index?, count, modify}
use arduino_nrf_zigbee.Slots.Find.{find_index?-some}
use arduino_nrf_zigbee.Slots.Count.{count-set, count-replicate}
use arduino_nrf_zigbee.Slots.Place.{modify-eq-set, count-modify_same}
use arduino_nrf_zigbee.ApsRetransmit.{
  ApsPending, ApsRetransmit, no_pending, begin, is_free, registered, bytes, add, acked_by, on_ack,
  due_from, due, attempted, mark_attempted, pending,
}

abbrev used_count : List ApsPending → ℕ
used_count es = count (λ e. e.used) es

-- Each frame registered (modulo 2^32, as the counters count) was delivered, was dropped, or is
-- pending.
pub record IsBalanced (t : ApsRetransmit) : Type 0 where
  pub balance : (t.stats.delivered + t.stats.dropped + pending t) % 2 ^ 32 ≡ t.stats.queued

begin-IsBalanced : (capacity : ℕ) → IsBalanced (begin capacity)
unfolding begin pending
begin-IsBalanced capacity = record {
  balance = omega (arith, count-replicate (λ e. e.used) capacity no_pending refl);
}

used-modify :
    (es : List ApsPending) (i : ℕ) (v : ApsPending) {x : ApsPending}
    → get_elem? es i ≡ some x
    → used_count (modify es i (λ _. v)) + to_nat x.used ≡ used_count es + to_nat v.used
used-modify es i v at = rw (modify-eq-set es i (λ _. v) at) (count-set (λ e. e.used) es i v at)

add-IsBalanced :
    (t : ApsRetransmit) (dst counter ep : ℕ) (apdu : Option (List ℕ)) (len retries interval now : ℕ)
    → IsBalanced t
    → IsBalanced (add t dst counter ep apdu len retries interval now).0
unfolding add pending
add-IsBalanced t dst counter ep apdu len retries interval now b =
    elim (Option-cases (find_index? is_free t.entries)) [
      | inl e ↦ ground arith
      | inr (i, e) ↦
          let (x, at, hit, _) = find_index?-some is_free t.entries i e in
          ground (
            arith,
            used-modify t.entries i
                (registered dst counter ep (bytes apdu) len retries interval now) at,
          )
    ]

on_ack-IsBalanced :
    (t : ApsRetransmit) (counter ep : ℕ) → IsBalanced t → IsBalanced (on_ack t counter ep).0
unfolding on_ack pending
on_ack-IsBalanced t counter ep b =
    elim (Option-cases (find_index? (acked_by counter ep) t.entries)) [
      | inl e ↦ ground arith
      | inr (i, e) ↦
          let (x, at, hit, _) = find_index?-some (acked_by counter ep) t.entries i e in
          ground (arith, used-modify t.entries i no_pending at)
    ]

due_from-used :
    (now : ℕ) (es : List ApsPending)
    → used_count (due_from now es).0 + (due_from now es).1 ≡ used_count es
unfolding due_from
due_from-used now [] = refl
due_from-used now (e ∷ es) = ground (arith, due_from-used now es)

due-IsBalanced : (t : ApsRetransmit) (now : ℕ) → IsBalanced t → IsBalanced (due t now).0
unfolding due pending
due-IsBalanced t now b = ground (arith, due_from-used now t.entries)

mark_attempted-IsBalanced :
    (t : ApsRetransmit) (e : Option ℕ) (now : ℕ)
    → IsBalanced t
    → IsBalanced (mark_attempted t e now)
unfolding mark_attempted pending
mark_attempted-IsBalanced t none now b = b
mark_attempted-IsBalanced t (some i) now b =
    ground (arith, count-modify_same (λ e. e.used) t.entries i (attempted now) (λ x. refl))

pub data Call : Type 0 where
  adds : ℕ → ℕ → ℕ → Option (List ℕ) → ℕ → ℕ → ℕ → ℕ → Call
  acks : ℕ → ℕ → Call
  asks_due : ℕ → Call
  marks : Option ℕ → ℕ → Call

pub step : ApsRetransmit → Call → ApsRetransmit
step t (adds dst counter ep apdu len retries interval now) =
    (add t dst counter ep apdu len retries interval now).0
step t (acks counter ep) = (on_ack t counter ep).0
step t (asks_due now) = (due t now).0
step t (marks e now) = mark_attempted t e now

pub run : ApsRetransmit → List Call → ApsRetransmit
run t [] = t
run t (c ∷ cs) = run (step t c) cs

step-IsBalanced : (t : ApsRetransmit) (c : Call) → IsBalanced t → IsBalanced (step t c)
unfolding step
step-IsBalanced t (adds dst counter ep apdu len retries interval now) b =
    add-IsBalanced t dst counter ep apdu len retries interval now b
step-IsBalanced t (acks counter ep) b = on_ack-IsBalanced t counter ep b
step-IsBalanced t (asks_due now) b = due-IsBalanced t now b
step-IsBalanced t (marks e now) b = mark_attempted-IsBalanced t e now b

run-IsBalanced : (t : ApsRetransmit) (cs : List Call) → IsBalanced t → IsBalanced (run t cs)
unfolding run
run-IsBalanced t [] b = b
run-IsBalanced t (c ∷ cs) b = run-IsBalanced (step t c) cs (step-IsBalanced t c b)

-- After `begin` and any sequence of calls, the frames registered are those delivered, those dropped
-- and those pending, modulo 2^32.
pub retransmit_run-IsBalanced :
    (capacity : ℕ) (cs : List Call) → IsBalanced (run (begin capacity) cs)
retransmit_run-IsBalanced capacity cs =
    run-IsBalanced (begin capacity) cs (begin-IsBalanced capacity)
