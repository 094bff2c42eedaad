-- ===== src/ApsRetransmit.antt =====
-- src/ZigbeeApsRetransmit.h: the sender's table of APS frames that wait for an end-to-end ack. A
-- method that changes the table returns the new one beside its result.
pub mod Accounts
pub mod Attempts
mod Tests
use arduino_nrf_zigbee.Prelude.{
  ℕ, suc, ◌+◌, ◌-◌, ◌%◌, ◌^◌, Bool, true, false, not, ◌&&◌, ◌||◌, Option, none, some, List, [], ◌∷◌,
  if◌then◌else◌, ltb, ◌==◌, is_some, get_or, replicate, take, add32, before32,
}
use arduino_nrf_zigbee.Slots.{find_index?, count, modify}
use mathlib.Core.Option

-- `ZigbeeAps::kMaxFrame`
abbrev pub max_frame : ℕ
max_frame = 108

-- `apdu` is the copy of the frame: the first `apduLen` bytes of the array.
pub record ApsPending : Type 0 where
  pub used : Bool
  pub dst_short : ℕ
  pub aps_counter : ℕ
  pub src_endpoint : ℕ
  pub next_attempt_ms : ℕ
  pub interval_ms : ℕ
  pub tries_left : ℕ
  pub apdu : List ℕ
  pub apdu_len : ℕ

abbrev pub no_pending : ApsPending
no_pending = record {
  used = false;
  dst_short = 0;
  aps_counter = 0;
  src_endpoint = 0;
  next_attempt_ms = 0;
  interval_ms = 0;
  tries_left = 0;
  apdu = [];
  apdu_len = 0;
}

-- uint32_t counters, which wrap
pub record ApsRetransmitStats : Type 0 where
  pub queued : ℕ
  pub delivered : ℕ
  pub retransmits : ℕ
  pub dropped : ℕ

abbrev pub no_stats : ApsRetransmitStats
no_stats = record { queued = 0; delivered = 0; retransmits = 0; dropped = 0 }

pub record ApsRetransmit : Type 0 where
  pub attached : Bool
  pub entries : List ApsPending
  pub stats : ApsRetransmitStats

-- `storage` of `capacity` entries
pub begin : ℕ → ApsRetransmit
begin capacity = record {
  attached = true;
  entries = replicate capacity no_pending;
  stats = no_stats;
}

abbrev pub is_free : ApsPending → Bool
is_free e = not e.used

abbrev pub registered : ℕ → ℕ → ℕ → List ℕ → ℕ → ℕ → ℕ → ℕ → ApsPending
registered dst counter ep apdu len retries interval now = record {
  used = true;
  dst_short = dst;
  aps_counter = counter;
  src_endpoint = ep;
  next_attempt_ms = add32 now interval;
  interval_ms = interval;
  tries_left = retries;
  apdu = take len apdu;
  apdu_len = len;
}

abbrev pub bytes : Option (List ℕ) → List ℕ
bytes none = []
bytes (some bs) = bs

-- `apdu` is null or an array of at least `apdu_len` bytes.
pub add : ApsRetransmit → ℕ → ℕ → ℕ → Option (List ℕ) → ℕ → ℕ → ℕ → ℕ → ApsRetransmit × Option ℕ
add t dst_short aps_counter src_endpoint apdu apdu_len max_retries interval_ms now =
    if not t.attached || not (is_some apdu) || ltb max_frame apdu_len
    then (t, none)
    else (elim (find_index? is_free t.entries) [
      | none ↦ (t, none)
      | some i ↦ (
        record t {
          entries = modify t.entries i (λ _.
              registered dst_short aps_counter src_endpoint (bytes apdu) apdu_len max_retries
                interval_ms now);
          stats = record t.stats { queued = add32 t.stats.queued 1 };
        },
        some i,
      )
    ])

abbrev pub acked_by : ℕ → ℕ → ApsPending → Bool
acked_by aps_counter ack_dst_endpoint e =
    e.used && e.aps_counter == aps_counter && e.src_endpoint == ack_dst_endpoint

pub on_ack : ApsRetransmit → ℕ → ℕ → ApsRetransmit × Bool
on_ack t aps_counter ack_dst_endpoint =
    if t.attached
    then (elim (find_index? (acked_by aps_counter ack_dst_endpoint) t.entries) [
      | none ↦ (t, false)
      | some i ↦ (
        record t {
          entries = modify t.entries i (λ _. no_pending);
          stats = record t.stats { delivered = add32 t.stats.delivered 1 };
        },
        true,
      )
    ])
    else (t, false)

-- `used` and `(int32_t)(nowMs - nextAttemptMs) >= 0`
abbrev pub is_ready : ℕ → ApsPending → Bool
is_ready now e = e.used && not (before32 now e.next_attempt_ms)

-- The loop of `due` over the entries left: those entries after it, how many it dropped, and the
-- index of the entry that it returns.
pub due_from : ℕ → List ApsPending → List ApsPending × ℕ × Option ℕ
due_from now [] = ([], 0, none)
due_from now (e ∷ es) =
    let rest = due_from now es in
    if not (is_ready now e)
    then (e ∷ rest.0, rest.1, Option.map suc rest.2)
    else if e.tries_left == 0
    then (no_pending ∷ rest.0, rest.1 + 1, Option.map suc rest.2)
    else (e ∷ es, 0, some 0)

pub due : ApsRetransmit → ℕ → ApsRetransmit × Option ℕ
due t now =
    if t.attached
    then (let (es, dropped, found) = due_from now t.entries in
        (
          record t {
            entries = es;
            stats = record t.stats { dropped = add32 t.stats.dropped dropped };
          },
          found,
        ))
    else (t, none)

-- `entry->used`
abbrev pub is_used : List ApsPending → ℕ → Bool
is_used es i = (get_or es i no_pending).used

-- `if (triesLeft > 0) --triesLeft` and the next attempt
abbrev pub attempted : ℕ → ApsPending → ApsPending
attempted now e = record e {
  tries_left = e.tries_left - 1;
  next_attempt_ms = add32 now e.interval_ms;
}

pub mark_attempted : ApsRetransmit → Option ℕ → ℕ → ApsRetransmit
mark_attempted t none now = t
mark_attempted t (some i) now =
    if is_used t.entries i
    then record t {
      entries = modify t.entries i (attempted now);
      stats = record t.stats { retransmits = add32 t.stats.retransmits 1 };
    }
    else t

pub pending : ApsRetransmit → ℕ
pending t = count (λ e. e.used) t.entries

pub has_pending_for : ApsRetransmit → ℕ → ℕ → Bool
has_pending_for t dst_short src_endpoint =
    t.attached
    && is_some (
        find_index? (λ e. e.used && e.dst_short == dst_short && e.src_endpoint == src_endpoint)
          t.entries)
