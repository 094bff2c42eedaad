-- ===== src/BroadcastTable/Retries.antt =====
-- src/ZigbeeBroadcastTable.h: what `due` answers, and how often the driver rebroadcasts.
use arduino_nrf_zigbee.Prelude.{
  ℕ, zero, suc, ◌≡◌, ◌+◌, ◌-◌, ◌*◌, ◌<◌, ◌≤◌, Bool, true, false, none, some, List, [], ◌∷◌, inl,
  inr, arith, if◌then◌else◌, sub32, length, get_elem?, Option-cases,
}
use arduino_nrf_zigbee.Slots.{modify}
use arduino_nrf_zigbee.Slots.Find.{find_index?-some}
use arduino_nrf_zigbee.Slots.Place.{get_elem?-modify_self}
use arduino_nrf_zigbee.BroadcastTable.{
  BroadcastEntry, BroadcastTable, is_due, due, retried, mark_rebroadcast,
}

-- How the driver uses the table at one moment: rebroadcast what is due, and say so. The flag is
-- whether a frame went out.
pub serve : BroadcastTable → ℕ → ℕ → ℕ → ℕ → BroadcastTable × Bool
serve t needed_acks retry_ms max_retries now = elim (due t now needed_acks retry_ms max_retries) [
  | none ↦ (t, false)
  | some i ↦ (mark_rebroadcast t (some i) now, true)
]

-- The number of frames sent over a sequence of moments.
pub serve_all : BroadcastTable → ℕ → ℕ → ℕ → List ℕ → BroadcastTable × ℕ
serve_all t needed_acks retry_ms max_retries [] = (t, 0)
serve_all t needed_acks retry_ms max_retries (now ∷ later) =
    let (t₁, sent) = serve t needed_acks retry_ms max_retries now in
    let (t₂, n) = serve_all t₁ needed_acks retry_ms max_retries later in
    (t₂, (if sent then 1 else 0) + n)

-- the retries left, over all entries
abbrev budget : ℕ → List BroadcastEntry → ℕ
budget max_retries [] = 0
budget max_retries (e ∷ es) = max_retries - e.retries + budget max_retries es

budget-le :
    (max_retries : ℕ) (es : List BroadcastEntry) → budget max_retries es ≤ max_retries * length es
budget-le m [] = omega arith
budget-le m (e ∷ es) = omega (arith, budget-le m es)

budget-modify :
    (m now : ℕ) (es : List BroadcastEntry) (i : ℕ) {x : BroadcastEntry}
    → get_elem? es i ≡ some x
    → x.retries < m
    → m ≤ 255
    → budget m (modify es i (retried now)) + 1 ≡ budget m es
budget-modify m now [] i at h b = absurd (cc)
budget-modify m now (y ∷ ys) zero at h b = ground arith
budget-modify m now (y ∷ ys) (suc i) at h b = omega (arith, budget-modify m now ys i at h b)

budget-serve :
    (t : BroadcastTable) (a r m now : ℕ)
    → m ≤ 255
    → budget m (serve t a r m now).0.entries + (if (serve t a r m now).1 then 1 else 0)
      ≡ budget m t.entries
unfolding serve due mark_rebroadcast
budget-serve t a r m now b = elim (Option-cases (due t now a r m)) [
  | inl e ↦ rw (e, serve) (omega arith)
  | inr (i, e) ↦
      let (x, at, hit, _) = find_index?-some (is_due now a r m) t.entries i (ground arith) in
      rw (e, serve) (budget-modify m now t.entries i at (ground arith) b)
]

serve_all-budget :
    (t : BroadcastTable) (a r m : ℕ) (times : List ℕ)
    → m ≤ 255
    → (serve_all t a r m times).1 ≤ budget m t.entries
unfolding serve_all
serve_all-budget t a r m [] b = omega arith
serve_all-budget t a r m (now ∷ later) b =
    omega (arith, budget-serve t a r m now b, serve_all-budget (serve t a r m now).0 a r m later b)

-- Whatever the times at which the driver asks, and as long as no frame arrives meanwhile, it
-- rebroadcasts at most `max_retries` (a uint8_t) times for each slot of the table.
pub serve_all_bounded :
    (t : BroadcastTable) (needed_acks retry_ms max_retries : ℕ) (times : List ℕ)
    → max_retries ≤ 255
    → (serve_all t needed_acks retry_ms max_retries times).1 ≤ max_retries * length t.entries
serve_all_bounded t a r m times b =
    omega (arith, serve_all-budget t a r m times b, budget-le m t.entries)

-- A rebroadcast goes out only for an entry in use that has retries left and too few passive acks and
-- whose retry window is over; it is then not due again before the window has passed once more.
pub serve_quiet :
    (t : BroadcastTable) (needed_acks retry_ms max_retries now later i : ℕ)
    → due t now needed_acks retry_ms max_retries ≡ some i
    → sub32 later now < retry_ms
    → (x : BroadcastEntry) × (get_elem? t.entries i ≡ some x)
      × (is_due now needed_acks retry_ms max_retries x ≡ true)
      × (get_elem? (serve t needed_acks retry_ms max_retries now).0.entries i
          ≡ some (retried now x))
      × (is_due later needed_acks retry_ms max_retries (retried now x) ≡ false)
unfolding serve mark_rebroadcast due
serve_quiet t a r m now later i e window =
    let (x, at, hit, _) = find_index?-some (is_due now a r m) t.entries i (ground arith) in
    (x, at, hit, served x at, ground arith)
  where
    served :
        (x : BroadcastEntry)
        → get_elem? t.entries i ≡ some x
        → get_elem? (serve t a r m now).0.entries i ≡ some (retried now x)
    served x at = rw (e, serve) (get_elem?-modify_self t.entries i (retried now) at)
