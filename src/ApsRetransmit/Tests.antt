-- ===== src/ApsRetransmit/Tests.antt =====
-- The theorems on the retransmission table, at a table of two slots of which one holds a frame.
use arduino_nrf_zigbee.Prelude.{◌≡◌, refl, ◌+◌, ◌%◌, ◌^◌, some, [], ◌∷◌, get_elem?, ◌<◌, true, ◌-◌}
use arduino_nrf_zigbee.ApsRetransmit.{
  ApsPending, ApsRetransmit, no_pending, begin, registered, due_from, due, no_stats,
}
use arduino_nrf_zigbee.ApsRetransmit.Accounts.{
  run, IsBalanced, adds, acks, retransmit_run-IsBalanced,
}
use arduino_nrf_zigbee.ApsRetransmit.Attempts.{tries, serve, serve_all, serve_all-tries, due_lem}

abbrev held : ApsRetransmit
held = record {
  attached = true;
  entries = registered 7 40 1 (1 ∷ 2 ∷ []) 2 3 50 100 ∷ no_pending ∷ [];
  stats = no_stats;
}

retransmit_run-IsBalanced_example :
    IsBalanced (run (begin 2) (adds 7 40 1 (some (1 ∷ 2 ∷ [])) 2 3 50 100 ∷ acks 40 1 ∷ []))
retransmit_run-IsBalanced_example =
    retransmit_run-IsBalanced 2 (adds 7 40 1 (some (1 ∷ 2 ∷ [])) 2 3 50 100 ∷ acks 40 1 ∷ [])

serve_all-tries_example :
    tries (serve_all held (200 ∷ 300 ∷ [])).0.entries + (serve_all held (200 ∷ 300 ∷ [])).1
    ≡ tries held.entries
serve_all-tries_example = serve_all-tries held (200 ∷ 300 ∷ [])

due_lem_example :
    (x : ApsPending) × (get_elem? held.entries 0 ≡ some x)
    × (x.used ≡ true)
    × ((200 + 2 ^ 32 - x.next_attempt_ms) % 2 ^ 32 < 2 ^ 31)
    × (0 < x.tries_left)
    × (get_elem? (serve held 200).0.entries 0
        ≡ some (record x {
          tries_left = x.tries_left - 1;
          next_attempt_ms = (200 + x.interval_ms) % 2 ^ 32;
        }))
unfolding due due_from
due_lem_example = due_lem held 200 0 refl
