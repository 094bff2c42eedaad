-- ===== src/BroadcastTable/Tests.antt =====
-- The theorems on the broadcast table, at a table of two slots of which one holds a transaction.
use arduino_nrf_zigbee.Prelude.{
  ◌≡◌, refl, true, false, some, [], ◌∷◌, arith, ltb, ◌+◌, if◌then◌else◌, ◌*◌, ◌≤◌, length,
}
use arduino_nrf_zigbee.BroadcastTable.Unique.{IsValid}
use arduino_nrf_zigbee.BroadcastTable.{
  BroadcastEntry, BroadcastTable, begin, fresh_entry, record_incoming, empty_entry,
}
use arduino_nrf_zigbee.BroadcastTable.Transactions.{
  lookup, run, KeptTransaction, incoming, outgoing, broadcast_run-IsValid, record_incoming_new,
  record_incoming_duplicate,
}
use arduino_nrf_zigbee.BroadcastTable.Retries.{serve_all, serve_all_bounded}

abbrev entry : BroadcastEntry
entry = record {
  used = true;
  source = 7;
  sequence = 3;
  first_seen_ms = 100;
  last_tx_ms = 100;
  retries = 0;
  passive_acks = 0;
}

abbrev held : BroadcastTable
held = record { attached = true; entries = entry ∷ empty_entry ∷ [] }

held-IsValid : IsValid held
held-IsValid = record { is_attached = refl; nonempty = omega arith; unique = λ s q. ground arith }

broadcast_run-IsValid_example : IsValid (run (begin 2) (incoming 7 3 100 ∷ outgoing 9 4 200 ∷ []))
broadcast_run-IsValid_example =
    broadcast_run-IsValid 2 (incoming 7 3 100 ∷ outgoing 9 4 200 ∷ []) (omega arith)

record_incoming_new_example :
    let (t', is_new) = record_incoming held 8 5 900 in
    (is_new ≡ true) × (lookup t' 8 5 ≡ some (fresh_entry 8 5 900)) × KeptTransaction held 900 t' 7 3
record_incoming_new_example = record_incoming_new held 8 5 900 7 3 held-IsValid refl refl

record_incoming_duplicate_example :
    let (t', is_new) = record_incoming held 7 3 900 in
    (is_new ≡ false)
    × (lookup t' 7 3
        ≡ some (record entry {
          passive_acks =
              if ltb entry.passive_acks 255 then entry.passive_acks + 1 else entry.passive_acks;
        }))
    × (lookup t' 8 5 ≡ lookup held 8 5)
record_incoming_duplicate_example =
    record_incoming_duplicate held 7 3 900 8 5 entry held-IsValid refl refl

serve_all_bounded_example :
    (serve_all held 2 50 3 (200 ∷ 300 ∷ 400 ∷ [])).1 ≤ 3 * length held.entries
serve_all_bounded_example = serve_all_bounded held 2 50 3 (200 ∷ 300 ∷ 400 ∷ []) (omega arith)
