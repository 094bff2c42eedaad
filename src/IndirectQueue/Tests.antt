-- ===== src/IndirectQueue/Tests.antt =====
-- The theorems on the indirect queue, at a queue of two slots of which one holds a frame.
use arduino_nrf_zigbee.Prelude.{◌≡◌, refl, ◌+◌, true, some, [], ◌∷◌, arith, take, ltb, ◌%◌, ◌^◌}
use arduino_nrf_zigbee.Slots.Target.{Survives}
use arduino_nrf_zigbee.IndirectQueue.Unique.{IsValid}
use arduino_nrf_zigbee.IndirectQueue.{
  IndirectEntry, IndirectQueue, empty_entry, begin, matches, is_free, enqueue, has_pending, expire,
}
use arduino_nrf_zigbee.IndirectQueue.Delivery.{
  run, lookup, enqueues, dequeues, frame_of, indirect_run-IsValid, enqueue-lookup,
}

abbrev entry : IndirectEntry
entry = record {
  used = true;
  child_short = 7;
  expiry_ms = 8000;
  frame_length = 2;
  payload = 1 ∷ 2 ∷ [];
}

abbrev held : IndirectQueue
held = record { attached = true; entries = entry ∷ empty_entry ∷ [] }

held-IsValid : IsValid held
held-IsValid = record { is_attached = refl; nonempty = omega arith; unique = λ c. ground arith }

indirect_run-IsValid_example :
    IsValid (run (begin 2) (enqueues 7 (some (1 ∷ 2 ∷ [])) 2 100 7680 ∷ dequeues 7 ∷ []))
indirect_run-IsValid_example =
    indirect_run-IsValid 2 (enqueues 7 (some (1 ∷ 2 ∷ [])) 2 100 7680 ∷ dequeues 7 ∷ [])
      (omega arith)

enqueue-lookup_example :
    let (t', done) = enqueue held 9 (some (5 ∷ 6 ∷ 7 ∷ [])) 3 200 7680 in
    (done ≡ true)
    × (has_pending t' 9 ≡ true)
    × (frame_of (lookup t' 9) ≡ some (take 3 (5 ∷ 6 ∷ 7 ∷ []), (200 + 7680) % 2 ^ 32))
    × (has_pending (expire t' ((200 + 7000) % 2 ^ 32)).0 9 ≡ ltb 7000 7680)
    × Survives is_free (matches 7) held.entries t'.entries
enqueue-lookup_example =
    enqueue-lookup held 9 7 (5 ∷ 6 ∷ 7 ∷ []) 3 200 7680 7000 held-IsValid (omega arith)
      (omega arith) refl (omega arith) (omega arith)
