-- ===== src/NeighborTable/Runs.antt =====
-- ZigbeeNeighborTable of src/ZigbeeTables.cpp under any sequence of calls.
use arduino_nrf_zigbee.Prelude.{ℕ, ◌<◌, List, [], ◌∷◌}
use arduino_nrf_zigbee.NeighborTable.{
  NeighborTable, Report, begin, upsert, remove_by_nwk, remove_older_than, remove_stale_routers,
}
use arduino_nrf_zigbee.NeighborTable.Unique.{
  IsValid, begin-IsValid, upsert-IsValid, remove_by_nwk-IsValid, remove_older_than-IsValid,
  remove_stale_routers-IsValid,
}

pub data Call : Type 0 where
  upserts : Report → ℕ → Call
  removes : ℕ → Call
  drops_older : ℕ → Call
  ages_routers : ℕ → ℕ → Call

pub step : NeighborTable → Call → NeighborTable
step t (upserts r now) = (upsert t r now).0
step t (removes nwk) = (remove_by_nwk t nwk).0
step t (drops_older cutoff) = (remove_older_than t cutoff).0
step t (ages_routers cutoff spare) = (remove_stale_routers t cutoff spare).0

pub run : NeighborTable → List Call → NeighborTable
run t [] = t
run t (c ∷ cs) = run (step t c) cs

step-IsValid : (t : NeighborTable) (c : Call) → IsValid t → IsValid (step t c)
unfolding step
step-IsValid t (upserts r now) v = upsert-IsValid r now v
step-IsValid t (removes nwk) v = remove_by_nwk-IsValid nwk v
step-IsValid t (drops_older cutoff) v = remove_older_than-IsValid cutoff v
step-IsValid t (ages_routers cutoff spare) v = remove_stale_routers-IsValid cutoff spare v

run-IsValid : (t : NeighborTable) (cs : List Call) → IsValid t → IsValid (run t cs)
unfolding run
run-IsValid t [] v = v
run-IsValid t (c ∷ cs) v = run-IsValid (step t c) cs (step-IsValid t c v)

-- After `begin` with at least one slot and any sequence of calls, the table holds at most one entry
-- for each network address.
pub neighbor_run-IsValid :
    (capacity : ℕ) (cs : List Call) → 0 < capacity → IsValid (run (begin capacity) cs)
neighbor_run-IsValid capacity cs h = run-IsValid (begin capacity) cs (begin-IsValid capacity h)
