-- ===== src/Reporting/Rate.antt =====
-- ZigbeeBoolReportScheduler of src/ZigbeeReporting.cpp: how often it reports.
use arduino_nrf_zigbee.Prelude.{
  ℕ, ◌≡◌, inl, inr, ◌+◌, ◌*◌, ◌^◌, ◌<◌, ◌≤◌, min, Bool, true, List, [], ◌∷◌, if◌then◌else◌, ◌==◌,
  arith, add32, sub32, to_nat, Bool-cases, IsU32,
}
use arduino_nrf_zigbee.Reporting.{BoolReportScheduler, should_report, mark_reported, seconds_to_ms}

-- The value of the attribute, and the milliseconds since the last time it was looked at.
pub record Poll : Type 0 where
  pub value : Bool
  pub delay : ℕ

-- The driver reports where the scheduler says so: the new scheduler, and whether it did.
pub serve : BoolReportScheduler → Bool → ℕ → BoolReportScheduler × Bool
serve s value now =
    let due = should_report s value now in (if due then mark_reported s value now else s, due)

-- The number of reports over some polls, from the time `now` on.
pub reports : BoolReportScheduler → ℕ → List Poll → ℕ
reports s now [] = 0
reports s now (p ∷ polls) =
    let (s', due) = serve s p.value (add32 now p.delay) in
    to_nat due + reports s' (add32 now p.delay) polls

abbrev pub duration : List Poll → ℕ
duration [] = 0
duration (p ∷ polls) = p.delay + duration polls

-- The shortest time between two reports.
abbrev pub gap : BoolReportScheduler → ℕ
gap s =
    if s.max_interval_sec == 0
    then seconds_to_ms s.min_interval_sec
    else min (seconds_to_ms s.min_interval_sec) (seconds_to_ms s.max_interval_sec)

elapsed-add :
    (now last delay : ℕ)
    → IsU32 now
    → IsU32 last
    → sub32 now last + delay < 2 ^ 32
    → sub32 (add32 now delay) last ≡ sub32 now last + delay
elapsed-add now last delay n l h = omega arith

due-gap :
    (s : BoolReportScheduler) (value : Bool) (now : ℕ)
    → should_report s value now ≡ true
    → gap s ≤ sub32 now s.last_report_ms
unfolding should_report
due-gap s value now h = ground (arith, h)

-- Over any polls, less than 2^32 milliseconds in all since the last report, a scheduler sends no more
-- reports than fit into that time with its shortest interval between them, also where the clock wraps.
pub reports_bounded :
    (s : BoolReportScheduler) (now : ℕ) (polls : List Poll)
    → IsU32 now
    → IsU32 s.last_report_ms
    → sub32 now s.last_report_ms + duration polls < 2 ^ 32
    → reports s now polls * gap s ≤ sub32 now s.last_report_ms + duration polls
unfolding reports serve mark_reported
reports_bounded s now [] n l h = omega arith
reports_bounded s now (p ∷ polls) n l h =
    let now' : ℕ = add32 now p.delay in
    let later = elapsed-add now s.last_report_ms p.delay n l (omega arith) in
    elim (Bool-cases (should_report s p.value now')) [
      | inr quiet ↦
          rw (reports, serve, quiet)
            (omega
              (arith, later, reports_bounded s now' polls (omega arith) l (omega (arith, later))))
      | inl due ↦
          let after : BoolReportScheduler = mark_reported s p.value now' in
          let fresh : sub32 now' now' ≡ 0 = omega arith in
          let spaced = due-gap s p.value now' due in
          let rest : reports after now' polls * gap s ≤ sub32 now' now' + duration polls =
            reports_bounded after now' polls (omega arith) (omega arith) (omega (arith, fresh)) in
          rw (reports, serve, due) (omega (arith, spaced, rest, fresh, later))
    ]
