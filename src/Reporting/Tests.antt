-- ===== src/Reporting/Tests.antt =====
-- The theorems on the report scheduler, at one that was configured for the on/off attribute.
use arduino_nrf_zigbee.Prelude.{
  ◌≡◌, ◌+◌, ◌*◌, ◌≤◌, true, List, [], ◌∷◌, arith, sub32, refl, false, some,
}
use arduino_nrf_zigbee.Reporting.{BoolReportScheduler, build_report_command}
use arduino_nrf_zigbee.Zcl.{parse_frame}
use arduino_nrf_zigbee.Zcl.Attributes.{parse_report_bool_attribute_payload}
use arduino_nrf_zigbee.Reporting.Rate.{Poll, reports, gap, duration, reports_bounded}
use arduino_nrf_zigbee.Reporting.Command.{report_command_round_trip}

abbrev scheduler : BoolReportScheduler
scheduler = record {
  configured = true;
  attr_id = 0;
  min_interval_sec = 1;
  max_interval_sec = 60;
  last_value = false;
  last_report_ms = 4294967000;
}

abbrev polls : List Poll
polls = record { value = true; delay = 1500 } ∷ record { value = false; delay = 500 } ∷ []

reports_bounded_example :
    reports scheduler 4294967200 polls * gap scheduler
    ≤ sub32 4294967200 scheduler.last_report_ms + duration polls
reports_bounded_example =
    reports_bounded scheduler 4294967200 polls (omega arith) (omega arith) (omega arith)

report_command_round_trip_example :
    let b = build_report_command scheduler 9 true true 100 in
    let (frame, parsed) = parse_frame (some b.written) b.size in
    (parsed ≡ true)
    × (frame.valid ≡ true)
    × (frame.frame_type ≡ 0x00)
    × (frame.manufacturer_specific ≡ false)
    × (frame.command_id ≡ 0x0a)
    × (frame.sequence ≡ 9)
    × (frame.direction ≡ 1)
    × (frame.disable_default_response ≡ true)
    × (parse_report_bool_attribute_payload frame.payload frame.payload_len 5 false
        ≡ ((scheduler.attr_id, true), true))
report_command_round_trip_example =
    report_command_round_trip scheduler 9 100 5 true false refl (omega arith) (omega arith)
