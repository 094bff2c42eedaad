-- ===== src/Reporting.antt =====
-- src/ZigbeeReporting.h and src/ZigbeeReporting.cpp: the scheduler of the reports of one boolean attribute.
-- A method that changes its object returns the new one.
pub mod Rate
pub mod Command
mod Tests
use arduino_nrf_zigbee.Prelude.{
  ℕ, ◌*◌, Bool, true, false, not, ◌&&◌, Option, some, if◌then◌else◌, ltb, leb, ◌==◌, sub32,
}
use arduino_nrf_zigbee.Bytes.{Built, refused}
use arduino_nrf_zigbee.Zcl.{build_command_frame, direction_server_to_client}
use arduino_nrf_zigbee.Zcl.Attributes.{build_report_bool_attribute_payload}

abbrev pub frame_profile_wide : ℕ
frame_profile_wide = 0

abbrev pub cmd_report_attributes : ℕ
cmd_report_attributes = 0x0A

pub record BoolReportScheduler : Type 0 where
  pub configured : Bool
  pub attr_id : ℕ
  pub min_interval_sec : ℕ
  pub max_interval_sec : ℕ
  pub last_value : Bool
  pub last_report_ms : ℕ

pub start : BoolReportScheduler
start = record {
  configured = false;
  attr_id = 0;
  min_interval_sec = 0;
  max_interval_sec = 0;
  last_value = false;
  last_report_ms = 0;
}

-- It writes every field.
pub configure : BoolReportScheduler → ℕ → ℕ → ℕ → Bool → ℕ → BoolReportScheduler
configure s attr_id min_interval_sec max_interval_sec current_value now = record {
  configured = true;
  attr_id = attr_id;
  min_interval_sec = min_interval_sec;
  max_interval_sec = max_interval_sec;
  last_value = current_value;
  last_report_ms = now;
}

pub disable : BoolReportScheduler → BoolReportScheduler
disable s = record s { configured = false }

-- 65535 seconds are fewer than 2^32 milliseconds.
abbrev pub seconds_to_ms : ℕ → ℕ
seconds_to_ms seconds = seconds * 1000

-- currentValue != lastValue_
abbrev pub differs : Bool → Bool → Bool
differs true b = not b
differs false b = b

pub should_report : BoolReportScheduler → Bool → ℕ → Bool
should_report s current_value now =
    let elapsed = sub32 now s.last_report_ms in
    if not s.configured
    then false
    else if s.max_interval_sec == 0xFFFF
    then false
    else if differs current_value s.last_value
    then leb (seconds_to_ms s.min_interval_sec) elapsed
    else ltb 0 s.max_interval_sec && leb (seconds_to_ms s.max_interval_sec) elapsed

pub mark_reported : BoolReportScheduler → Bool → ℕ → BoolReportScheduler
mark_reported s current_value now = record s { last_value = current_value; last_report_ms = now }

pub build_report_command : BoolReportScheduler → ℕ → Bool → Bool → ℕ → Built
build_report_command s zcl_sequence current_value out out_max =
    let payload = build_report_bool_attribute_payload true 4 s.attr_id current_value in
    if not s.configured
    then refused
    else if payload.size == 0
    then refused
    else build_command_frame out out_max frame_profile_wide zcl_sequence cmd_report_attributes
        (some payload.written) payload.size direction_server_to_client true
