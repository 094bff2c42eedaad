-- ===== src/Reporting/Command.antt =====
-- ZigbeeBoolReportScheduler::buildReportCommand of src/ZigbeeReporting.cpp, read by the ZCL parsers.
use arduino_nrf_zigbee.Prelude.{
  ℕ, ◌≡◌, refl, ap, ◌∙◌, ◌≤◌, Bool, true, false, some, List, [], ◌∷◌, ◌++◌, arith, IsU16,
  if◌then◌else◌,
}
use arduino_nrf_zigbee.Bytes.{Built, write_le16}
use arduino_nrf_zigbee.Bytes.RoundTrip.{le16}
use arduino_nrf_zigbee.Zcl.{build_command_frame, parse_frame}
use arduino_nrf_zigbee.Zcl.FrameRoundTrip.{zcl_round_trip}
use arduino_nrf_zigbee.Zcl.Attributes.{
  build_report_bool_attribute_payload, parse_report_bool_attribute_payload,
}
use arduino_nrf_zigbee.Reporting.{
  BoolReportScheduler, build_report_command, frame_profile_wide, cmd_report_attributes,
}

-- The payload of the report.
abbrev report_bytes : ℕ → Bool → List ℕ
report_bytes attr value = write_le16 attr ++ (0x10 ∷ (if value then 1 else 0) ∷ [])

parse-report :
    (attr old_attr : ℕ) (value old_value : Bool)
    → IsU16 attr
    → parse_report_bool_attribute_payload (some (report_bytes attr value)) 4 old_attr old_value
      ≡ ((attr, value), true)
unfolding parse_report_bool_attribute_payload
parse-report attr old_attr true old_value w =
    rw (parse_report_bool_attribute_payload, le16 attr w) refl
parse-report attr old_attr false old_value w =
    rw (parse_report_bool_attribute_payload, le16 attr w) refl

command-report :
    (s : BoolReportScheduler) (sequence out_max : ℕ) (value : Bool)
    → s.configured ≡ true
    → build_report_command s sequence value true out_max
      ≡ build_command_frame true out_max frame_profile_wide sequence cmd_report_attributes
          (some (report_bytes s.attr_id value))
          4
          1
          true
unfolding build_report_command build_report_bool_attribute_payload
command-report s sequence out_max value c = rw (build_report_command, c) refl

-- The report of a configured scheduler, whose attribute id has 16 bits, built into a buffer of at
-- least 7 bytes, is parsed as a profile wide frame (type 0) with the Report Attributes command
-- (0x0a), from the server to the client, that asks for no default response, and its payload as the
-- attribute of the scheduler and the value reported.
pub report_command_round_trip :
    (s : BoolReportScheduler) (zcl_sequence out_max old_attr : ℕ) (value old_value : Bool)
    → s.configured ≡ true
    → 7 ≤ out_max
    → IsU16 s.attr_id
    → let b = build_report_command s zcl_sequence value true out_max in
      let (frame, parsed) = parse_frame (some b.written) b.size in
      (parsed ≡ true)
      × (frame.valid ≡ true)
      × (frame.frame_type ≡ 0x00)
      × (frame.manufacturer_specific ≡ false)
      × (frame.command_id ≡ 0x0a)
      × (frame.sequence ≡ zcl_sequence)
      × (frame.direction ≡ 1)
      × (frame.disable_default_response ≡ true)
      × (parse_report_bool_attribute_payload frame.payload frame.payload_len old_attr old_value
          ≡ ((s.attr_id, value), true))
report_command_round_trip s sequence out_max old_attr value old_value c room w =
    let whole =
      ap (λ (b : Built). parse_frame (some b.written) b.size)
        (command-report s sequence out_max value c)
      ∙ zcl_round_trip out_max frame_profile_wide sequence cmd_report_attributes
          (report_bytes s.attr_id value) 1 true room (omega arith) (omega arith) (omega arith) in
    (
      ap (λ p. p.1) whole,
      ap (λ p. p.0.valid) whole,
      ap (λ p. p.0.frame_type) whole,
      ap (λ p. p.0.manufacturer_specific) whole,
      ap (λ p. p.0.command_id) whole,
      ap (λ p. p.0.sequence) whole,
      ap (λ p. p.0.direction) whole,
      ap (λ p. p.0.disable_default_response) whole,
      ap (λ p. parse_report_bool_attribute_payload p.0.payload p.0.payload_len old_attr old_value)
            whole
          ∙ parse-report s.attr_id old_attr value old_value w,
    )
