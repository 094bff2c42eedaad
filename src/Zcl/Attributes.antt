-- ===== src/Zcl/Attributes.antt =====
-- src/ZigbeeZcl.cpp: the payloads of the general commands that read, write and report attributes. An
-- int16_t is given by its bits. A parser that fails leaves its out-parameters as they are, so that its
-- result is `none`; the one that does not is given their values before the call.
use arduino_nrf_zigbee.Prelude.{
  ℕ, ◌+◌, ◌-◌, ◌*◌, Bool, true, false, not, ◌||◌, Option, none, some, List, [], ◌∷◌, ◌++◌,
  if◌then◌else◌, ltb, ◌==◌, is_some, length, take, u8,
}
use arduino_nrf_zigbee.Bytes.{Built, refused, byte_at, read_le16_at, write_le16, bytes_of}

abbrev pub status_success : ℕ
status_success = 0x00

abbrev pub report_direction_reported : ℕ
report_direction_reported = 0x00

abbrev pub type_boolean : ℕ
type_boolean = 0x10

abbrev pub type_uint8 : ℕ
type_uint8 = 0x20

abbrev pub type_uint16 : ℕ
type_uint16 = 0x21

abbrev pub type_int16 : ℕ
type_int16 = 0x29

abbrev pub type_char_string : ℕ
type_char_string = 0x42

abbrev pub write_ids : List ℕ → List ℕ
write_ids [] = []
write_ids (a ∷ attr_ids) = write_le16 a ++ write_ids attr_ids

-- The guards on `outMax` that the builders share: `bytes` of a fixed number.
abbrev pub fixed : Bool → ℕ → ℕ → List ℕ → Built
fixed out out_max n bytes =
    if not out || ltb out_max n then refused else record { size = n; written = bytes }

unfoldable pub build_read_attributes_payload : Bool → ℕ → Option (List ℕ) → ℕ → Built
build_read_attributes_payload out out_max attr_ids attr_count =
    if not out || (not (is_some attr_ids) || attr_count == 0)
    then refused
    else if ltb out_max (attr_count * 2)
    then refused
    else record {
      size = u8 (attr_count * 2);
      written = write_ids (take attr_count (bytes_of attr_ids));
    }

unfoldable pub get_read_attribute_id : Option (List ℕ) → ℕ → ℕ → Option ℕ
get_read_attribute_id payload payload_len index =
    let offset = u8 (index * 2) in
    if not (is_some payload) || (ltb payload_len offset || ltb (payload_len - offset) 2)
    then none
    else some (read_le16_at (bytes_of payload) offset)

pub build_default_response_payload : Bool → ℕ → ℕ → ℕ → Built
build_default_response_payload out out_max command_id status =
    fixed out out_max 2 (command_id ∷ status ∷ [])

pub parse_default_response_payload : Option (List ℕ) → ℕ → Option (ℕ × ℕ)
parse_default_response_payload none payload_len = none
parse_default_response_payload (some payload) payload_len =
    if ltb payload_len 2 then none else some (byte_at payload 0, byte_at payload 1)

pub build_attribute_status_record : Bool → ℕ → ℕ → ℕ → Built
build_attribute_status_record out out_max attr_id status =
    fixed out out_max 3 (write_le16 attr_id ++ (status ∷ []))

pub build_bool_attribute_record : Bool → ℕ → ℕ → Bool → Built
build_bool_attribute_record out out_max attr_id value =
    fixed out out_max 5
      (write_le16 attr_id ++ (status_success ∷ type_boolean ∷ (if value then 1 else 0) ∷ []))

pub build_uint8_attribute_record : Bool → ℕ → ℕ → ℕ → Built
build_uint8_attribute_record out out_max attr_id value =
    fixed out out_max 5 (write_le16 attr_id ++ (status_success ∷ type_uint8 ∷ value ∷ []))

pub build_uint16_attribute_record : Bool → ℕ → ℕ → ℕ → Built
build_uint16_attribute_record out out_max attr_id value =
    fixed out out_max 6 (write_le16 attr_id ++ (status_success ∷ type_uint16 ∷ write_le16 value))

pub build_int16_attribute_record : Bool → ℕ → ℕ → ℕ → Built
build_int16_attribute_record out out_max attr_id value =
    fixed out out_max 6 (write_le16 attr_id ++ (status_success ∷ type_int16 ∷ write_le16 value))

pub build_typed8_attribute_record : Bool → ℕ → ℕ → ℕ → ℕ → Built
build_typed8_attribute_record out out_max attr_id type value =
    fixed out out_max 5 (write_le16 attr_id ++ (status_success ∷ type ∷ value ∷ []))

pub build_report_uint16_attribute_payload : Bool → ℕ → ℕ → ℕ → Built
build_report_uint16_attribute_payload out out_max attr_id value =
    fixed out out_max 5 (write_le16 attr_id ++ (type_uint16 ∷ write_le16 value))

pub build_report_int16_attribute_payload : Bool → ℕ → ℕ → ℕ → Built
build_report_int16_attribute_payload out out_max attr_id value =
    fixed out out_max 5 (write_le16 attr_id ++ (type_int16 ∷ write_le16 value))

-- `value` is the string without its end; `strlen` is its length.
pub build_char_string_attribute_record : Bool → ℕ → ℕ → Option (List ℕ) → Built
build_char_string_attribute_record out out_max attr_id none = refused
build_char_string_attribute_record out out_max attr_id (some value) =
    let len = if ltb 255 (length value) then 255 else length value in
    if not out || ltb out_max (5 + len) then refused else record {
      size = u8 (5 + len);
      written =
          write_le16 attr_id ++ (status_success ∷ type_char_string ∷ u8 len ∷ take (u8 len) value);
    }

unfoldable pub build_report_bool_attribute_payload : Bool → ℕ → ℕ → Bool → Built
build_report_bool_attribute_payload out out_max attr_id value =
    fixed out out_max 4 (write_le16 attr_id ++ (type_boolean ∷ (if value then 1 else 0) ∷ []))

-- What the parser leaves in `attrId` and `value`, which hold `attr_id` and `value` before.
unfoldable pub parse_report_bool_attribute_payload :
    Option (List ℕ) → ℕ → ℕ → Bool → (ℕ × Bool) × Bool
parse_report_bool_attribute_payload none payload_len attr_id value = ((attr_id, value), false)
parse_report_bool_attribute_payload (some payload) payload_len attr_id value =
    if ltb payload_len 4
    then ((attr_id, value), false)
    else if not (byte_at payload 2 == type_boolean)
    then ((read_le16_at payload 0, value), false)
    else ((read_le16_at payload 0, not (byte_at payload 3 == 0)), true)

unfoldable pub build_configure_reporting_bool_payload : Bool → ℕ → ℕ → ℕ → ℕ → Built
build_configure_reporting_bool_payload out out_max attr_id min_interval_sec max_interval_sec =
    fixed out out_max 8 (
      report_direction_reported
      ∷ (write_le16 attr_id
          ++ (type_boolean ∷ (write_le16 min_interval_sec ++ write_le16 max_interval_sec))))

-- `attrId`, `minIntervalSec` and `maxIntervalSec`
unfoldable pub parse_configure_reporting_bool_payload : Option (List ℕ) → ℕ → Option (ℕ × ℕ × ℕ)
parse_configure_reporting_bool_payload none payload_len = none
parse_configure_reporting_bool_payload (some payload) payload_len =
    if ltb payload_len 8
    then none
    else if not (byte_at payload 0 == report_direction_reported)
    then none
    else if not (byte_at payload 3 == type_boolean)
    then none
    else some (read_le16_at payload 1, read_le16_at payload 4, read_le16_at payload 6)

pub build_configure_reporting_response_payload : Bool → ℕ → ℕ → ℕ → ℕ → Built
build_configure_reporting_response_payload out out_max status direction attr_id =
    if status == status_success
    then refused
    else fixed out out_max 4 (status ∷ direction ∷ write_le16 attr_id)

-- `status`, `direction` and `attrId`
pub parse_configure_reporting_status_record : Option (List ℕ) → ℕ → Option (ℕ × ℕ × ℕ)
parse_configure_reporting_status_record none payload_len = none
parse_configure_reporting_status_record (some payload) payload_len =
    if ltb payload_len 4
    then none
    else some (byte_at payload 0, byte_at payload 1, read_le16_at payload 2)

abbrev pub on_off_cmd_off : ℕ
on_off_cmd_off = 0x00

abbrev pub on_off_cmd_on : ℕ
on_off_cmd_on = 0x01

abbrev pub on_off_cmd_toggle : ℕ
on_off_cmd_toggle = 0x02

-- `on` after the call, and the result.
pub apply_on_off_command : ℕ → Bool → Bool × Bool
apply_on_off_command command_id on =
    if command_id == on_off_cmd_off
    then (false, true)
    else if command_id == on_off_cmd_on
    then (true, true)
    else if command_id == on_off_cmd_toggle
    then (not on, true)
    else (on, false)
