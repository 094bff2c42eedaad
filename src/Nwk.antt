-- ===== src/Nwk.antt =====
-- src/ZigbeeNwk.h and src/ZigbeeNwk.cpp: building and parsing NWK frames and command payloads. A
-- builder takes whether `out` is not null; a parser returns the result beside its answer.
pub mod DataFrame
pub mod CommandFrame
pub mod RouteCommands
pub mod DeviceCommands
pub mod Beacon
pub mod SourceRoute
pub mod DataRoundTrip
pub mod RouteRoundTrip
pub mod RecordRoundTrip
pub mod SourceRoundTrip
mod Tests
use Prim.Native.Nat.{bit_or, bit_and}
use arduino_nrf_zigbee.Prelude.{ℕ, ◌+◌, ◌-◌, ◌*◌, ◌^◌}

-- enum NwkFrameType
abbrev pub frame_data : ℕ
frame_data = 0

abbrev pub frame_command : ℕ
frame_command = 1

abbrev pub protocol_version : ℕ
protocol_version = 2

abbrev pub base_header_len : ℕ
base_header_len = 8

abbrev pub max_frame : ℕ
max_frame = 116

abbrev pub max_payload : ℕ
max_payload = max_frame - base_header_len

-- The frame control field that the builders compose, before the source-route bit.
abbrev pub frame_control : ℕ → ℕ → ℕ
frame_control frame_type discover_route =
    bit_or (bit_or frame_type (protocol_version * 2 ^ 2)) (bit_and discover_route 0x03 * 2 ^ 6)
