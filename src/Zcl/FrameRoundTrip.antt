-- ===== src/Zcl/FrameRoundTrip.antt =====
-- src/ZigbeeZcl.cpp: the frames of buildCommandFrame, read by parseFrame.
use Prim.Native.Nat.{bit_and}
use arduino_nrf_zigbee.Prelude.{
  refl, ◌^◌, u8, ltb, ℕ, zero, suc, ◌≡◌, ap, ◌∙◌, ◌+◌, ◌≤◌, Bool, true, false, some, List, ◌∷◌,
  arith, length, take-length, ◌==◌, if◌then◌else◌,
}
use arduino_nrf_zigbee.Bytes.{Built, has_bit}
use arduino_nrf_zigbee.Zcl.{with_flag, build_command_frame, parse_frame}

abbrev fcf_of : ℕ → ℕ → Bool → ℕ
fcf_of type direction disable =
    type + (if direction == 1 then 8 else 0) + (if disable then 16 else 0)

-- The frame control of the builder, and what the parser reads of it.
control_lem :
    (type direction : ℕ) (disable : Bool)
    → type ≤ 1
    → direction ≤ 1
    → (with_flag disable (2 ^ 4) (with_flag (direction == 1) (2 ^ 3) (u8 (bit_and type 0x03)))
        ≡ fcf_of type direction disable)
      × (u8 (bit_and (fcf_of type direction disable) 0x03) ≡ type)
      × (has_bit (fcf_of type direction disable) (2 ^ 2) ≡ false)
      × ((if has_bit (fcf_of type direction disable) (2 ^ 3) then 1 else 0) ≡ direction)
      × (has_bit (fcf_of type direction disable) (2 ^ 4) ≡ disable)
control_lem zero zero true t d = (refl, refl, refl, refl, refl)
control_lem zero zero false t d = (refl, refl, refl, refl, refl)
control_lem zero (suc zero) true t d = (refl, refl, refl, refl, refl)
control_lem zero (suc zero) false t d = (refl, refl, refl, refl, refl)
control_lem (suc zero) zero true t d = (refl, refl, refl, refl, refl)
control_lem (suc zero) zero false t d = (refl, refl, refl, refl, refl)
control_lem (suc zero) (suc zero) true t d = (refl, refl, refl, refl, refl)
control_lem (suc zero) (suc zero) false t d = (refl, refl, refl, refl, refl)
control_lem zero (suc (suc k)) disable t d = absurd (omega arith)
control_lem (suc zero) (suc (suc k)) disable t d = absurd (omega arith)
control_lem (suc (suc k)) direction disable t d = absurd (omega arith)

-- A frame for a cluster or for the whole profile, built in either direction into a buffer with room for it
-- and with a payload of at most 97 bytes, parses as the frame that was asked for, with its payload byte
-- for byte and no manufacturer code.
pub zcl_round_trip :
    (out_max frame_type sequence command_id : ℕ) (payload : List ℕ) (direction : ℕ)
    (disable_default_response : Bool)
    → 3 + length payload ≤ out_max
    → length payload ≤ 97
    → frame_type ≤ 1
    → direction ≤ 1
    → let b =
        build_command_frame true out_max frame_type sequence command_id
          (some payload)
          (length payload)
          direction
          disable_default_response in
      parse_frame (some b.written) b.size ≡ (
        record {
          valid = true;
          frame_type = frame_type;
          manufacturer_specific = false;
          manufacturer_code = 0;
          direction = direction;
          disable_default_response = disable_default_response;
          sequence = sequence;
          command_id = command_id;
          payload = some payload;
          payload_len = length payload;
        },
        true,
      )
unfolding build_command_frame parse_frame
zcl_round_trip out_max type sequence command payload direction disable room small t d =
    let (fcf, type_read, no_code, dir_read, disable_read) =
      control_lem type direction disable t d in
    let type_ok : ltb 1 type ≡ false = ground arith in
    let dir_ok : ltb 1 direction ≡ false = ground arith in
    let built : build_command_frame true out_max type sequence command (some payload)
          (length payload) direction disable
        ≡ record {
          size = 3 + length payload;
          written = fcf_of type direction disable ∷ sequence ∷ command ∷ payload;
        } =
      rw (build_command_frame, take-length, fcf, type_ok, dir_ok) (ground arith) in
    ap (λ (b : Built). parse_frame (some b.written) b.size) built
    ∙ rw (parse_frame, type_read, no_code, type_ok, dir_read, disable_read) (ground arith)
