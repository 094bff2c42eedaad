-- ===== src/Mac/AssociationRoundTrip.antt =====
-- src/ZigbeeMac.cpp: the exchange by which a device associates, and the poll of a sleepy child.
use Prim.Native.Nat.{bit_or}
use arduino_nrf_zigbee.Prelude.{
  get_or, drop, ◌*◌, ◌/◌, ◌%◌, ℕ, ◌≡◌, refl, ap, ◌∙◌, ◌^◌, ◌<◌, ◌≤◌, Bool, true, false, some, List,
  [], ◌∷◌, ◌++◌, arith, IsU16, ltb, ◌==◌, if◌then◌else◌,
}
use arduino_nrf_zigbee.Bytes.{Built, read_le64, read_le16_at, write_le16, write_le64}
use arduino_nrf_zigbee.Bytes.RoundTrip.{le16, le64, after_le64}
use arduino_nrf_zigbee.Mac.Capability.{capability_bits}
use arduino_nrf_zigbee.Mac.Command.{
  MacCommandFrame, no_command, build_association_request, build_association_response,
  parse_command_frame, parse_association_request, parse_association_response,
  cmd_association_request, cmd_association_response,
}

-- What the command of each of the three builders parses as.
abbrev pub request_frame : ℕ → ℕ → ℕ → ℕ → ℕ → Bool → MacCommandFrame
request_frame pan coordinator ieee sequence capability ack = record no_command {
  valid = true;
  frame_type = 3;
  sequence = sequence;
  ack_request = ack;
  pan_id_compression = true;
  dst_addr_mode = 2;
  src_addr_mode = 3;
  dst_pan_id = pan;
  dst_short = coordinator;
  src_pan_id = pan;
  src_ieee = ieee;
  command_id = cmd_association_request;
  payload = some (capability ∷ []);
  payload_len = 1;
}

abbrev pub response_frame : ℕ → ℕ → ℕ → ℕ → ℕ → ℕ → Bool → MacCommandFrame
response_frame pan ieee coordinator sequence assigned status ack = record no_command {
  valid = true;
  frame_type = 3;
  sequence = sequence;
  ack_request = ack;
  pan_id_compression = true;
  dst_addr_mode = 3;
  src_addr_mode = 2;
  dst_pan_id = pan;
  dst_ieee = ieee;
  src_pan_id = pan;
  src_short = coordinator;
  command_id = cmd_association_response;
  payload = some (write_le16 assigned ++ (status ∷ []));
  payload_len = 3;
}

request_built :
    (out_max pan coordinator ieee sequence capability : ℕ) (ack : Bool)
    → 17 ≤ out_max
    → build_association_request true out_max pan coordinator ieee sequence capability ack ≡ record {
      size = 17;
      written =
          (if ack then 0x63 else 0x43)
          ∷ 0xd8
          ∷ sequence
          ∷ (write_le16 pan
              ++ (write_le16 coordinator
                  ++ (write_le64 ieee ++ (cmd_association_request ∷ capability ∷ []))));
    }
unfolding build_association_request
request_built out_max pan coordinator ieee sequence capability true room =
    let fits : ltb out_max 17 ≡ false = ground arith in rw (build_association_request, fits) refl
request_built out_max pan coordinator ieee sequence capability false room =
    let fits : ltb out_max 17 ≡ false = ground arith in rw (build_association_request, fits) refl

response_built :
    (out_max pan ieee coordinator sequence assigned status : ℕ) (ack : Bool)
    → 19 ≤ out_max
    → build_association_response true out_max pan ieee coordinator sequence assigned status ack
      ≡ record {
        size = 19;
        written =
            (if ack then 0x63 else 0x43)
            ∷ 0x9c
            ∷ sequence
            ∷ (write_le16 pan
                ++ (write_le64 ieee
                    ++ (write_le16 coordinator
                        ++ (cmd_association_response ∷ (write_le16 assigned ++ (status ∷ []))))));
      }
unfolding build_association_response
response_built out_max pan ieee coordinator sequence assigned status true room =
    let fits : ltb out_max 19 ≡ false = ground arith in rw (build_association_response, fits) refl
response_built out_max pan ieee coordinator sequence assigned status false room =
    let fits : ltb out_max 19 ≡ false = ground arith in rw (build_association_response, fits) refl

-- Two bytes as the parser reads them.
abbrev read16 : ℕ → ℕ
read16 v = bit_or (v % 256) (v / 2 ^ 8 % 256 * 2 ^ 8)

request_read :
    (pan coordinator ieee sequence capability : ℕ) (ack : Bool)
    → let rest : List ℕ = write_le64 ieee ++ (cmd_association_request ∷ capability ∷ []) in
      parse_command_frame
        (some (
          (if ack then 0x63 else 0x43)
          ∷ 0xd8
          ∷ sequence
          ∷ (write_le16 pan ++ (write_le16 coordinator ++ rest))))
        17
      ≡ (
        record (request_frame
            (read16 pan)
            (read16 coordinator)
            (read_le64 rest)
            sequence
            capability
            ack) { command_id = get_or rest 8 0; payload = some (drop 9 rest) },
        true,
      )
unfolding parse_command_frame
request_read pan coordinator ieee sequence capability true = refl
request_read pan coordinator ieee sequence capability false = refl

request_parsed :
    (out_max pan coordinator ieee sequence capability : ℕ) (ack : Bool)
    → 17 ≤ out_max
    → IsU16 pan
    → IsU16 coordinator
    → ieee < 2 ^ 64
    → let b = build_association_request true out_max pan coordinator ieee sequence capability ack in
      parse_command_frame (some b.written) b.size
      ≡ (request_frame pan coordinator ieee sequence capability ack, true)
request_parsed out_max pan coordinator ieee sequence capability ack room p c i =
    let rest : List ℕ = cmd_association_request ∷ capability ∷ [] in
    let (id, _, _, end, _) = after_le64 ieee rest in
    ap (λ (b : Built). parse_command_frame (some b.written) b.size)
      (request_built out_max pan coordinator ieee sequence capability ack room)
    ∙ request_read pan coordinator ieee sequence capability ack
    ∙ rw (le64 ieee rest i, id, end, le16 pan p, le16 coordinator c) refl

response_read :
    (pan ieee coordinator sequence assigned status : ℕ) (ack : Bool)
    → let rest : List ℕ =
        write_le64 ieee
        ++ (write_le16 coordinator
            ++ (cmd_association_response ∷ (write_le16 assigned ++ (status ∷ [])))) in
      parse_command_frame
        (some ((if ack then 0x63 else 0x43) ∷ 0x9c ∷ sequence ∷ (write_le16 pan ++ rest)))
        19
      ≡ (
        record (response_frame
            (read16 pan)
            (read_le64 rest)
            coordinator
            sequence
            assigned
            status
            ack) {
              src_short = read_le16_at rest 8;
              src_pan_id = read16 pan;
              command_id = get_or rest 10 0;
              payload = some (drop 11 rest);
            },
        true,
      )
unfolding parse_command_frame
response_read pan ieee coordinator sequence assigned status true = refl
response_read pan ieee coordinator sequence assigned status false = refl

response_parsed :
    (out_max pan ieee coordinator sequence assigned status : ℕ) (ack : Bool)
    → 19 ≤ out_max
    → IsU16 pan
    → IsU16 coordinator
    → ieee < 2 ^ 64
    → let b =
        build_association_response true out_max pan ieee coordinator sequence assigned status ack in
      parse_command_frame (some b.written) b.size
      ≡ (response_frame pan ieee coordinator sequence assigned status ack, true)
response_parsed out_max pan ieee coordinator sequence assigned status ack room p c i =
    let rest : List ℕ =
      write_le16 coordinator
      ++ (cmd_association_response ∷ (write_le16 assigned ++ (status ∷ []))) in
    let (low, high, id, _, end) = after_le64 ieee rest in
    ap (λ (b : Built). parse_command_frame (some b.written) b.size)
      (response_built out_max pan ieee coordinator sequence assigned status ack room)
    ∙ response_read pan ieee coordinator sequence assigned status ack
    ∙ rw (le64 ieee rest i, low, high, id, end, le16 pan p, le16 coordinator c) refl

-- The exchange of an association, in buffers of at least 19 bytes, with a PAN id and short addresses
-- of 16 bits, an IEEE address of 64 bits and a capability of 8 bits. The coordinator parses the
-- request of a device as the frame that was sent, field by field, and its capability byte as the
-- three flags that are its bits 7, 3 and 1; and the device parses the response, which is sent to the
-- address in that request, as the frame that was sent, with the short address and the status that it
-- was given.
pub association_exchange :
    (out_max pan_id coord_short ieee sequence capability assigned_short status : ℕ)
    (ack_request : Bool)
    → 19 ≤ out_max
    → IsU16 pan_id
    → IsU16 coord_short
    → ieee < 2 ^ 64
    → IsU16 assigned_short
    → capability < 256
    → let asked =
        build_association_request true out_max pan_id coord_short ieee sequence capability
          ack_request in
      let (heard, is_command) = parse_command_frame (some asked.written) asked.size in
      let (request, is_request) = parse_association_request heard in
      let answered =
        build_association_response true out_max heard.dst_pan_id heard.src_ieee heard.dst_short
          sequence assigned_short status ack_request in
      let (back, is_answer) = parse_command_frame (some answered.written) answered.size in
      let (response, is_response) = parse_association_response back in
      (is_command ≡ true)
      × (heard ≡ request_frame pan_id coord_short ieee sequence capability ack_request)
      × (is_request ≡ true)
      × (request ≡ record {
        valid = true;
        capability = capability;
        allocate_address = capability / 128 % 2 == 1;
        receiver_on_when_idle = capability / 8 % 2 == 1;
        full_function_device = capability / 2 % 2 == 1;
      })
      × (is_answer ≡ true)
      × (back ≡ response_frame pan_id ieee coord_short sequence assigned_short status ack_request)
      × (is_response ≡ true)
      × (response ≡ record { valid = true; short_address = assigned_short; status = status })
unfolding parse_association_request parse_association_response
association_exchange out_max pan coordinator ieee sequence capability assigned status ack room p c i
      a byte =
    let there =
      request_parsed out_max pan coordinator ieee sequence capability ack (omega arith) p c i in
    let back =
      response_parsed out_max pan ieee coordinator sequence assigned status ack room p c i in
    let (seven, three, one) = capability_bits capability byte in
    rw (there, back)
      (refl, refl, refl, rw (seven, three, one) refl, refl, refl, refl, rw (le16 assigned a) refl)
