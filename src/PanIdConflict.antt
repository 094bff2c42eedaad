-- ===== src/PanIdConflict.antt =====
-- src/ZigbeePanIdConflict.h, the class ZigbeePanIdConflict: the Network Report and Network Update
-- payloads. Its private putLe16, getLe16, putLe64 and getLe64 are those of Bytes.
use Prim.Native.Nat.{bit_and, bit_or}
use arduino_nrf_zigbee.Prelude.{
  ℕ, zero, suc, ◌+◌, ◌-◌, ◌*◌, ◌/◌, ◌^◌, Bool, true, false, not, ◌&&◌, ◌||◌, Option, none, some,
  List, [], ◌∷◌, ◌++◌, if◌then◌else◌, ltb, ◌==◌, take, replicate, u8,
}
use arduino_nrf_zigbee.Bytes.{
  Built, refused, byte_at, advance, read_le16_at, write_le16, read_le64, write_le64,
}

abbrev pub update_pan_id : ℕ
update_pan_id = 0

abbrev pub update_channel : ℕ
update_channel = 1

abbrev pub max_pan_ids : ℕ
max_pan_ids = 8

-- The constructor leaves `panIds` as it is; the model fills it with 0.
pub record NwkNetworkReport : Type 0 where
  pub report_type : ℕ
  pub extended_pan_id : ℕ
  pub count : ℕ
  pub pan_ids : List ℕ

abbrev pub no_report : NwkNetworkReport
no_report = record {
  report_type = 0;
  extended_pan_id = 0;
  count = 0;
  pan_ids = replicate max_pan_ids 0;
}

pub record NwkNetworkUpdate : Type 0 where
  pub update_type : ℕ
  pub extended_pan_id : ℕ
  pub update_id : ℕ
  pub new_pan_id : ℕ
  pub new_channel : ℕ

abbrev pub no_update : NwkNetworkUpdate
no_update = record {
  update_type = 0;
  extended_pan_id = 0;
  update_id = 0;
  new_pan_id = 0;
  new_channel = 0;
}

abbrev pub is_conflict : ℕ → ℕ → ℕ → ℕ → Bool
is_conflict our_pan_id our_ext_pan_id heard_pan_id heard_ext_pan_id =
    heard_pan_id == our_pan_id && not (heard_ext_pan_id == our_ext_pan_id)

abbrev pub write_pan_ids : List ℕ → List ℕ
write_pan_ids [] = []
write_pan_ids (p ∷ pan_ids) = write_le16 p ++ write_pan_ids pan_ids

pub build_report : Bool → ℕ → NwkNetworkReport → Built
build_report out out_max r =
    let need = u8 (1 + 8 + r.count * 2) in
    if not out || ltb max_pan_ids r.count
    then refused
    else if ltb out_max need
    then refused
    else record {
      size = need;
      written =
          u8 (bit_or (bit_and r.report_type 0x07 * 2 ^ 5) (bit_and r.count 0x1F))
          ∷ (write_le64 r.extended_pan_id ++ write_pan_ids (take r.count r.pan_ids));
    }

abbrev pub read_pan_ids : ℕ → List ℕ → List ℕ
read_pan_ids zero p = []
read_pan_ids (suc n) p = read_le16_at p 0 ∷ read_pan_ids n (advance 2 p)

pub parse_report : Option (List ℕ) → ℕ → NwkNetworkReport × Bool
parse_report none len = (no_report, false)
parse_report (some payload) len =
    let count = u8 (bit_and (byte_at payload 0) 0x1F) in
    let r : NwkNetworkReport = record no_report {
      report_type = u8 (bit_and (byte_at payload 0 / 2 ^ 5) 0x07);
      count = count;
    } in
    if ltb len 9
    then (no_report, false)
    else if ltb max_pan_ids count
    then (r, false)
    else if ltb len (u8 (9 + count * 2))
    then (r, false)
    else (
      record r {
        extended_pan_id = read_le64 (advance 1 payload);
        pan_ids = read_pan_ids count (advance 9 payload) ++ replicate (max_pan_ids - count) 0;
      },
      true,
    )

unfoldable pub build_update : Bool → ℕ → NwkNetworkUpdate → Built
build_update out out_max u = if not out || ltb out_max 12 then refused else record {
  size = 12;
  written =
      u8 (bit_or (bit_and u.update_type 0x07 * 2 ^ 5) 0x01)
      ∷ (write_le64 u.extended_pan_id ++ (u.update_id ∷ write_le16 u.new_pan_id));
}

unfoldable pub parse_update : Option (List ℕ) → ℕ → NwkNetworkUpdate × Bool
parse_update none len = (no_update, false)
parse_update (some payload) len = if ltb len 12 then (no_update, false) else (
  record no_update {
    update_type = u8 (bit_and (byte_at payload 0 / 2 ^ 5) 0x07);
    extended_pan_id = read_le64 (advance 1 payload);
    update_id = byte_at payload 9;
    new_pan_id = read_le16_at payload 10;
  },
  true,
)

unfoldable pub build_channel_update : Bool → ℕ → NwkNetworkUpdate → Built
build_channel_update out out_max u = if not out || ltb out_max 11 then refused else record {
  size = 11;
  written =
      u8 (bit_or (bit_and update_channel 0x07 * 2 ^ 5) 0x01)
      ∷ (write_le64 u.extended_pan_id ++ (u.update_id ∷ u.new_channel ∷ []));
}

unfoldable pub parse_channel_update : Option (List ℕ) → ℕ → NwkNetworkUpdate × Bool
parse_channel_update none len = (no_update, false)
parse_channel_update (some payload) len =
    let type = u8 (bit_and (byte_at payload 0 / 2 ^ 5) 0x07) in
    if ltb len 11
    then (no_update, false)
    else if not (type == update_channel)
    then (record no_update { update_type = type }, false)
    else (
      record no_update {
        update_type = type;
        extended_pan_id = read_le64 (advance 1 payload);
        update_id = byte_at payload 9;
        new_channel = byte_at payload 10;
      },
      true,
    )

-- (uint8_t)(incoming - current)
abbrev pub sub8 : ℕ → ℕ → ℕ
sub8 incoming current = u8 (incoming + 256 - current)

abbrev pub update_id_is_newer : ℕ → ℕ → Bool
update_id_is_newer incoming current =
    not (sub8 incoming current == 0) && ltb (sub8 incoming current) 128
