-- ===== src/NetworkManager.antt =====
-- src/ZigbeePanIdConflict.h, the class ZigbeeNetworkManager: it hears other networks, picks a free PAN
-- id, and announces and applies changes. A method that changes its object returns the new one.
pub mod Select
pub mod Heard
pub mod Announce
mod Tests
use arduino_nrf_zigbee.Prelude.{
  ℕ, zero, suc, ◌+◌, ◌%◌, Bool, true, false, not, ◌&&◌, ◌||◌, List, [], ◌∷◌, if◌then◌else◌, ltb,
  ◌==◌, take, set, u8, u16,
}
use arduino_nrf_zigbee.Bytes.{Built}
use arduino_nrf_zigbee.PanIdConflict.{
  NwkNetworkUpdate, no_update, update_pan_id, update_channel, is_conflict, build_update,
  build_channel_update, update_id_is_newer,
}

abbrev pub max_heard_pan_ids : ℕ
max_heard_pan_ids = 16

pub record NetworkManager : Type 0 where
  pub pan_id : ℕ
  pub ext_pan_id : ℕ
  pub channel : ℕ
  pub update_id : ℕ
  pub heard : List ℕ
  pub heard_count : ℕ
  pub evict : ℕ

pub begin : NetworkManager → ℕ → ℕ → ℕ → ℕ → NetworkManager
begin m pan_id ext_pan_id channel nwk_update_id = record m {
  pan_id = pan_id;
  ext_pan_id = ext_pan_id;
  channel = channel;
  update_id = nwk_update_id;
  heard_count = 0;
}

-- One of the entries is the PAN id.
abbrev pub lists : List ℕ → ℕ → Bool
lists [] pan_id = false
lists (h ∷ heard) pan_id = (h == pan_id) || lists heard pan_id

abbrev pub is_heard : NetworkManager → ℕ → Bool
is_heard m pan_id = lists (take m.heard_count m.heard) pan_id

pub record_heard_pan_id : NetworkManager → ℕ → NetworkManager
record_heard_pan_id m pan_id =
    if is_heard m pan_id
    then m
    else if ltb m.heard_count max_heard_pan_ids
    then record m { heard = set m.heard m.heard_count pan_id; heard_count = u8 (m.heard_count + 1) }
    else record m {
      heard = set m.heard m.evict pan_id;
      evict = u8 ((m.evict + 1) % max_heard_pan_ids);
    }

pub note_beacon : NetworkManager → ℕ → ℕ → NetworkManager × Bool
note_beacon m heard_pan_id heard_ext_pan_id = (
  record_heard_pan_id m heard_pan_id,
  is_conflict m.pan_id m.ext_pan_id heard_pan_id heard_ext_pan_id,
)

-- No `continue`, and not heard.
abbrev pub is_free : NetworkManager → ℕ → Bool
is_free m cand =
    not (cand == 0 || cand == 0xFFFF) && (not (cand == m.pan_id) && not (is_heard m cand))

-- The loop of selectNewPanId from `i` on, with as many rounds left as `fuel`.
pub select_from : ℕ → NetworkManager → ℕ → ℕ → ℕ
select_from zero m seed i = m.pan_id
select_from (suc fuel) m seed i = elim (is_free m (u16 (seed + i))) [
  | true ↦ u16 (seed + i)
  | false ↦ select_from fuel m seed (suc i)
]

pub select_new_pan_id : NetworkManager → ℕ → ℕ
select_new_pan_id m seed = select_from 0xFFFE m seed 0

pub build_pan_id_change : NetworkManager → Bool → ℕ → ℕ → Built
build_pan_id_change m out out_max new_pan_id = build_update out out_max (record no_update {
  update_type = update_pan_id;
  extended_pan_id = m.ext_pan_id;
  update_id = u8 (m.update_id + 1);
  new_pan_id = new_pan_id;
})

pub build_channel_change : NetworkManager → Bool → ℕ → ℕ → Built
build_channel_change m out out_max new_channel =
    build_channel_update out out_max (record no_update {
      update_type = update_channel;
      extended_pan_id = m.ext_pan_id;
      update_id = u8 (m.update_id + 1);
      new_channel = new_channel;
    })

pub apply_update : NetworkManager → NwkNetworkUpdate → NetworkManager × Bool
apply_update m u =
    if not (u.extended_pan_id == m.ext_pan_id)
    then (m, false)
    else if not (update_id_is_newer u.update_id m.update_id)
    then (m, false)
    else if u.update_type == update_pan_id
    then (record m { pan_id = u.new_pan_id; update_id = u.update_id }, true)
    else if u.update_type == update_channel
    then (record m { channel = u.new_channel; update_id = u.update_id }, true)
    else (m, false)

pub commit_pan_id : NetworkManager → ℕ → NetworkManager
commit_pan_id m new_pan_id = record m { pan_id = new_pan_id; update_id = u8 (m.update_id + 1) }

pub commit_channel : NetworkManager → ℕ → NetworkManager
commit_channel m new_channel = record m { channel = new_channel; update_id = u8 (m.update_id + 1) }
