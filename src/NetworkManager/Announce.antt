-- ===== src/NetworkManager/Announce.antt =====
-- ZigbeeNetworkManager of src/ZigbeePanIdConflict.h: a change that the manager announces and the other
-- nodes of its network apply.
use arduino_nrf_zigbee.Prelude.{
  ℕ, ◌≡◌, refl, ap, ◌+◌, ◌^◌, ◌<◌, ◌≤◌, true, false, some, ==_refl, u8, arith, IsByte, IsU16, [],
  ◌∷◌,
}
use arduino_nrf_zigbee.Bytes.{write_le16, write_le64}
use arduino_nrf_zigbee.Bytes.RoundTrip.{le16, le64}
use arduino_nrf_zigbee.PanIdConflict.{
  NwkNetworkUpdate, no_update, update_pan_id, update_channel, build_update, parse_update,
  build_channel_update, parse_channel_update, update_id_is_newer, sub8,
}
use arduino_nrf_zigbee.NetworkManager.{
  NetworkManager, build_pan_id_change, build_channel_change, apply_update, commit_pan_id,
  commit_channel,
}

-- The two changes of the manager, as their receivers parse them.
abbrev pub pan_id_change : NetworkManager → ℕ → NwkNetworkUpdate
pan_id_change m new = record no_update {
  update_type = update_pan_id;
  extended_pan_id = m.ext_pan_id;
  update_id = u8 (m.update_id + 1);
  new_pan_id = new;
}

abbrev pub channel_change : NetworkManager → ℕ → NwkNetworkUpdate
channel_change m new = record no_update {
  update_type = update_channel;
  extended_pan_id = m.ext_pan_id;
  update_id = u8 (m.update_id + 1);
  new_channel = new;
}

parse-pan_id_change :
    (m : NetworkManager) (out_max new : ℕ)
    → 12 ≤ out_max
    → m.ext_pan_id < 2 ^ 64
    → IsU16 new
    → let b = build_pan_id_change m true out_max new in
      parse_update (some b.written) b.size ≡ (pan_id_change m new, true)
unfolding build_pan_id_change build_update parse_update write_le64
parse-pan_id_change m out_max new room e w =
    let ext = le64 m.ext_pan_id (u8 (m.update_id + 1) ∷ write_le16 new) e in
    ground (arith, ext, le16 new w)

parse-channel_change :
    (m : NetworkManager) (out_max new : ℕ)
    → 11 ≤ out_max
    → m.ext_pan_id < 2 ^ 64
    → let b = build_channel_change m true out_max new in
      parse_channel_update (some b.written) b.size ≡ (channel_change m new, true)
unfolding build_channel_change build_channel_update parse_channel_update write_le64
parse-channel_change m out_max new room e =
    let ext = le64 m.ext_pan_id (u8 (m.update_id + 1) ∷ new ∷ []) e in ground (arith, ext)

-- The next update id is newer, also when it wraps, and no id is newer than itself.
next_newer : (id : ℕ) → IsByte id → update_id_is_newer (u8 (id + 1)) id ≡ true
next_newer id h = let d : sub8 (u8 (id + 1)) id ≡ 1 = omega arith in rw d refl

self_not_newer : (id : ℕ) → IsByte id → update_id_is_newer id id ≡ false
self_not_newer id h = let d : sub8 id id ≡ 0 = omega arith in rw d refl

-- The two nodes are of one network, at the same update.
abbrev pub InStep : NetworkManager → NetworkManager → Type 0
InStep m n = (n.ext_pan_id ≡ m.ext_pan_id) × (n.update_id ≡ m.update_id)

-- A PAN id change that the manager announces is parsed and applied by a node that is in step with it,
-- and the manager commits to it: both are then on the new PAN id, and in step again, also where the
-- update id wraps. The same frame, heard again, is refused by both and changes nothing.
pub pan_id_change_agreed :
    (m n : NetworkManager) (out_max new_pan_id : ℕ)
    → 12 ≤ out_max
    → m.ext_pan_id < 2 ^ 64
    → IsU16 new_pan_id
    → IsByte m.update_id
    → InStep m n
    → let b = build_pan_id_change m true out_max new_pan_id in
      let u = (parse_update (some b.written) b.size).0 in
      let m' = commit_pan_id m new_pan_id in
      let (n', applied) = apply_update n u in
      (applied ≡ true)
      × (n'.pan_id ≡ new_pan_id)
      × (m'.pan_id ≡ new_pan_id)
      × InStep m' n'
      × (apply_update n' u ≡ (n', false))
      × (apply_update m' u ≡ (m', false))
unfolding apply_update commit_pan_id
pan_id_change_agreed m n out_max new room e w byte (ext, id) =
    let parsed = ap (λ p. p.0) (parse-pan_id_change m out_max new room e w) in
    let newer = next_newer m.update_id byte in
    let stale = self_not_newer (u8 (m.update_id + 1)) (omega arith) in
    let same = ==_refl m.ext_pan_id in
    rw (parsed, apply_update, ext, id, same, newer)
      (refl, refl, refl, (refl, refl), rw (same, stale) refl, rw stale refl)

-- A channel change that the manager announces is likewise applied by a node in step with it, keeps the
-- PAN id, leaves both on the new channel and in step, and is refused when it is heard again.
pub channel_change_agreed :
    (m n : NetworkManager) (out_max new_channel : ℕ)
    → 11 ≤ out_max
    → m.ext_pan_id < 2 ^ 64
    → IsByte m.update_id
    → InStep m n
    → let b = build_channel_change m true out_max new_channel in
      let u = (parse_channel_update (some b.written) b.size).0 in
      let m' = commit_channel m new_channel in
      let (n', applied) = apply_update n u in
      (applied ≡ true)
      × (n'.channel ≡ new_channel)
      × (m'.channel ≡ new_channel)
      × (n'.pan_id ≡ n.pan_id)
      × InStep m' n'
      × (apply_update n' u ≡ (n', false))
      × (apply_update m' u ≡ (m', false))
unfolding apply_update commit_channel
channel_change_agreed m n out_max new room e byte (ext, id) =
    let parsed = ap (λ p. p.0) (parse-channel_change m out_max new room e) in
    let newer = next_newer m.update_id byte in
    let stale = self_not_newer (u8 (m.update_id + 1)) (omega arith) in
    let same = ==_refl m.ext_pan_id in
    rw (parsed, apply_update, ext, id, same, newer)
      (refl, refl, refl, refl, (refl, refl), rw (same, stale) refl, rw stale refl)
