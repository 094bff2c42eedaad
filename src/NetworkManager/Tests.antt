-- ===== src/NetworkManager/Tests.antt =====
-- The theorems on the network manager, at one that has heard two networks.
use arduino_nrf_zigbee.Prelude.{
  ◌≡◌, refl, true, false, [], ◌∷◌, ◌==◌, arith, IsU16, some, replicate,
}
use arduino_nrf_zigbee.NetworkManager.{
  NetworkManager, is_free, select_new_pan_id, build_pan_id_change, apply_update, commit_pan_id,
  note_beacon,
}
use arduino_nrf_zigbee.PanIdConflict.{parse_update}
use arduino_nrf_zigbee.NetworkManager.Select.{select_new_pan_id_lem}
use arduino_nrf_zigbee.NetworkManager.Announce.{InStep, pan_id_change_agreed}
use arduino_nrf_zigbee.NetworkManager.Heard.{IsValid, run, beacon, conflict_resolved}

abbrev manager : NetworkManager
manager = record {
  pan_id = 0x1a62;
  ext_pan_id = 77;
  channel = 11;
  update_id = 255;
  heard = 0x1a63 ∷ 0x1a64 ∷ replicate 14 0;
  heard_count = 2;
  evict = 0;
}

abbrev member : NetworkManager
member = record manager { heard_count = 0; channel = 15 }

manager-IsValid : IsValid manager
manager-IsValid = record { places = refl; within = omega arith; place = omega arith }

select_new_pan_id_lem_example :
    let c = select_new_pan_id manager 0x1a62 in (is_free manager c ≡ true) × IsU16 c
select_new_pan_id_lem_example = select_new_pan_id_lem manager 0x1a62 (omega arith)

pan_id_change_agreed_example :
    let b = build_pan_id_change manager true 100 0x2345 in
    let u = (parse_update (some b.written) b.size).0 in
    let m' = commit_pan_id manager 0x2345 in
    let (n', applied) = apply_update member u in
    (applied ≡ true)
    × (n'.pan_id ≡ 0x2345)
    × (m'.pan_id ≡ 0x2345)
    × InStep m' n'
    × (apply_update n' u ≡ (n', false))
    × (apply_update m' u ≡ (m', false))
pan_id_change_agreed_example =
    pan_id_change_agreed manager member 100 0x2345 (omega arith) (omega arith) (omega arith)
      (omega arith) (refl, refl)

conflict_resolved_example :
    let m' = (note_beacon (run manager (beacon 0x1a65 5 ∷ [])) 0x1a62 78).0 in
    let c = select_new_pan_id m' 0x1a62 in
    IsValid m' × ((c == 0x1a62) ≡ false) × ((c == m'.pan_id) ≡ false)
conflict_resolved_example =
    conflict_resolved manager (beacon 0x1a65 5 ∷ []) 0x1a62 78 0x1a62 manager-IsValid
