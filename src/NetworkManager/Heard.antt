-- ===== src/NetworkManager/Heard.antt =====
-- ZigbeeNetworkManager::noteBeacon of src/ZigbeePanIdConflict.h: the PAN ids that it remembers.
use arduino_nrf_zigbee.Prelude.{
  ℕ, zero, suc, ◌≡◌, refl, ap, ◌∙◌, inl, inr, ◌⊎◌, ◌+◌, ◌<◌, ◌≤◌, true, false, List, [], ◌∷◌, ltb,
  ◌==◌, ==_refl, u8, arith, take, set, length, length-set, Bool-cases,
}
use arduino_nrf_zigbee.PanIdConflict.{
  NwkNetworkUpdate, update_id_is_newer, update_pan_id, update_channel,
}
use arduino_nrf_zigbee.NetworkManager.{
  NetworkManager, lists, is_heard, is_free, record_heard_pan_id, note_beacon, apply_update,
  select_new_pan_id,
}
use arduino_nrf_zigbee.NetworkManager.Select.{select_new_pan_id_lem}

-- `heard_` has 16 places, of which the first `heardCount_` are in use; `evict_` is one of them.
pub record IsValid (m : NetworkManager) : Type 0 where
  pub places : length m.heard ≡ 16
  pub within : m.heard_count ≤ 16
  pub place : m.evict < 16

lists-set : (xs : List ℕ) (i n c : ℕ) → i < n → i < length xs → lists (take n (set xs i c)) c ≡ true
lists-set [] i n c h k = absurd (omega arith)
lists-set (x ∷ xs) i zero c h k = absurd (omega arith)
lists-set (x ∷ xs) zero (suc n) c h k = rw (==_refl c) refl
lists-set (x ∷ xs) (suc i) (suc n) c h k =
    let ih = lists-set xs i n c (omega arith) (omega arith) in ground (arith, ih)

-- The PAN id of a beacon is remembered.
record_lem :
    (m : NetworkManager) (pan : ℕ)
    → IsValid m
    → IsValid (record_heard_pan_id m pan) × (is_heard (record_heard_pan_id m pan) pan ≡ true)
unfolding record_heard_pan_id
record_lem m pan v = elim (Bool-cases (is_heard m pan)) [
  | inl known ↦ rw (record_heard_pan_id, known) (v, known)
  | inr new ↦ elim (Bool-cases (ltb m.heard_count 16)) [
    | inl room ↦
        let w = v.within in
        let k : m.heard_count < 16 = ground arith in
        let more : u8 (m.heard_count + 1) ≡ suc m.heard_count = omega arith in
        rw (record_heard_pan_id, new, room, more)
          (
            record {
              places = length-set m.heard m.heard_count pan ∙ v.places;
              within = k;
              place = v.place;
            },
            lists-set m.heard m.heard_count (suc m.heard_count) pan (omega arith)
                (omega (arith, v.places)),
          )
    | inr full ↦
        let w = v.within in
        let all : m.heard_count ≡ 16 = ground arith in
        rw (record_heard_pan_id, new, full)
          (
            record {
              places = length-set m.heard m.evict pan ∙ v.places;
              within = v.within;
              place = omega arith;
            },
            lists-set m.heard m.evict m.heard_count pan (omega (arith, v.place))
                (omega (arith, v.places, v.place)),
          )
  ]
]

-- What a manager goes through: beacons that it hears, and updates that it receives.
pub data Event : Type 0 where
  beacon : ℕ → ℕ → Event
  update : NwkNetworkUpdate → Event

pub step : NetworkManager → Event → NetworkManager
step m (beacon pan ext) = (note_beacon m pan ext).0
step m (update u) = (apply_update m u).0

pub run : NetworkManager → List Event → NetworkManager
run m [] = m
run m (e ∷ events) = run (step m e) events

note-IsValid : (m : NetworkManager) (pan ext : ℕ) → IsValid m → IsValid (note_beacon m pan ext).0
unfolding note_beacon
note-IsValid m pan ext v = (record_lem m pan v).0

apply_cases :
    (m : NetworkManager) (u : NwkNetworkUpdate)
    → ((apply_update m u).0 ≡ m)
      ⊎ ((p : ℕ) × (c : ℕ) × (i : ℕ) × ((apply_update m u).0
            ≡ record m { pan_id = p; channel = c; update_id = i }))
unfolding apply_update
apply_cases m u = elim (Bool-cases (u.extended_pan_id == m.ext_pan_id)) [
  | inr other ↦ inl (rw (apply_update, other) refl)
  | inl own ↦ elim (Bool-cases (update_id_is_newer u.update_id m.update_id)) [
    | inr old ↦ inl (rw (apply_update, own, old) refl)
    | inl newer ↦ elim (Bool-cases (u.update_type == update_pan_id)) [
      | inl pan ↦
          inr (u.new_pan_id, m.channel, u.update_id, rw (apply_update, own, newer, pan) refl)
      | inr not_pan ↦ elim (Bool-cases (u.update_type == update_channel)) [
        | inl chan ↦ inr (
          m.pan_id,
          u.new_channel,
          u.update_id,
          rw (apply_update, own, newer, not_pan, chan) refl,
        )
        | inr unknown ↦ inl (rw (apply_update, own, newer, not_pan, unknown) refl)
      ]
    ]
  ]
]

-- A free PAN id is not one that was heard.
unheard :
    (m : NetworkManager) (c pan : ℕ)
    → is_free m c ≡ true
    → is_heard m pan ≡ true
    → (c == pan) ≡ false
unheard m c pan free heard = elim (Bool-cases (c == pan)) [
  | inr other ↦ other
  | inl same ↦
      let e : c ≡ pan = ground arith in
      let f : is_heard m c ≡ true = ap (is_heard m) e ∙ heard in absurd (ground (arith, free, f))
]

-- An update leaves what was heard.
apply-IsValid :
    (m : NetworkManager) (u : NwkNetworkUpdate) → IsValid m → IsValid (apply_update m u).0
unfolding apply_update
apply-IsValid m u v = elim (apply_cases m u) [
  | inl same ↦ rw same v
  | inr (p, c, i, e) ↦ rw e (record { places = v.places; within = v.within; place = v.place })
]

run-IsValid : (m : NetworkManager) (events : List Event) → IsValid m → IsValid (run m events)
unfolding run step
run-IsValid m [] v = v
run-IsValid m (beacon pan ext ∷ events) v =
    run-IsValid (note_beacon m pan ext).0 events (note-IsValid m pan ext v)
run-IsValid m (update u ∷ events) v = run-IsValid (apply_update m u).0 events (apply-IsValid m u v)

-- After any beacons and updates, a manager that was valid hears one more beacon. It stays valid, and the
-- PAN id that it would then pick, from any seed, is neither the own one nor the one just heard.
pub conflict_resolved :
    (m : NetworkManager) (events : List Event) (pan ext seed : ℕ)
    → IsValid m
    → let m' = (note_beacon (run m events) pan ext).0 in
      let c = select_new_pan_id m' seed in
      IsValid m' × ((c == pan) ≡ false) × ((c == m'.pan_id) ≡ false)
unfolding note_beacon
conflict_resolved m events pan ext seed v =
    let before : NetworkManager = run m events in
    let (valid, heard) = record_lem before pan (run-IsValid m events v) in
    let after : NetworkManager = record_heard_pan_id before pan in
    let (free, word) = select_new_pan_id_lem after seed valid.within in
    (valid, unheard after (select_new_pan_id after seed) pan free heard, ground (arith, free))
