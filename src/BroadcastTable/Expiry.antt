-- ===== src/BroadcastTable/Expiry.antt =====
-- src/ZigbeeBroadcastTable.h: which transactions `expire` reclaims.
use arduino_nrf_zigbee.Prelude.{ℕ, ◌≡◌, refl, ◌∙◌, ◌+◌, arith, ◌&&◌}
use arduino_nrf_zigbee.Slots.Count.{
  count-update_where, count_ext, find?-update_where, find?-unless, unless,
}
use arduino_nrf_zigbee.BroadcastTable.Unique.{IsValid}
use arduino_nrf_zigbee.BroadcastTable.Transactions.{lookup}
use arduino_nrf_zigbee.BroadcastTable.{
  BroadcastEntry, BroadcastTable, empty_entry, matches, is_stale, expire, active_count,
}

-- In a valid table, `expire` forgets a transaction exactly when its entry is at least `expiry_ms`
-- old (by the wrapping clock), leaves every other entry as it is, and returns the number of entries
-- it reclaimed.
pub broadcast_expire-lookup :
    (t : BroadcastTable) (now expiry_ms source sequence : ℕ)
    → IsValid t
    → let (t', freed) = expire t now expiry_ms in
      (lookup t' source sequence ≡ unless (is_stale now expiry_ms) (lookup t source sequence))
      × (active_count t' + freed ≡ active_count t)
unfolding expire active_count
broadcast_expire-lookup t now expiry_ms s q v =
    let stale = is_stale now expiry_ms in
    let reset = λ (e : BroadcastEntry). empty_entry in
    rw (v.is_attached, expire)
      (
        find?-update_where (matches s q) stale reset t.entries (λ x h. refl)
            ∙ find?-unless (matches s q) stale t.entries (v.unique s q),
        omega (
          arith,
          count-update_where (λ e. e.used) stale reset t.entries (λ x h. refl),
          count_ext (λ x. x.used && stale x) stale t.entries (λ x. ground arith),
        ),
      )
