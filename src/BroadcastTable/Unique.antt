-- ===== src/BroadcastTable/Unique.antt =====
-- src/ZigbeeBroadcastTable.h: the invariant that a transaction has at most one entry.
use arduino_nrf_zigbee.Prelude.{
  ℕ, ◌≡◌, refl, inl, inr, ◌<◌, ◌≤◌, true, Option, none, some, arith, get_elem?, length, length-set,
  length-replicate, Option-cases,
}
use arduino_nrf_zigbee.Slots.{find?, count, modify}
use arduino_nrf_zigbee.Slots.Find.{find_index?-some, find_index?-none}
use arduino_nrf_zigbee.Slots.Count.{
  count_of_find?-none, count-replicate, count-update_where, length-update_where,
}
use arduino_nrf_zigbee.Slots.Place.{count-modify_same, count-place, length-modify}
use arduino_nrf_zigbee.BroadcastTable.Insert.{insert_lem}
use arduino_nrf_zigbee.BroadcastTable.{
  BroadcastEntry, BroadcastTable, empty_entry, begin, matches, find, allocate, fresh_entry,
  store_fresh, ack, touch, retried, is_stale, record_incoming, record_outgoing, mark_passive_ack,
  mark_rebroadcast, expire,
}

pub record IsValid (t : BroadcastTable) : Type 0 where
  pub is_attached : t.attached ≡ true
  pub nonempty : 0 < length t.entries
  pub unique : (source sequence : ℕ) → count (matches source sequence) t.entries ≤ 1

pub begin-IsValid : (capacity : ℕ) → 0 < capacity → IsValid (begin capacity)
unfolding begin
begin-IsValid capacity h = record {
  is_attached = refl;
  nonempty = omega (arith, length-replicate capacity empty_entry);
  unique = λ s q. omega (arith, count-replicate (matches s q) capacity empty_entry refl);
}

pub absent :
    {t : BroadcastTable} (source sequence : ℕ)
    → IsValid t
    → find t source sequence ≡ none
    → count (matches source sequence) t.entries ≡ 0
unfolding find
absent {t} s q v e =
    count_of_find?-none (matches s q) t.entries
      (find_index?-none (matches s q) t.entries (ground (arith, v.is_attached)))

pub present :
    (t : BroadcastTable) (source sequence i : ℕ)
    → find t source sequence ≡ some i
    → (x : BroadcastEntry) × (get_elem? t.entries i ≡ some x)
      × (matches source sequence x ≡ true)
      × (find? (matches source sequence) t.entries ≡ some x)
unfolding find
present t s q i e = find_index?-some (matches s q) t.entries i (ground arith)

-- a change of an entry that leaves its key alone
modify-IsValid :
    {t : BroadcastTable} (i : ℕ) (f : BroadcastEntry → BroadcastEntry)
    → ((s q : ℕ) (x : BroadcastEntry) → matches s q (f x) ≡ matches s q x)
    → IsValid t
    → IsValid (record t { entries = modify t.entries i f })
modify-IsValid {t} i f same v = record {
  is_attached = v.is_attached;
  nonempty = omega (arith, v.nonempty, length-modify t.entries i f);
  unique =
      λ s q. omega (arith, v.unique s q, count-modify_same (matches s q) t.entries i f (same s q));
}

pub insert-IsValid :
    {t : BroadcastTable} (source sequence now : ℕ)
    → IsValid t
    → find t source sequence ≡ none
    → IsValid (store_fresh (allocate t now) (fresh_entry source sequence now))
insert-IsValid {t} source sequence now v e =
    let new = fresh_entry source sequence now in
    let (i, x, stored, at, _) = insert_lem t now new v.is_attached v.nonempty in
    rw stored record {
      is_attached = v.is_attached;
      nonempty = omega (arith, v.nonempty, length-set t.entries i new);
      unique = λ s q.
          count-place (matches s q) t.entries i new x at (v.unique s q) λ hit _. other s q hit;
    }
  where
    other :
        (s q : ℕ)
        → matches s q (fresh_entry source sequence now) ≡ true
        → count (matches s q) t.entries ≡ 0
    other s q hit =
        let e₁ : source ≡ s = ground arith in
        let e₂ : sequence ≡ q = ground arith in rw (← e₁, ← e₂) (absent source sequence v e)

pub record_incoming-IsValid :
    {t : BroadcastTable} (source sequence now : ℕ)
    → IsValid t
    → IsValid (record_incoming t source sequence now).0
unfolding record_incoming
record_incoming-IsValid {t} source sequence now v = elim (Option-cases (find t source sequence)) [
  | inl e ↦ rw (e, record_incoming) (insert-IsValid source sequence now v e)
  | inr (i, e) ↦ rw (e, record_incoming) (modify-IsValid i ack (λ s q x. refl) v)
]

pub record_outgoing-IsValid :
    {t : BroadcastTable} (source sequence now : ℕ)
    → IsValid t
    → IsValid (record_outgoing t source sequence now).0
unfolding record_outgoing
record_outgoing-IsValid {t} source sequence now v = elim (Option-cases (find t source sequence)) [
  | inl e ↦ rw (e, record_outgoing) (insert-IsValid source sequence now v e)
  | inr (i, e) ↦ rw (e, record_outgoing) (modify-IsValid i (touch now) (λ s q x. refl) v)
]

pub mark_passive_ack-IsValid :
    {t : BroadcastTable} (source sequence : ℕ)
    → IsValid t
    → IsValid (mark_passive_ack t source sequence).0
unfolding mark_passive_ack
mark_passive_ack-IsValid {t} source sequence v = elim (Option-cases (find t source sequence)) [
  | inl e ↦ rw (e, mark_passive_ack) v
  | inr (i, e) ↦ rw (e, mark_passive_ack) (modify-IsValid i ack (λ s q x. refl) v)
]

pub mark_rebroadcast-IsValid :
    {t : BroadcastTable} (e : Option ℕ) (now : ℕ) → IsValid t → IsValid (mark_rebroadcast t e now)
unfolding mark_rebroadcast
mark_rebroadcast-IsValid none now v = v
mark_rebroadcast-IsValid (some i) now v = modify-IsValid i (retried now) (λ s q x. refl) v

pub expire-IsValid :
    {t : BroadcastTable} (now expiry_ms : ℕ) → IsValid t → IsValid (expire t now expiry_ms).0
unfolding expire
expire-IsValid {t} now expiry_ms v = rw v.is_attached record {
  is_attached = refl;
  nonempty = omega (
    arith,
    v.nonempty,
    length-update_where (is_stale now expiry_ms) (λ e. empty_entry) t.entries,
  );
  unique = λ s q. omega (
    arith,
    v.unique s q,
    count-update_where (matches s q) (is_stale now expiry_ms) (λ e. empty_entry) t.entries
        (λ x h. refl),
  );
}
