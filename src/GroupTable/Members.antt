-- ===== src/GroupTable/Members.antt =====
-- src/ZigbeeGroupTable.h: the table as a finite set of groups.
use arduino_nrf_zigbee.Prelude.{
  ℕ, zero, suc, ◌≡◌, refl, ap, sym, subst, ◌∙◌, inl, inr, ◌<◌, ◌≤◌, ◌+◌, ◌-◌, Bool, true, false,
  not, some, List, [], ◌∷◌, ◌++◌, arith, get_elem?, get_elem?-lt, get_or, set, take, length,
  length-set, length-take, Option-cases, Bool-cases, ◌&&◌, ◌||◌, ◌==◌, ltb, ltb→lt, to_nat,
  take-suc,
}
use native.Mathlib.Numerals.{add-one}
use arduino_nrf_zigbee.Slots.{find_index?, count}
use arduino_nrf_zigbee.Slots.Find.{find_index?-some, find_index?-none}
use arduino_nrf_zigbee.Slots.Count.{count_of_find?-none, count-pos}
use arduino_nrf_zigbee.GroupTable.{GroupTable, begin, members, is_member, add, remove, clear}

-- How often the table lists a group.
abbrev pub occurrences : ℕ → GroupTable → ℕ
occurrences g t = count (λ x. x == g) (members t)

-- The groups lie in the array, and none is listed twice.
pub record IsValid (t : GroupTable) : Type 0 where
  pub is_attached : t.attached ≡ true
  pub within : t.group_count ≤ length t.groups
  pub distinct : (g : ℕ) → occurrences g t ≤ 1

pub begin-IsValid : (storage : List ℕ) → IsValid (begin storage)
unfolding begin
begin-IsValid storage = record {
  is_attached = refl;
  within = omega arith;
  distinct = λ g. omega arith;
}

pub is_member-occurrences : (t : GroupTable) (g : ℕ) → is_member t g ≡ ltb 0 (occurrences g t)
unfolding is_member
is_member-occurrences t g = elim (Option-cases (find_index? (λ x. x == g) (members t))) [
  | inl e ↦
      rw
        (
          e,
          count_of_find?-none (λ x. x == g) (members t)
              (find_index?-none (λ x. x == g) (members t) e),
        )
        refl
  | inr (i, e) ↦
      let (x, at, hit, _) = find_index?-some (λ x. x == g) (members t) i e in
      rw e (ground (arith, count-pos (λ x. x == g) (members t) i at hit))
]

take-set_end :
    (xs : List ℕ) (n v : ℕ) → n < length xs → take (suc n) (set xs n v) ≡ take n xs ++ v ∷ []
take-set_end [] n v h = absurd (omega arith)
take-set_end (x ∷ xs) zero v h = refl
take-set_end (x ∷ xs) (suc n) v h = ap (◌∷◌ x) (take-set_end xs n v (omega arith))

count-append : (p : ℕ → Bool) (xs ys : List ℕ) → count p (xs ++ ys) ≡ count p xs + count p ys
count-append p [] ys = omega arith
count-append p (x ∷ xs) ys = omega (arith, count-append p xs ys)

count-take-suc :
    (p : ℕ → Bool) (xs : List ℕ) (n : ℕ)
    → n < length xs
    → count p (take (suc n) xs) ≡ count p (take n xs) + to_nat (p (get_or xs n 0))
count-take-suc p xs n h =
    rw (take-suc n xs 0 h, count-append p (take n xs) (get_or xs n 0 ∷ [])) (omega arith)

-- what the array lists after the swap with the last one of `suc n` groups
count-swap :
    (p : ℕ → Bool) (xs : List ℕ) (n i : ℕ) {x : ℕ}
    → suc n ≤ length xs
    → get_elem? (take (suc n) xs) i ≡ some x
    → count p (take n (set xs i (get_or xs n 0))) + to_nat (p x) ≡ count p (take (suc n) xs)
count-swap p [] n i h at = absurd (omega arith)
count-swap p (y ∷ ys) zero zero h at = ground arith
count-swap p (y ∷ ys) zero (suc i) h at = absurd (cc)
count-swap p (y ∷ ys) (suc n) zero h at = ground (arith, count-take-suc p ys n (omega arith))
count-swap p (y ∷ ys) (suc n) (suc i) h at = omega (arith, count-swap p ys n i (omega arith) at)

-- `add` on each branch: a member already, a full table, a new group.
add_known :
    (t : GroupTable) (g : ℕ) → t.attached ≡ true → is_member t g ≡ true → add t g ≡ (t, true)
unfolding add
add_known t g a m = ground arith

add_full :
    (t : GroupTable) (g : ℕ)
    → is_member t g ≡ false
    → length t.groups ≤ t.group_count
    → add t g ≡ (t, false)
unfolding add
add_full t g m full = ground arith

add_new :
    (t : GroupTable) (g : ℕ)
    → t.attached ≡ true
    → is_member t g ≡ false
    → t.group_count < length t.groups
    → add t g
      ≡ (record t { groups = set t.groups t.group_count g; group_count = suc t.group_count }, true)
unfolding add
add_new t g a m room = rw (← add-one) (ground arith)

occurrences-add :
    (t : GroupTable) (g h : ℕ)
    → t.attached ≡ true
    → is_member t g ≡ false
    → t.group_count < length t.groups
    → occurrences h (add t g).0 ≡ occurrences h t + to_nat (g == h)
occurrences-add t g h a m room =
    rw
      (
        add_new t g a m room,
        take-set_end t.groups t.group_count g room,
        count-append (λ x. x == h) (members t) (g ∷ []),
      )
      (omega arith)

not_listed :
    (t : GroupTable) (g h : ℕ) → is_member t g ≡ false → (g == h) ≡ true → occurrences h t ≡ 0
not_listed t g h m e =
    let same : g ≡ h = ground arith in
    subst (λ k. occurrences k t ≡ 0) same (ground (arith, is_member-occurrences t g))

-- the slot of a member, which the last group takes
remove_member :
    (t : GroupTable) (g : ℕ)
    → t.attached ≡ true
    → is_member t g ≡ true
    → (i : ℕ) × (t.group_count ≡ suc (t.group_count - 1))
      × (get_elem? (members t) i ≡ some g)
      × (remove t g ≡ (
        record t {
          groups = set t.groups i (get_or t.groups (t.group_count - 1) 0);
          group_count = t.group_count - 1;
        },
        true,
      ))
unfolding remove is_member
remove_member t g a m = elim (Option-cases (find_index? (λ x. x == g) (members t))) [
  | inl e ↦ absurd (ground arith)
  | inr (i, e) ↦
      let (x, at, hit, _) = find_index?-some (λ x. x == g) (members t) i e in
      let same : x ≡ g = ground arith in
      (
        i,
        omega (arith, get_elem?-lt (members t) i at, length-take t.group_count t.groups),
        at ∙ ap some same,
        rw (e, remove) (ground arith),
      )
]

occurrences-remove :
    (t : GroupTable) (g h : ℕ)
    → IsValid t
    → is_member t g ≡ true
    → occurrences h (remove t g).0 + to_nat (g == h) ≡ occurrences h t
occurrences-remove t g h v m =
    let (i, e, at, eq) = remove_member t g v.is_attached m in
    rw eq (
      count-swap (λ x. x == h) t.groups (t.group_count - 1) i (omega (arith, v.within))
        (subst (λ k. get_elem? (take k t.groups) i ≡ some g) e at)
      ∙ ap (λ k. count (λ x. x == h) (take k t.groups)) (sym e))

remove_absent : (t : GroupTable) (g : ℕ) → is_member t g ≡ false → remove t g ≡ (t, false)
unfolding remove is_member
remove_absent t g m = ground arith

same_member : (t : GroupTable) (g h : ℕ) → (g == h) ≡ true → is_member t g ≡ is_member t h
same_member t g h e = ap (is_member t) (ground arith)

-- Membership follows the number of occurrences.
member_of_sum :
    (t t' : GroupTable) (h : ℕ) (b : Bool)
    → occurrences h t' ≡ occurrences h t + to_nat b
    → is_member t' h ≡ (is_member t h || b)
member_of_sum t t' h b e =
    rw (is_member-occurrences t h, is_member-occurrences t' h, e) (ground arith)

member_of_difference :
    (t t' : GroupTable) (h : ℕ) (b : Bool)
    → occurrences h t ≤ 1
    → occurrences h t' + to_nat b ≡ occurrences h t
    → is_member t' h ≡ (is_member t h && not b)
member_of_difference t t' h b u e =
    rw (is_member-occurrences t h, is_member-occurrences t' h) (ground arith)

add_new-IsValid :
    (t : GroupTable) (g : ℕ)
    → IsValid t
    → is_member t g ≡ false
    → t.group_count < length t.groups
    → IsValid (add t g).0
add_new-IsValid t g v m room = record {
  is_attached = rw (add_new t g v.is_attached m room) v.is_attached;
  within =
      rw (add_new t g v.is_attached m room)
        (omega (arith, room, length-set t.groups t.group_count g));
  distinct = λ h. elim (Bool-cases (g == h)) [
    | inl e ↦ ground (arith, occurrences-add t g h v.is_attached m room, not_listed t g h m e)
    | inr e ↦ ground (arith, occurrences-add t g h v.is_attached m room, v.distinct h)
  ];
}

remove_member-IsValid :
    (t : GroupTable) (g : ℕ) → IsValid t → is_member t g ≡ true → IsValid (remove t g).0
remove_member-IsValid t g v m =
    let (i, e, _, eq) = remove_member t g v.is_attached m in
    record {
      is_attached = rw eq v.is_attached;
      within =
          rw eq (
            omega (arith, v.within, length-set t.groups i (get_or t.groups (t.group_count - 1) 0)));
      distinct = λ h. omega (arith, occurrences-remove t g h v m, v.distinct h);
    }

-- In a valid table, `add` makes the group a member and changes no other membership; it refuses only a
-- new group in a full table, and then changes nothing. The table stays valid.
pub group_add_lem :
    (t : GroupTable) (g h : ℕ)
    → IsValid t
    → let (t', done) = add t g in
      (done ≡ (is_member t g || ltb t.group_count (length t.groups)))
      × (is_member t' h ≡ (is_member t h || (done && g == h)))
      × IsValid t'
group_add_lem t g h v = elim (Bool-cases (is_member t g)) [
  | inl m ↦ rw (add_known t g v.is_attached m, m) (refl, ground (arith, same_member t g h), v)
  | inr m ↦ elim (Bool-cases (ltb t.group_count (length t.groups))) [
    | inr full ↦ rw (add_full t g m (ground arith), m, full) (refl, ground arith, v)
    | inl room ↦
        let free = ltb→lt t.group_count (length t.groups) room in
        (
          ap (λ r. r.1) (add_new t g v.is_attached m free) ∙ rw (m, room) refl,
          member_of_sum t (add t g).0 h (g == h) (occurrences-add t g h v.is_attached m free)
              ∙ ap (λ (b : Bool). is_member t h || (b && g == h))
                  (sym (ap (λ r. r.1) (add_new t g v.is_attached m free))),
          add_new-IsValid t g v m free,
        )
  ]
]

-- In a valid table, `remove` ends the membership of the group, says whether it was one, and changes
-- no other membership. The table stays valid.
pub group_remove_lem :
    (t : GroupTable) (g h : ℕ)
    → IsValid t
    → let (t', found) = remove t g in
      (found ≡ is_member t g) × (is_member t' h ≡ (is_member t h && not (g == h))) × IsValid t'
group_remove_lem t g h v = elim (Bool-cases (is_member t g)) [
  | inr m ↦ rw (remove_absent t g m, m) (refl, ground (arith, same_member t g h), v)
  | inl m ↦
      let (i, _, _, eq) = remove_member t g v.is_attached m in
      (
        ap (λ r. r.1) eq ∙ sym m,
        member_of_difference t (remove t g).0 h (g == h) (v.distinct h)
            (occurrences-remove t g h v m),
        remove_member-IsValid t g v m,
      )
]

pub clear-IsValid : {t : GroupTable} → IsValid t → IsValid (clear t)
unfolding clear
clear-IsValid v = record {
  is_attached = v.is_attached;
  within = omega arith;
  distinct = λ g. omega arith;
}
