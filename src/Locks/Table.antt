-- ===== src/Locks/Table.antt =====
-- The lock list of lib/locks.c as a set of motor ids.
use mcontrol.Base.{
  ℕ, zero, suc, ◌+◌, ◌≤◌, ◌<◌, ◌≡◌, refl, ap, subst, ◌≢◌, ◌↔◌, ◌⊎◌, inl, inr, true, false, none,
  some, List, [], ◌∷◌, arith, ◌==◌, if◌then◌else◌, of_bool, Bool-cases, Option-cases, length,
  get_or, set, length-set, get_or-set, count, count-set, enoent,
}
use mcontrol.Locks.{end_of_list, found_lock, driver_lock, driver_unlock, driver_is_locked}

-- The first `n` entries hold ids, the others are zero.
pub record IsCompact (n : ℕ) (ls : List ℕ) : Type 0 where
  pub room : n < length ls
  pub used : (i : ℕ) → i < n → get_or ls i 0 ≢ 0
  pub free : (i : ℕ) → n ≤ i → get_or ls i 0 ≡ 0

tail-IsCompact : {n k : ℕ} {ls : List ℕ} → IsCompact (suc n) (k ∷ ls) → IsCompact n ls
tail-IsCompact v = record {
  room = omega arith;
  used = λ i h. v.used (suc i) (omega arith);
  free = λ i h. v.free (suc i) (omega arith);
}

end_of_list_lem : (n : ℕ) (ls : List ℕ) → IsCompact n ls → end_of_list ls ≡ some n
unfolding end_of_list
end_of_list_lem n [] v = absurd (omega arith)
end_of_list_lem zero (zero ∷ ls) v = refl
end_of_list_lem zero (suc k ∷ ls) v = cc (v.free 0 (omega arith))
end_of_list_lem (suc n) (zero ∷ ls) v = absurd (v.used 0 (omega arith) refl)
end_of_list_lem (suc n) (suc k ∷ ls) v = rw (end_of_list_lem n ls (tail-IsCompact v))

-- Where mcDriverUnlock finds the id.
found_lock-eq-some :
    (id i n : ℕ) (ls : List ℕ)
    → IsCompact n ls
    → found_lock id ls ≡ some i
    → (i < n) × (get_or ls i 0 ≡ id)
unfolding found_lock
found_lock-eq-some id i n [] v e = cc
found_lock-eq-some id i n (zero ∷ ls) v e = cc
found_lock-eq-some id i zero (suc k ∷ ls) v e = absurd (omega (arith, v.free 0 (omega arith)))
found_lock-eq-some id i (suc n) (suc k ∷ ls) v e = elim (Option-cases (found_lock id ls)) [
  | inl q ↦ ground arith
  | inr (j, q) ↦ ground (arith, found_lock-eq-some id j n ls (tail-IsCompact v) q)
]

found_lock-eq-none :
    (id n : ℕ) (ls : List ℕ)
    → IsCompact n ls
    → found_lock id ls ≡ none
    → (i : ℕ) → i < n
    → get_or ls i 0 ≢ id
unfolding found_lock
found_lock-eq-none id zero ls v e i h = elim h [ ]
found_lock-eq-none id (suc n) [] v e i h = absurd (omega (arith, v.room))
found_lock-eq-none id (suc n) (zero ∷ ls) v e i h = absurd (v.used 0 (omega arith) refl)
found_lock-eq-none id (suc n) (suc k ∷ ls) v e zero h = elim (Option-cases (found_lock id ls)) [
  | inl q ↦ ground arith
  | inr (j, q) ↦ ground arith
]
found_lock-eq-none id (suc n) (suc k ∷ ls) v e (suc i) h = elim (Option-cases (found_lock id ls)) [
  | inl q ↦ found_lock-eq-none id n ls (tail-IsCompact v) q i (omega arith)
  | inr (j, q) ↦ ground arith
]

lock_run :
    (id n : ℕ) (ls : List ℕ)
    → IsCompact n ls
    → ((i : ℕ) × (i < n) × (get_or ls i 0 ≡ id) × (driver_lock ls id ≡ some (0, ls)))
      ⊎ (((i : ℕ) → i < n → get_or ls i 0 ≢ id) × (driver_lock ls id ≡ some (0, set ls n id)))
unfolding driver_lock
lock_run id n [] v = absurd (omega (arith, v.room))
lock_run id zero (zero ∷ ls) v = inr ((λ i h. elim h [ ]), refl)
lock_run id zero (suc k ∷ ls) v = absurd (omega (arith, v.free 0 (omega arith)))
lock_run id (suc n) (zero ∷ ls) v = absurd (v.used 0 (omega arith) refl)
lock_run id (suc n) (suc k ∷ ls) v = elim (Bool-cases (suc k == id)) [
  | inl e ↦ inl (0, (omega arith), ground arith, rw e)
  | inr e ↦ elim (lock_run id n ls (tail-IsCompact v)) [
    | inl (i, h, q, r) ↦ inl (suc i, omega arith, q, rw (e, r))
    | inr (h, r) ↦ inr (apart n k id ls e h, rw (e, r))
  ]
]
  where
    apart :
        (n k id : ℕ) (ls : List ℕ)
        → (suc k == id) ≡ false
        → ((i : ℕ) → i < n → get_or ls i 0 ≢ id)
        → (i : ℕ) → i < suc n
        → get_or (suc k ∷ ls) i 0 ≢ id
    apart n k id ls e h zero l = ground arith
    apart n k id ls e h (suc i) l = h i (omega arith)

set-IsCompact :
    (n id : ℕ) (ls : List ℕ)
    → IsCompact n ls
    → n + 1 < length ls
    → id ≢ 0
    → IsCompact (suc n) (set ls n id)
set-IsCompact n id ls v r z = record {
  room = omega (arith, length-set ls n id);
  used = λ i h. rw (get_or-set ls n i id 0 (omega arith)) (used i h);
  free = λ i h. rw (get_or-set ls n i id 0 (omega arith)) (ground (arith, v.free i));
}
  where
    used : (i : ℕ) → i < suc n → (if n == i then id else get_or ls i 0) ≢ 0
    used i h = elim (Bool-cases (n == i)) [
      | inl e ↦ rw e z
      | inr e ↦ rw e (v.used i (ground arith))
    ]

-- A lock list with room takes a lock for a motor: the call returns 0; an id that is held already
-- changes nothing, and another is held once more, all others as often as before.
pub lock_lem :
    (id n : ℕ) (ls : List ℕ)
    → IsCompact n ls
    → n + 1 < length ls
    → id ≢ 0
    → (ls' : List ℕ) × (driver_lock ls id ≡ some (0, ls'))
      × ((ls' ≡ ls)
          ⊎ (IsCompact (suc n) ls'
              × ((i : ℕ) → i < n → get_or ls i 0 ≢ id)
              × ((x : ℕ) → x ≢ 0 → count x ls' ≡ count x ls + of_bool (id == x))))
lock_lem id n ls v r z = elim (lock_run id n ls v) [
  | inl (i, h, q, e) ↦ (ls, e, inl refl)
  | inr (h, e) ↦ (
    set ls n id,
    e,
    inr (
      set-IsCompact n id ls v r z,
      h,
      λ x p. ground (arith, count-set x ls n id (omega arith), v.free n (omega arith)),
    ),
  )
]

-- The array that mcDriverUnlock leaves: the last entry `m` in the place of entry `i`.
abbrev moved : List ℕ → ℕ → ℕ → List ℕ
moved ls i m = set (set ls i (get_or ls m 0)) m 0

moved_at :
    (ls : List ℕ) (i m j : ℕ)
    → i < length ls
    → m < length ls
    → get_or (moved ls i m) j 0
      ≡ (if m == j then 0 else if i == j then get_or ls m 0 else get_or ls j 0)
moved_at ls i m j h k =
    rw
      (get_or-set (set ls i (get_or ls m 0)) m j 0 0
        (omega (arith, length-set ls i (get_or ls m 0))))
      (rw (get_or-set ls i j (get_or ls m 0) 0 h))

moved-IsCompact :
    (i m : ℕ) (ls : List ℕ) → i < suc m → IsCompact (suc m) ls → IsCompact m (moved ls i m)
moved-IsCompact i m ls h v = record {
  room =
      omega
        (arith, v.room, length-set (set ls i (get_or ls m 0)) m 0, length-set ls i (get_or ls m 0));
  used = λ j l.
      rw (moved_at ls i m j (omega (arith, v.room)) (omega (arith, v.room)))
        (ground (arith, v.used j (omega arith), v.used m (omega arith)));
  free = λ j l. rw (moved_at ls i m j (omega (arith, v.room)) (omega (arith, v.room))) (free j l);
}
  where
    free :
        (j : ℕ)
        → m ≤ j
        → (if m == j then 0 else if i == j then get_or ls m 0 else get_or ls j 0) ≡ 0
    free j l = elim (Bool-cases (m == j)) [
      | inl e ↦ rw e
      | inr e ↦ ground (arith, v.free j (ground arith))
    ]

count-moved :
    (x i m : ℕ) (ls : List ℕ)
    → i < length ls
    → m < length ls
    → x ≢ 0
    → count x (moved ls i m) + of_bool (get_or ls i 0 == x) ≡ count x ls
count-moved x i m ls h k z = ground (
  arith,
  count-set x ls i (get_or ls m 0) h,
  count-set x (set ls i (get_or ls m 0)) m 0 (omega (arith, length-set ls i (get_or ls m 0))),
  get_or-set ls i m (get_or ls m 0) 0 h,
)

-- Unlocking for a motor that holds a lock drops one of its entries and keeps all others, each as
-- often as before; for one that holds none it returns ENOENT and changes nothing.
pub unlock_lem :
    (id m : ℕ) (ls : List ℕ)
    → IsCompact (suc m) ls
    → ((ls' : List ℕ) × (driver_unlock ls id ≡ some (0, ls'))
        × IsCompact m ls'
        × ((x : ℕ) → x ≢ 0 → count x ls' + of_bool (id == x) ≡ count x ls))
      ⊎ ((driver_unlock ls id ≡ some (enoent, ls)) × ((i : ℕ) → i < suc m → get_or ls i 0 ≢ id))
unfolding driver_unlock
unlock_lem id m ls v = elim (Option-cases (found_lock id ls)) [
  | inl e ↦
      inr
        (rw (end_of_list_lem (suc m) ls v, e, driver_unlock), found_lock-eq-none id (suc m) ls v e)
  | inr (i, e) ↦
      let s = found_lock-eq-some id i (suc m) ls v e in
      inl (
        moved ls i m,
        found e,
        moved-IsCompact i m ls s.0 v,
        λ x z.
            subst (λ k. count x (moved ls i m) + of_bool (k == x) ≡ count x ls) s.1
              (count-moved x i m ls (omega (arith, v.room)) (omega (arith, v.room)) z),
      )
]
  where
    found : {i : ℕ} → found_lock id ls ≡ some i → driver_unlock ls id ≡ some (0, moved ls i m)
    found {i} e =
        rw (end_of_list_lem (suc m) ls v, e, driver_unlock)
          (ap (λ k. some (0, set (set ls i (get_or ls k 0)) k 0)) (omega arith))

-- A driver is locked exactly when an entry is in use.
pub is_locked_iff : (n : ℕ) (ls : List ℕ) → IsCompact n ls → (driver_is_locked ls ≡ true) ↔ (0 < n)
unfolding driver_is_locked
is_locked_iff zero ls v = (λ h. ground (arith, v.free 0 (omega arith)), λ h. elim h [ ])
is_locked_iff (suc n) ls v = (λ h. omega arith, λ h. ground (arith, v.used 0 (omega arith)))

-- A driver that mcDriverLock has locked is locked, whatever else its list holds.
pub driver_lock-is_locked :
    (ls : List ℕ) (id status : ℕ) (ls' : List ℕ)
    → id ≢ 0
    → driver_lock ls id ≡ some (status, ls')
    → (status ≡ 0) × (driver_is_locked ls' ≡ true)
unfolding driver_lock driver_is_locked
driver_lock-is_locked [] id status ls' n h = cc
driver_lock-is_locked (zero ∷ ls) id status ls' n h = ground arith
driver_lock-is_locked (suc k ∷ ls) id status ls' n h = elim (Option-cases (driver_lock ls id)) [
  | inl q ↦ ground arith
  | inr ((s, rest), q) ↦ ground (arith, driver_lock-is_locked ls id s rest n q)
]
