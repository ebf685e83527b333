-- ===== src/Locks/Tests.antt =====
-- The theorems about lock lists at concrete inputs.
use mcontrol.Base.{
  ℕ, zero, suc, ◌≤◌, ◌<◌, ◌≡◌, refl, ◌≢◌, ◌↔◌, true, none, some, List, [], ◌∷◌, arith, get_or,
}
use mcontrol.Locks.{driver_lock, driver_unlock, driver_is_locked}
use mcontrol.Locks.Table.{IsCompact, is_locked_iff}

abbrev two_locks : List ℕ
two_locks = 4 ∷ 7 ∷ 0 ∷ 0 ∷ []

two_locks-IsCompact : IsCompact 2 two_locks
two_locks-IsCompact = record { room = omega arith; used = used; free = free }
  where
    used : (i : ℕ) → i < 2 → get_or two_locks i 0 ≢ 0
    used zero h = omega arith
    used (suc zero) h = omega arith
    used (suc (suc i)) h = absurd (omega arith)

    free : (i : ℕ) → 2 ≤ i → get_or two_locks i 0 ≡ 0
    free zero h = absurd (omega arith)
    free (suc zero) h = absurd (omega arith)
    free (suc (suc zero)) h = refl
    free (suc (suc (suc zero))) h = refl
    free (suc (suc (suc (suc i)))) h = refl

-- The last entry takes the place of the one that is dropped.
unlock_moves : driver_unlock two_locks 4 ≡ some (0, 7 ∷ 0 ∷ 0 ∷ 0 ∷ [])
unfolding driver_unlock
unlock_moves = refl

-- With every entry in use no zero ends the list, and a scan leaves the array.
lock_overrun : driver_lock (4 ∷ 7 ∷ []) 9 ≡ none
unfolding driver_lock
lock_overrun = refl

is_locked_iff_example : (driver_is_locked two_locks ≡ true) ↔ (0 < 2)
is_locked_iff_example = is_locked_iff 2 two_locks two_locks-IsCompact
