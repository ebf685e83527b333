-- ===== src/Locks.antt =====
-- lib/locks.c: the lock list of a driver, the array `locks` of 32 motor ids ended by a zero. Where a
-- scan would leave the array, which C does not stop, the model has no result.
pub mod Table
mod Tests
use mcontrol.Base.{
  ℕ, zero, suc, ◌-◌, ◌==◌, Bool, not, List, [], ◌∷◌, Option, none, some, get_or, set, if◌then◌else◌,
  enoent,
}
use mathlib.Core.Option

-- `while (*lock != 0) lock++`: the index of the zero.
unfoldable pub end_of_list : List ℕ → Option ℕ
end_of_list [] = none
end_of_list (zero ∷ ls) = some 0
end_of_list (suc k ∷ ls) = Option.map suc (end_of_list ls)

-- The last entry before the zero that holds the id, as `found_lock` of mcDriverUnlock.
unfoldable pub found_lock : ℕ → List ℕ → Option ℕ
found_lock id [] = none
found_lock id (zero ∷ ls) = none
found_lock id (suc k ∷ ls) = elim (found_lock id ls) [
  | none ↦ if suc k == id then some 0 else none
  | some i ↦ some (suc i)
]

-- mcDriverLock: the id is written over the zero, unless an entry holds it.
unfoldable pub driver_lock : List ℕ → ℕ → Option (ℕ × List ℕ)
driver_lock [] id = none
driver_lock (zero ∷ ls) id = some (0, id ∷ ls)
driver_lock (suc k ∷ ls) id =
    let rest = driver_lock ls id in
    if suc k == id then some (0, suc k ∷ ls) else Option.map (λ r. (r.0, suc k ∷ r.1)) rest

-- mcDriverUnlock: the last entry moves to the place of the one that is dropped.
unfoldable pub driver_unlock : List ℕ → ℕ → Option (ℕ × List ℕ)
unfolding end_of_list found_lock
driver_unlock ls id = elim (end_of_list ls) [
  | none ↦ none
  | some lock ↦ elim (found_lock id ls) [
    | none ↦ some (enoent, ls)
    | some found ↦ some (0, set (set ls found (get_or ls (lock - 1) 0)) (lock - 1) 0)
  ]
]

-- mcDriverIsLocked
unfoldable pub driver_is_locked : List ℕ → Bool
driver_is_locked ls = not (get_or ls 0 0 == 0)
