-- ===== src/Motor/Find.antt =====
-- find_motor_by_id of lib/motor.c: who can reach a connection, before and after other calls.
use mcontrol.Base.{
  ℕ, ◌≡◌, refl, ◌≢◌, inl, inr, true, not, some, List, [], ◌∷◌, arith, Bool-cases, Option-cases,
}
use mcontrol.Base.Slots.{All, fill}
use mcontrol.Motor.{Motor, find_motor_by_id, update_motor}
use mcontrol.Motor.Count.{Known}

-- A connection is found only under its own id, by the process that opened it, while it is active.
pub find_owner :
    (id pid : ℕ) (ms : List Motor) (m : Motor)
    → find_motor_by_id id pid ms ≡ some m
    → (m.id ≡ id) × (m.client_pid ≡ pid) × (m.active ≡ true)
unfolding find_motor_by_id
find_owner id pid [] m e = cc
find_owner id pid (x ∷ ms) m e = ground (arith, find_owner id pid ms m)

-- The connection that the first inactive slot takes, under an id above all others, is what its
-- client finds under that id.
pub find-fill :
    (uid pid : ℕ) (v : Motor) (ms ys : List Motor)
    → All (Known uid) ms
    → v.id ≡ uid
    → uid ≢ 0
    → v.client_pid ≡ pid
    → v.active ≡ true
    → fill (λ x. not x.active) v ms ≡ some ys
    → find_motor_by_id uid pid ys ≡ some v
unfolding find_motor_by_id
find-fill uid pid v [] ys k i z c a e = cc
find-fill uid pid v (x ∷ ms) ys k i z c a e = elim (Bool-cases x.active) [
  | inl q ↦ elim (Option-cases (fill (λ x. not x.active) v ms)) [
    | inl n ↦ ground arith
    | inr (zs, n) ↦ ground (arith, find-fill uid pid v ms zs k.1 i z c a n, k.0.1 q)
  ]
  | inr q ↦ ground arith
]

-- A write to one connection leaves those of other ids as they are found.
pub find-update_ne :
    (id pid id' pid' : ℕ) (f : Motor → Motor) (ms : List Motor)
    → id' ≢ id
    → ((m : Motor) → (f m).id ≡ m.id)
    → find_motor_by_id id' pid' (update_motor id pid f ms) ≡ find_motor_by_id id' pid' ms
unfolding find_motor_by_id update_motor
find-update_ne id pid id' pid' f [] n h = refl
find-update_ne id pid id' pid' f (x ∷ ms) n h =
    ground (arith, find-update_ne id pid id' pid' f ms n h, h x)

-- A write that keeps id, process and activity is found under the same id by the same process.
pub find-update_self :
    (id pid : ℕ) (f : Motor → Motor) (ms : List Motor) (m : Motor)
    → ((x : Motor)
        → ((f x).id ≡ x.id) × ((f x).client_pid ≡ x.client_pid) × ((f x).active ≡ x.active))
    → find_motor_by_id id pid ms ≡ some m
    → find_motor_by_id id pid (update_motor id pid f ms) ≡ some (f m)
unfolding find_motor_by_id update_motor
find-update_self id pid f [] m keeps h = cc
find-update_self id pid f (x ∷ ms) m keeps h =
    ground (arith, keeps x, find-update_self id pid f ms m keeps)
