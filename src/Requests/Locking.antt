-- ===== src/Requests/Locking.antt =====
-- lib/locks.c and lib/motion.c: a lock that one client takes, and the requests of all.
use mcontrol.Base.{
  ℕ, ◌≡◌, refl, ap, ◌∙◌, ◌≢◌, inl, inr, true, false, Option, none, some, List, [], ◌∷◌, arith, ◌==◌,
  Bool-cases,
}
use mcontrol.Locks.{driver_lock}
use mcontrol.Locks.Table.{driver_lock-is_locked}
use mcontrol.Motor.{Motor, find_motor_by_id}
use mcontrol.Requests.{
  Running, World, find_running, update_running, driver_of, change_locks, motor_lock,
}
use mcontrol.Requests.Units.{Floats}
use mcontrol.Requests.Safety.{MoveRequest, asked, asked-locked, found_id, or_this}

-- What is found where a driver was written back.
find-update :
    {S : Type 0} (id : ℕ) (d d' : Running S) (ds : List (Running S))
    → find_running id ds ≡ some d
    → d'.id ≡ d.id
    → find_running id (update_running d.id d' ds) ≡ some d'
unfolding find_running update_running
find-update id d d' [] h e = cc
find-update {S} id d d' (x ∷ ds) h e = elim (Bool-cases (x.id == id)) [
  | inl same ↦
      let q : some x ≡ some d = rw same at h in
      let xd : x.id ≡ d.id = ap (λ (o : Option (Running S)). (or_this x o).id) q in
      let here : (x.id == d.id) ≡ true = ground arith in
      let there : (d'.id == id) ≡ true = ground arith in rw here (rw there refl)
  | inr other ↦
      let q : find_running id ds ≡ some d = rw other at h in
      let apart : (x.id == d.id) ≡ false = ground (arith, found_id id d ds q) in
      rw apart (rw other (find-update id d d' ds q e))
]

driver_of-update :
    {S : Type 0} (m : Motor) (d d' : Running S) (w : World S)
    → driver_of m w ≡ some d
    → d'.id ≡ d.id
    → driver_of m (record w { drivers = update_running d.id d' w.drivers }) ≡ some d'
unfolding driver_of
driver_of-update {S} m d d' w h e = by_driver m.driver h
  where
    by_driver :
        (o : Option ℕ)
        → (elim o [ none ↦ none | some id ↦ find_running id w.drivers ]) ≡ some d
        → (elim o [ none ↦ none | some id ↦ find_running id (update_running d.id d' w.drivers) ])
          ≡ some d'
    by_driver none q = cc
    by_driver (some id) q = find-update id d d' w.drivers q e

-- Two connections of one driver find the same.
driver_of-same :
    {S : Type 0} (m m' : Motor) (w : World S)
    → m'.driver ≡ m.driver
    → driver_of m' w ≡ driver_of m w
unfolding driver_of
driver_of-same {S} m m' w h =
    ap
      (λ (o : Option ℕ). elim o as (λ x. Option (Running S)) [
        | none ↦ none
        | some id ↦ find_running id w.drivers
      ])
      h

-- Once a client has locked the driver of its motor, no client moves a motor of that driver: mcMotorLock
-- has returned 0, and a request to move any connection of the driver returns an error and leaves all
-- as it was. That holds for a lock with an id that is not 0, in a list with room for it.
pub motor_lock-asked :
    {S : Type 0} {F : Type 0} (fl : Floats F) (id pid for_motor_id : ℕ) (w : World S) (m : Motor)
    (d : Running S) (status : ℕ) (ls : List ℕ) (id' pid' : ℕ) (m' : Motor) (q : MoveRequest)
    → find_motor_by_id id pid w.motor_list ≡ some m
    → driver_of m w ≡ some d
    → for_motor_id ≢ 0
    → driver_lock d.locks for_motor_id ≡ some (status, ls)
    → find_motor_by_id id' pid' w.motor_list ≡ some m'
    → m'.driver ≡ m.driver
    → (w' : World S) × (error : ℕ) × (motor_lock id pid w for_motor_id ≡ some (0, w'))
      × (error ≢ 0)
      × (asked fl id' pid' w' q ≡ some (error, w'))
unfolding motor_lock change_locks
motor_lock-asked {S} fl id pid for_motor_id w m d status ls id' pid' m' q found driven nonzero locks
      found' same =
    let d' : Running S = record d { locks = ls } in
    let w' : World S = record w { drivers = update_running d.id d' w.drivers } in
    let (zero_status, locked) =
      driver_lock-is_locked d.locks for_motor_id status ls nonzero locks in
    let driven' : driver_of m' w' ≡ some d' =
      driver_of-same m m' w' same ∙ driver_of-update m d d' w driven refl in
    let (error, bad, refused) = asked-locked fl id' pid' w' q m' d' found' driven' locked in
    (
      w',
      error,
      rw (found, change_locks) (rw driven (rw locks (ap (λ n. some (n, w')) zero_status))),
      bad,
      refused,
    )
