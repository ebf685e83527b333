-- ===== src/Requests.antt =====
-- lib/motion.c, lib/profile.c and lib/locks.c: the handlers of requests. A handler finds the connection of the client,
-- and calls the driver of that connection; it gives the status for the client and the new state. A
-- driver is its lock list, the entries of its class, which are arguments, and its own state. Where
-- the code follows a pointer to a driver that is null or gone, the model has no result.
pub mod Units
pub mod Safety
pub mod Locking
pub mod Profiles
pub mod Queries
mod Tests
use mcontrol.Base.{
  ℕ, not, Option, none, some, List, [], ◌∷◌, map, leb, ◌==◌, if◌then◌else◌, of_bool, ℤ, pos, wrap32,
  ebusy, einval, enotsup, er_bad_units,
}
use mcontrol.Motor.{
  Motor, OpProfile, Instruction, MoveType, absolute, relative, slew, StopType, mcstop, mchalt,
  mcestop, HomeType, find_motor_by_id, update_motor,
}
use mcontrol.Locks.{driver_is_locked, driver_lock, driver_unlock}
use mcontrol.Requests.Units.{Floats, distance_to_microrevs, distance_units_to_microrevs}
use mathlib.Core.Option

-- The entries of struct motor_driver that the handlers call; `none` is a null pointer.
pub record Entries (S : Type 0) : Type 0 where
  pub move : Option (Instruction → S → ℕ × S)
  pub stop : Option (StopType → S → ℕ × S)
  pub home : Option (HomeType → ℕ → S → ℕ × S)

pub record Running (S : Type 0) : Type 0 where
  pub id : ℕ
  pub locks : List ℕ
  pub entries : Entries S
  pub state : S

pub record World (S : Type 0) : Type 0 where
  pub motor_list : List Motor
  pub drivers : List (Running S)

pub find_running : {S : Type 0} → ℕ → List (Running S) → Option (Running S)
find_running id [] = none
find_running id (d ∷ ds) = let rest = find_running id ds in if d.id == id then some d else rest

-- A write through a pointer to a driver.
pub update_running : {S : Type 0} → ℕ → Running S → List (Running S) → List (Running S)
update_running id d' [] = []
update_running id d' (d ∷ ds) =
    let rest = update_running id d' ds in if d.id == id then d' ∷ ds else d ∷ rest

pub driver_of : {S : Type 0} → Motor → World S → Option (Running S)
unfolding find_running
driver_of m w = elim m.driver [ none ↦ none | some id ↦ find_running id w.drivers ]

abbrev pub Reply : Type 0 → Type 0
Reply S = Option (ℕ × World S)

-- A call that may change the driver of a connection.
pub with_driver :
    {S : Type 0}
    → World S
    → (Motor → Running S → ℕ × Running S)
    → Motor
    → Option (Running S)
    → Reply S
unfolding update_running
with_driver w f m none = none
with_driver w f m (some d) =
    let (status, d') = f m d in
    some (status, record w { drivers = update_running d.id d' w.drivers })

pub with_motor :
    {S : Type 0} → World S → (Motor → Running S → ℕ × Running S) → Option Motor → Reply S
unfolding with_driver driver_of
with_motor w f none = some (einval, w)
with_motor w f (some m) = with_driver w f m (driver_of m w)

-- What the handlers have in common: an unknown connection is EINVAL.
pub handle : {S : Type 0} → ℕ → ℕ → World S → (Motor → Running S → ℕ × Running S) → Reply S
unfolding with_motor
handle id pid w f = with_motor w f (find_motor_by_id id pid w.motor_list)

-- The entry of a driver, or ENOTSUP where it has none.
pub enter : {S : Type 0} → Option (S → ℕ × S) → Running S → ℕ × Running S
enter none d = (enotsup, d)
enter (some f) d = let (status, s) = f d.state in (status, record d { state = s })

-- The distance of a request in micro-revolutions: 0 stands for the units of the connection.
pub revs : {F : Type 0} → Floats F → Motor → ℤ → ℕ → ℕ × Option ℤ
revs fl m amount units =
    if units == 0
    then distance_to_microrevs fl m.op_profile amount
    else distance_units_to_microrevs fl m.op_profile amount units

abbrev pub amount_of : Option ℤ → ℤ
amount_of none = pos 0
amount_of (some z) = z

-- _move_check_and_get_revs, and the call of the driver behind it.
pub checked_move :
    {S : Type 0} {F : Type 0} → Floats F → MoveType → ℤ → ℕ → Motor → Running S → ℕ × Running S
unfolding revs enter
checked_move fl type amount units m d =
    let (status, urevs) = revs fl m amount units in
    let command : Instruction = record {
      type = type;
      amount = amount_of urevs;
      profile = m.profile;
    } in
    if not (status == 0)
    then (status, d)
    else if driver_is_locked d.locks
    then (ebusy, d)
    else enter (Option.map (λ move. move command) d.entries.move) d

module _ {S : Type 0} {F : Type 0} (fl : Floats F) (id pid : ℕ) (w : World S) where
  -- mcMoveAbsolute
  pub move_absolute : ℤ → Reply S
  unfolding handle checked_move
  move_absolute distance = handle id pid w (checked_move fl absolute distance 0)

  -- mcMoveAbsoluteUnits
  pub move_absolute_units : ℤ → ℕ → Reply S
  unfolding handle checked_move
  move_absolute_units distance units = handle id pid w (checked_move fl absolute distance units)

  -- mcMoveRelative
  pub move_relative : ℤ → Reply S
  unfolding handle checked_move
  move_relative distance = handle id pid w (checked_move fl relative distance 0)

  -- mcMoveRelativeUnits
  pub move_relative_units : ℤ → ℕ → Reply S
  unfolding handle checked_move
  move_relative_units distance units = handle id pid w (checked_move fl relative distance units)

  -- mcSlew
  pub slew_at : ℤ → Reply S
  unfolding handle checked_move
  slew_at rate = handle id pid w (checked_move fl slew rate 0)

  -- mcSlewUnits
  pub slew_at_units : ℤ → ℕ → Reply S
  unfolding handle checked_move
  slew_at_units rate units = handle id pid w (checked_move fl slew rate units)

module _ {S : Type 0} (id pid : ℕ) (w : World S) where
  pub stop_by : StopType → Reply S
  unfolding handle enter
  stop_by type = handle id pid w (λ m d. enter (Option.map (λ stop. stop type) d.entries.stop) d)

  -- mcStop
  pub stop : Reply S
  unfolding stop_by
  stop = stop_by mcstop

  -- mcHalt
  pub halt : Reply S
  unfolding stop_by
  halt = stop_by mchalt

  -- mcEStop
  pub estop : Reply S
  unfolding stop_by
  estop = stop_by mcestop

  -- mcHome
  pub home : HomeType → ℕ → Reply S
  unfolding handle enter
  home type direction =
      handle id pid w (λ m d. enter (Option.map (λ home. home type direction) d.entries.home) d)

  -- A change of the lock list of a driver, which has no result where it leaves the array.
  pub change_locks : (List ℕ → Option (ℕ × List ℕ)) → Reply S
  unfolding driver_of update_running
  change_locks f = elim (find_motor_by_id id pid w.motor_list) [
    | none ↦ some (einval, w)
    | some m ↦ elim (driver_of m w) [
      | none ↦ none
      | some d ↦
          Option.map
            (λ r. (
              r.0,
              record w { drivers = update_running d.id (record d { locks = r.1 }) w.drivers },
            ))
            (f d.locks)
    ]
  ]

  -- mcMotorLock
  pub motor_lock : ℕ → Reply S
  unfolding change_locks
  motor_lock for_motor_id = change_locks (λ ls. driver_lock ls for_motor_id)

  -- mcMotorUnlock
  pub motor_unlock : ℕ → Reply S
  unfolding change_locks
  motor_unlock for_motor_id = change_locks (λ ls. driver_unlock ls for_motor_id)

  -- mcMotorIsLocked: the truth value is the status.
  pub motor_is_locked : Reply S
  unfolding handle
  motor_is_locked = handle id pid w (λ m d. (of_bool (driver_is_locked d.locks), d))

  -- mcUnitScaleSet
  pub unit_scale_set : ℕ → ℤ → ℕ × World S
  unit_scale_set units urevs = elim (find_motor_by_id id pid w.motor_list) [
    | none ↦ (einval, w)
    | some m ↦ if leb units 1 then (er_bad_units, w) else (
      0,
      record w {
        motor_list =
            update_motor id pid
              (λ x. record x { op_profile = record { units = units; scale = urevs } }) w.motor_list;
      },
    )
  ]

  -- mcUnitScaleGet: the scale goes to an int.
  pub unit_scale_get : ℕ × Option (ℕ × ℤ)
  unit_scale_get = elim (find_motor_by_id id pid w.motor_list) [
    | none ↦ (einval, none)
    | some m ↦ (0, some (m.op_profile.units, wrap32 m.op_profile.scale))
  ]
