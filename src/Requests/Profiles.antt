-- ===== src/Requests/Profiles.antt =====
-- lib/profile.c: the handlers that set and read the motion profile of a connection.
pub mod Converted
use mcontrol.Base.{
  ℕ, zero, suc, Bool, not, ◌&&◌, Option, none, some, ◌==◌, if◌then◌else◌, ℤ, pos, wrap32,
  unsigned64, signed64, einval,
}
use mcontrol.Motor.{Motor, Profile, OpProfile, Measurement, find_motor_by_id, update_motor}
use mcontrol.Requests.{World}
use mcontrol.Requests.Units.{
  Floats, micro_revs, or_zero, distance_units_to_microrevs, microrevs_to_distance_units,
}

-- A measurement that has a value, in units other than micro-revolutions.
abbrev pub in_units : Measurement → Bool
in_units m = not (m.value == 0) && not (m.units == micro_revs)

-- The conversion of one measurement; the distance is an int.
pub convert : {F : Type 0} → Floats F → OpProfile → Measurement → ℕ × Measurement
convert fl op m =
    let (status, urevs) = distance_units_to_microrevs fl op (wrap32 (pos m.value)) m.units in
    if in_units m
    then if status == 0
      then (0, record { value = unsigned64 (or_zero urevs); units = micro_revs })
      else (status, m)
    else (0, m)

-- One of the six measurements of a profile, unless an earlier one has failed.
pub convert_next :
    {F : Type 0}
    → Floats F
    → OpProfile
    → (Profile → Measurement)
    → (Measurement → Profile → Profile)
    → ℕ × Profile
    → ℕ × Profile
unfolding convert
convert_next fl op get put (suc status, p) = (suc status, p)
convert_next fl op get put (zero, p) = let (status, m) = convert fl op (get p) in (status, put m p)

pub converted : {F : Type 0} → Floats F → OpProfile → Profile → ℕ × Profile
unfolding convert_next
converted fl op p =
    let t1 = convert_next fl op (λ q. q.accel) (λ m q. record q { accel = m }) (0, p) in
    let t2 = convert_next fl op (λ q. q.decel) (λ m q. record q { decel = m }) t1 in
    let t3 = convert_next fl op (λ q. q.vmax) (λ m q. record q { vmax = m }) t2 in
    let t4 = convert_next fl op (λ q. q.vstart) (λ m q. record q { vstart = m }) t3 in
    let t5 = convert_next fl op (λ q. q.slip_max) (λ m q. record q { slip_max = m }) t4 in
    convert_next fl op (λ q. q.accuracy) (λ m q. record q { accuracy = m }) t5

module _ {S : Type 0} {F : Type 0} (fl : Floats F) (id pid : ℕ) (w : World S) where
  -- The stored profile, for the connection that has been found.
  pub stored : Profile → Option Motor → ℕ × World S
  unfolding converted
  stored p none = (einval, w)
  stored p (some m) =
      let (status, p') = converted fl m.op_profile p in
      (
        status,
        record w { motor_list = update_motor id pid (λ x. record x { profile = p' }) w.motor_list },
      )

  -- mcProfileSet: the profile is stored, in the units in which its conversion leaves it.
  pub profile_set : Profile → ℕ × World S
  unfolding stored
  profile_set p = stored p (find_motor_by_id id pid w.motor_list)

  -- mcProfileGet
  pub profile_get : ℕ × Option Profile
  profile_get = elim (find_motor_by_id id pid w.motor_list) [
    | none ↦ (einval, none)
    | some m ↦ (0, some m.profile)
  ]

  -- What the getters of one measurement share: the status of the conversion is not looked at.
  pub profile_get_measure : (Profile → Measurement) → ℕ → ℕ × Option ℤ
  profile_get_measure get units = elim (find_motor_by_id id pid w.motor_list) [
    | none ↦ (einval, none)
    | some m ↦
        (0, (microrevs_to_distance_units fl m.op_profile (signed64 (get m.profile).value) units).1)
  ]

  -- mcProfileGetAccel
  pub profile_get_accel : ℕ → ℕ × Option ℤ
  unfolding profile_get_measure
  profile_get_accel = profile_get_measure (λ p. p.accel)

  -- mcProfileGetDecel
  pub profile_get_decel : ℕ → ℕ × Option ℤ
  unfolding profile_get_measure
  profile_get_decel = profile_get_measure (λ p. p.decel)

  -- mcProfileGetInitialV
  pub profile_get_initial_v : ℕ → ℕ × Option ℤ
  unfolding profile_get_measure
  profile_get_initial_v = profile_get_measure (λ p. p.vstart)

  -- mcProfileGetMaxV
  pub profile_get_max_v : ℕ → ℕ × Option ℤ
  unfolding profile_get_measure
  profile_get_max_v = profile_get_measure (λ p. p.vmax)

  -- mcProfileGetDeadband
  pub profile_get_deadband : ℕ → ℕ × Option ℤ
  unfolding profile_get_measure
  profile_get_deadband = profile_get_measure (λ p. p.accuracy)

  -- mcProfileGetMaxSlip
  pub profile_get_max_slip : ℕ → ℕ × Option ℤ
  unfolding profile_get_measure
  profile_get_max_slip = profile_get_measure (λ p. p.slip_max)
