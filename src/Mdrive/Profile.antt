-- ===== src/Mdrive/Profile.antt =====
-- drivers/mdrive/profile.c: the motion profile of a unit, loaded when it is first needed, and told to
-- the unit only where it changes.
pub mod Setting
pub mod Still
use mcontrol.Base.{
  unsigned64, signed64, ℕ, ◌%◌, true, ◌||◌, List, [], ◌∷◌, ◌==◌, if◌then◌else◌, ascii, ℤ, pos,
  eqb_ℤ, ltb_ℤ, eio, einval, enotsup,
}
use mcontrol.Motor.{Profile, Measurement}
use mcontrol.Mdrive.Dialogue.{Transmit, get_integers, set_variable}
use mcontrol.Mdrive.Axis.{Axis, lazyload_motion_config, microrevs_to_steps, steps_to_microrevs}

abbrev pub micro_revs : ℕ
micro_revs = 2

-- An int that is stored as an unsigned char.
abbrev pub byte_of : ℤ → ℕ
byte_of z = unsigned64 z % 256

-- A measurement that is loaded from the unit, in steps there.
abbrev pub Put : Type 0
Put = Measurement → Profile → Profile

abbrev pub put_accel : Put
put_accel m p = record p { accel = m }

abbrev pub put_decel : Put
put_decel m p = record p { decel = m }

abbrev pub put_vmax : Put
put_vmax m p = record p { vmax = m }

abbrev pub put_vstart : Put
put_vstart m p = record p { vstart = m }

abbrev pub put_slip_max : Put
put_slip_max m p = record p { slip_max = m }

abbrev pub put_accuracy : Put
put_accuracy m p = record p { accuracy = m }

pub load_measure : Transmit → Put → ℤ → Axis → Axis
load_measure transmit put steps u =
    let (urevs, u') = steps_to_microrevs transmit steps u in
    let m : Measurement = record { value = unsigned64 urevs; units = micro_revs } in
    record u' { profile = put m u'.profile }

-- The values of A, D, VM, VI, SF, RC, HC, DB and P.
pub take_profile : Transmit → List ℤ → Axis → Axis
unfolding load_measure
take_profile transmit (a ∷ d ∷ vm ∷ vi ∷ sf ∷ rc ∷ hc ∷ db ∷ p ∷ rest) u =
    let u1 = load_measure transmit put_accel a u in
    let u2 = load_measure transmit put_decel d u1 in
    let u3 = load_measure transmit put_vmax vm u2 in
    let u4 = load_measure transmit put_vstart vi u3 in
    let u5 = load_measure transmit put_slip_max sf u4 in
    let u6 = load_measure transmit put_accuracy db u5 in
    record u6 {
      profile = record u6.profile { current_run = byte_of rc; current_hold = byte_of hc };
      position = p;
      loaded_profile = true;
    }
take_profile transmit values u = u

abbrev pub profile_variables : List (List ℕ)
profile_variables =
    ascii "D"
    ∷ ascii "VM"
    ∷ ascii "VI"
    ∷ ascii "SF"
    ∷ ascii "RC"
    ∷ ascii "HC"
    ∷ ascii "DB"
    ∷ ascii "P"
    ∷ []

-- mdrive_lazyload_profile
pub lazyload_profile : Transmit → Axis → ℕ × Axis
unfolding take_profile
lazyload_profile transmit u =
    let (status, (values, d)) = get_integers transmit (ascii "A") profile_variables u.device in
    if u.loaded_profile
    then (0, u)
    else if status == 0
    then (0, take_profile transmit values (record u { device = d }))
    else (eio, record u { device = d })

-- What the setters share from the range check on: the variable is set, and the profile behind it.
pub tell : Transmit → List ℕ → ℤ → (Profile → Profile) → Axis → ℕ × Axis
tell transmit variable value keep u =
    let (ok, d) = set_variable transmit variable value u.device in
    if ok
    then (0, record u { device = d; profile = keep u.profile })
    else (eio, record u { device = d })

-- A measurement: its range, its conversion, and the variable.
pub tell_measure : Transmit → List ℕ → (ℕ → Profile → Profile) → ℤ → Axis → ℕ × Axis
unfolding tell
tell_measure transmit variable keep value u =
    let (steps, u') = microrevs_to_steps transmit value u in
    if ltb_ℤ value (pos 1)
    then (einval, u)
    else tell transmit variable steps (keep (unsigned64 value)) u'

-- The shape of mdrive_profile_accel and its three like.
pub profile_measure :
    Transmit → List ℕ → (Profile → ℕ) → (ℕ → Profile → Profile) → ℤ → Axis → ℕ × Axis
unfolding lazyload_profile tell_measure
profile_measure transmit variable get keep value u =
    let u' = (lazyload_profile transmit u).1 in
    if get u'.profile == unsigned64 value
    then (0, u')
    else tell_measure transmit variable keep value u'

-- Two of them only go to a unit with an encoder.
pub profile_encoder :
    Transmit → List ℕ → (Profile → ℕ) → (ℕ → Profile → Profile) → ℤ → Axis → ℕ × Axis
unfolding lazyload_profile tell_measure
profile_encoder transmit variable get keep value u =
    let u' = (lazyload_profile transmit u).1 in
    let u'' = (lazyload_motion_config transmit u').1 in
    if get u'.profile == unsigned64 value
    then (0, u')
    else if eqb_ℤ u''.encoder (pos 0)
    then (enotsup, u'')
    else tell_measure transmit variable keep value u''

-- A current, in percent.
pub profile_current :
    Transmit → List ℕ → (Profile → ℕ) → (ℕ → Profile → Profile) → ℤ → Axis → ℕ × Axis
unfolding lazyload_profile tell
profile_current transmit variable get keep value u =
    let u' = (lazyload_profile transmit u).1 in
    if eqb_ℤ (pos (get u'.profile)) value
    then (0, u')
    else if ltb_ℤ value (pos 10) || ltb_ℤ (pos 100) value
    then (einval, u')
    else tell transmit variable value (keep (byte_of value)) u'

abbrev pub with_value : ℕ → Measurement → Measurement
with_value n m = record m { value = n }

-- mdrive_profile_accel
pub profile_accel : Transmit → ℤ → Axis → ℕ × Axis
unfolding profile_measure
profile_accel transmit =
    profile_measure transmit (ascii "A") (λ p. p.accel.value)
      (λ n p. record p { accel = with_value n p.accel })

-- mdrive_profile_decel
pub profile_decel : Transmit → ℤ → Axis → ℕ × Axis
unfolding profile_measure
profile_decel transmit =
    profile_measure transmit (ascii "D") (λ p. p.decel.value)
      (λ n p. record p { decel = with_value n p.decel })

-- mdrive_profile_vmax
pub profile_vmax : Transmit → ℤ → Axis → ℕ × Axis
unfolding profile_measure
profile_vmax transmit =
    profile_measure transmit (ascii "VM") (λ p. p.vmax.value)
      (λ n p. record p { vmax = with_value n p.vmax })

-- mdrive_profile_vstart
pub profile_vstart : Transmit → ℤ → Axis → ℕ × Axis
unfolding profile_measure
profile_vstart transmit =
    profile_measure transmit (ascii "VI") (λ p. p.vstart.value)
      (λ n p. record p { vstart = with_value n p.vstart })

-- mdrive_profile_slipmax
pub profile_slipmax : Transmit → ℤ → Axis → ℕ × Axis
unfolding profile_encoder
profile_slipmax transmit =
    profile_encoder transmit (ascii "SF") (λ p. p.slip_max.value)
      (λ n p. record p { slip_max = with_value n p.slip_max })

-- mdrive_profile_accuracy
pub profile_accuracy : Transmit → ℤ → Axis → ℕ × Axis
unfolding profile_encoder
profile_accuracy transmit =
    profile_encoder transmit (ascii "DB") (λ p. p.accuracy.value)
      (λ n p. record p { accuracy = with_value n p.accuracy })

-- mdrive_profile_irun
pub profile_irun : Transmit → ℤ → Axis → ℕ × Axis
unfolding profile_current
profile_irun transmit =
    profile_current transmit (ascii "RC") (λ p. p.current_run) (λ n p. record p { current_run = n })

-- mdrive_profile_ihold
pub profile_ihold : Transmit → ℤ → Axis → ℕ × Axis
unfolding profile_current
profile_ihold transmit =
    profile_current transmit (ascii "HC") (λ p. p.current_hold)
      (λ n p. record p { current_hold = n })

-- mdrive_set_profile: what its parts return is not looked at.
pub set_profile : Transmit → Profile → Axis → Axis
unfolding profile_accel profile_decel profile_vmax profile_vstart profile_slipmax profile_accuracy
    profile_irun profile_ihold
set_profile transmit p u =
    let u1 = (profile_accel transmit (signed64 p.accel.value) u).1 in
    let u2 = (profile_decel transmit (signed64 p.decel.value) u1).1 in
    let u3 = (profile_vmax transmit (signed64 p.vmax.value) u2).1 in
    let u4 = (profile_vstart transmit (signed64 p.vstart.value) u3).1 in
    let u5 = (profile_slipmax transmit (signed64 p.slip_max.value) u4).1 in
    let u6 = (profile_accuracy transmit (signed64 p.accuracy.value) u5).1 in
    let u7 = (profile_irun transmit (pos p.current_run) u6).1 in
    (profile_ihold transmit (pos p.current_hold) u7).1
