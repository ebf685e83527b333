-- ===== src/Mdrive/Profile/Setting.antt =====
-- drivers/mdrive/profile.c: what the setters of the profile leave.
use mcontrol.Base.{
  unsigned64, ℕ, ◌≡◌, refl, ap, ◌∙◌, subst, ◌≢◌, ◌⊎◌, inl, inr, true, false, List, arith, ◌==◌,
  if◌then◌else◌, if_cases, ascii, ℤ, pos, negsuc, eqb_ℤ, ltb_ℤ, eio, einval, enotsup,
}
use mcontrol.Motor.{Profile}
use mcontrol.Mdrive.Dialogue.{Transmit, set_variable}
use mcontrol.Mdrive.Axis.{Axis, lazyload_motion_config, microrevs_to_steps}
use mcontrol.Mdrive.Axis.Untouched.{to_steps-profile, motion_config-profile, to_steps_failed}
use mcontrol.Mdrive.Profile.{
  lazyload_profile, tell, tell_measure, profile_measure, profile_encoder, profile_accel, with_value,
}

-- A setter of one value of the profile: with the status 0 the profile has it, and with any other the
-- profile is the one before.
abbrev pub SetsValue : (Profile → ℕ) → ℕ → Profile → ℕ × Axis → Type 0
SetsValue get n before r =
    ((r.0 ≡ 0) × (get r.1.profile ≡ n)) ⊎ ((r.0 ≢ 0) × (r.1.profile ≡ before))

tell-SetsValue :
    (transmit : Transmit) (variable : List ℕ) (steps : ℤ) (get : Profile → ℕ)
    (keep : ℕ → Profile → Profile) (n : ℕ) (u : Axis)
    → ((k : ℕ) (p : Profile) → get (keep k p) ≡ k)
    → SetsValue get n u.profile (tell transmit variable steps (keep n) u)
unfolding tell
tell-SetsValue transmit variable steps get keep n u h =
    if_cases {A = ℕ × Axis}
      (λ r. ((r.0 ≡ 0) × (get r.1.profile ≡ n)) ⊎ ((r.0 ≢ 0) × (r.1.profile ≡ u.profile)))
      (set_variable transmit variable steps u.device).0 _ _ (λ e. inl (refl, h n u.profile))
      (λ e. inr ((λ z. omega (arith, z)), refl))

measure-SetsValue :
    (transmit : Transmit) (variable : List ℕ) (get : Profile → ℕ) (keep : ℕ → Profile → Profile)
    (value : ℤ) (u : Axis)
    → ((k : ℕ) (p : Profile) → get (keep k p) ≡ k)
    → SetsValue get (unsigned64 value) u.profile (tell_measure transmit variable keep value u)
unfolding tell_measure
measure-SetsValue transmit variable get keep value u h =
    if_cases (SetsValue get (unsigned64 value) u.profile) (ltb_ℤ value (pos 1)) _ _
      (λ e. inr ((λ z. omega (arith, z)), refl))
      λ e.
        let c = microrevs_to_steps transmit value u in
        subst
          (λ p.
            SetsValue get (unsigned64 value) p
              (tell transmit variable c.0 (keep (unsigned64 value)) c.1))
          (to_steps-profile transmit value u)
          (tell-SetsValue transmit variable c.0 get keep (unsigned64 value) c.1 h)

-- A setter of a measurement of the profile: where its status is 0, the profile has the new value,
-- which is the one that the unit has or has just been told; with any other status, the profile is as
-- it was loaded. That holds on every line, for a place of the profile that is read as it is written.
pub profile_measure-SetsValue :
    (transmit : Transmit) (variable : List ℕ) (get : Profile → ℕ) (keep : ℕ → Profile → Profile)
    (value : ℤ) (u : Axis)
    → ((k : ℕ) (p : Profile) → get (keep k p) ≡ k)
    → SetsValue get
        (unsigned64 value)
        (lazyload_profile transmit u).1.profile
        (profile_measure transmit variable get keep value u)
unfolding profile_measure
profile_measure-SetsValue transmit variable get keep value u h =
    let v = (lazyload_profile transmit u).1 in
    if_cases (SetsValue get (unsigned64 value) v.profile) (get v.profile == unsigned64 value) _ _
      (λ e. inl (refl, ground (arith, e)))
      (λ e. measure-SetsValue transmit variable get keep value v h)

-- The same of the setters that need an encoder.
pub profile_encoder-SetsValue :
    (transmit : Transmit) (variable : List ℕ) (get : Profile → ℕ) (keep : ℕ → Profile → Profile)
    (value : ℤ) (u : Axis)
    → ((k : ℕ) (p : Profile) → get (keep k p) ≡ k)
    → SetsValue get
        (unsigned64 value)
        (lazyload_profile transmit u).1.profile
        (profile_encoder transmit variable get keep value u)
unfolding profile_encoder
profile_encoder-SetsValue transmit variable get keep value u h =
    let v = (lazyload_profile transmit u).1 in
    let w = (lazyload_motion_config transmit v).1 in
    let same = motion_config-profile transmit v in
    if_cases (SetsValue get (unsigned64 value) v.profile) (get v.profile == unsigned64 value) _ _
      (λ e. inl (refl, ground (arith, e)))
      λ e.
        subst
          (λ p. SetsValue get (unsigned64 value) p (
            if eqb_ℤ w.encoder (pos 0)
            then (enotsup, w)
            else tell_measure transmit variable keep value w))
          same
          (if_cases (SetsValue get (unsigned64 value) w.profile) (eqb_ℤ w.encoder (pos 0)) _ _
            (λ z. inr ((λ q. omega (arith, q)), refl))
            (λ z. measure-SetsValue transmit variable get keep value w h))

profile_loaded :
    (transmit : Transmit) (u : Axis)
    → u.loaded_profile ≡ true
    → lazyload_profile transmit u ≡ (0, u)
unfolding lazyload_profile
profile_loaded transmit u e =
    if_cases {A = ℕ × Axis} (λ t. t ≡ (0, u)) u.loaded_profile _ _ (λ p. refl)
      (λ p. absurd (ground arith))

measure_unread :
    (transmit : Transmit) (variable : List ℕ) (keep : ℕ → Profile → Profile) (value : ℤ) (u : Axis)
    → ltb_ℤ value (pos 1) ≡ false
    → (lazyload_motion_config transmit u).0 ≡ eio
    → tell_measure transmit variable keep value u
      ≡ tell transmit variable
          (negsuc 4)
          (keep (unsigned64 value))
          (lazyload_motion_config transmit u).1
unfolding tell_measure
measure_unread transmit variable keep value u v h =
    ap
      (λ (c : ℤ × Axis).
        if ltb_ℤ value (pos 1)
        then (einval, u)
        else tell transmit variable c.0 (keep (unsigned64 value)) c.1)
      (to_steps_failed transmit value u h)
    ∙ rw (v) refl

-- Where the settings of the unit cannot be read, the conversion gives the error number for the steps,
-- and the unit is told to accelerate by -5 steps.
pub profile_accel-unread :
    (transmit : Transmit) (value : ℤ) (u : Axis)
    → u.loaded_profile ≡ true
    → (u.profile.accel.value == unsigned64 value) ≡ false
    → ltb_ℤ value (pos 1) ≡ false
    → (lazyload_motion_config transmit u).0 ≡ eio
    → profile_accel transmit value u
      ≡ tell transmit
          (ascii "A")
          (negsuc 4)
          (λ p. record p { accel = with_value (unsigned64 value) p.accel })
          (lazyload_motion_config transmit u).1
unfolding profile_accel profile_measure
profile_accel-unread transmit value u e d v h =
    let keep : ℕ → Profile → Profile = λ n p. record p { accel = with_value n p.accel } in
    ap
      (λ (t : ℕ × Axis).
        if t.1.profile.accel.value == unsigned64 value
        then (0, t.1)
        else tell_measure transmit (ascii "A") keep value t.1)
      (profile_loaded transmit u e)
    ∙ rw (d) (measure_unread transmit (ascii "A") keep value u v h)
