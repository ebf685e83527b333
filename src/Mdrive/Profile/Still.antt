-- ===== src/Mdrive/Profile/Still.antt =====
-- drivers/mdrive/profile.c: the functions of the profile leave the movement of a unit alone.
use mcontrol.Base.{
  unsigned64, signed64, ℕ, ◌≡◌, sym, subst, true, ◌||◌, List, [], ◌∷◌, ◌==◌, if_cases, ascii, ℤ,
  pos, eqb_ℤ, ltb_ℤ,
}
use mcontrol.Motor.{Profile}
use mcontrol.Mdrive.Dialogue.{Transmit, set_variable, get_integers}
use mcontrol.Mdrive.Axis.{Axis, Movement, resolution, steps_of, lazyload_motion_config}
use mcontrol.Mdrive.Axis.Conversion.{lazyload_loaded, to_steps_loaded, to_microrevs_loaded}
use mcontrol.Mdrive.Profile.{
  Put, load_measure, take_profile, lazyload_profile, profile_variables, tell, tell_measure,
  profile_measure, profile_encoder, profile_current, set_profile, profile_accel, profile_decel,
  profile_vmax, profile_vstart, profile_slipmax, profile_accuracy, profile_irun, profile_ihold,
  put_accel, put_decel, put_vmax, put_vstart, put_slip_max, put_accuracy, byte_of, with_value,
  micro_revs,
}

-- The axis has a movement, its settings are loaded, and whether its drive is on is known.
abbrev pub IsStill : Movement → ℤ → Axis → Type 0
IsStill m drive u = (u.movement ≡ m) × (u.loaded_encoder ≡ true) × (u.drive_enabled ≡ drive)

module _ (transmit : Transmit) (m : Movement) (drive : ℤ) where
  load-IsStill :
      (put : Put) (steps : ℤ) (u : Axis)
      → IsStill m drive u
      → IsStill m drive (load_measure transmit put steps u)
  unfolding load_measure
  load-IsStill put steps u h =
      subst
        (λ (t : ℤ × Axis). IsStill m drive (record t.1 {
          profile = put (record { value = unsigned64 t.0; units = micro_revs }) t.1.profile;
        }))
        (sym (to_microrevs_loaded transmit steps u h.1)) h

  take-IsStill :
      (vs : List ℤ) (u : Axis) → IsStill m drive u → IsStill m drive (take_profile transmit vs u)
  unfolding take_profile
  take-IsStill [] u h = h
  take-IsStill (a ∷ []) u h = h
  take-IsStill (a ∷ b ∷ []) u h = h
  take-IsStill (a ∷ b ∷ c ∷ []) u h = h
  take-IsStill (a ∷ b ∷ c ∷ d ∷ []) u h = h
  take-IsStill (a ∷ b ∷ c ∷ d ∷ e ∷ []) u h = h
  take-IsStill (a ∷ b ∷ c ∷ d ∷ e ∷ f ∷ []) u h = h
  take-IsStill (a ∷ b ∷ c ∷ d ∷ e ∷ f ∷ g ∷ []) u h = h
  take-IsStill (a ∷ b ∷ c ∷ d ∷ e ∷ f ∷ g ∷ i ∷ []) u h = h
  take-IsStill (a ∷ d ∷ vm ∷ vi ∷ sf ∷ rc ∷ hc ∷ db ∷ p ∷ rest) u h =
      load-IsStill put_accuracy db _ (
        load-IsStill put_slip_max sf _ (
          load-IsStill put_vstart vi _ (
            load-IsStill put_vmax vm _
              (load-IsStill put_decel d _ (load-IsStill put_accel a u h)))))

  lazyload-IsStill :
      (u : Axis) → IsStill m drive u → IsStill m drive (lazyload_profile transmit u).1
  unfolding lazyload_profile
  lazyload-IsStill u h =
      let r = get_integers transmit (ascii "A") profile_variables u.device in
      if_cases {A = ℕ × Axis} (λ t. IsStill m drive t.1) u.loaded_profile _ _ (λ e. h)
        λ e.
          if_cases {A = ℕ × Axis} (λ t. IsStill m drive t.1) (r.0 == 0) _ _
            (λ z. take-IsStill r.1.0 (record u { device = r.1.1 }) h) (λ z. h)

  tell-IsStill :
      (variable : List ℕ) (value : ℤ) (keep : Profile → Profile) (u : Axis)
      → IsStill m drive u
      → IsStill m drive (tell transmit variable value keep u).1
  unfolding tell
  tell-IsStill variable value keep u h =
      if_cases {A = ℕ × Axis} (λ t. IsStill m drive t.1)
        (set_variable transmit variable value u.device).0 _ _ (λ e. h) (λ e. h)

  tell_measure-IsStill :
      (variable : List ℕ) (keep : ℕ → Profile → Profile) (value : ℤ) (u : Axis)
      → IsStill m drive u
      → IsStill m drive (tell_measure transmit variable keep value u).1
  unfolding tell_measure
  tell_measure-IsStill variable keep value u h =
      if_cases {A = ℕ × Axis} (λ t. IsStill m drive t.1) (ltb_ℤ value (pos 1)) _ _ (λ e. h)
        λ e.
          subst
            (λ (c : ℤ × Axis).
              IsStill m drive (tell transmit variable c.0 (keep (unsigned64 value)) c.1).1)
            (sym (to_steps_loaded transmit value u h.1))
            (tell-IsStill variable (steps_of (resolution u) value) (keep (unsigned64 value)) u h)

  measure-IsStill :
      (variable : List ℕ) (get : Profile → ℕ) (keep : ℕ → Profile → Profile) (value : ℤ) (u : Axis)
      → IsStill m drive u
      → IsStill m drive (profile_measure transmit variable get keep value u).1
  unfolding profile_measure
  measure-IsStill variable get keep value u h =
      let v = (lazyload_profile transmit u).1 in
      let k = lazyload-IsStill u h in
      if_cases {A = ℕ × Axis} (λ t. IsStill m drive t.1) (get v.profile == unsigned64 value) _ _
        (λ e. k) (λ e. tell_measure-IsStill variable keep value v k)

  encoder-IsStill :
      (variable : List ℕ) (get : Profile → ℕ) (keep : ℕ → Profile → Profile) (value : ℤ) (u : Axis)
      → IsStill m drive u
      → IsStill m drive (profile_encoder transmit variable get keep value u).1
  unfolding profile_encoder
  encoder-IsStill variable get keep value u h =
      let v = (lazyload_profile transmit u).1 in
      let k = lazyload-IsStill u h in
      let w = (lazyload_motion_config transmit v).1 in
      let l : IsStill m drive w =
        subst (λ (t : ℕ × Axis). IsStill m drive t.1) (sym (lazyload_loaded transmit v k.1)) k in
      if_cases {A = ℕ × Axis} (λ t. IsStill m drive t.1) (get v.profile == unsigned64 value) _ _
        (λ e. k)
        λ e.
          if_cases {A = ℕ × Axis} (λ t. IsStill m drive t.1) (eqb_ℤ w.encoder (pos 0)) _ _ (λ z. l)
            (λ z. tell_measure-IsStill variable keep value w l)

  current-IsStill :
      (variable : List ℕ) (get : Profile → ℕ) (keep : ℕ → Profile → Profile) (value : ℤ) (u : Axis)
      → IsStill m drive u
      → IsStill m drive (profile_current transmit variable get keep value u).1
  unfolding profile_current
  current-IsStill variable get keep value u h =
      let v = (lazyload_profile transmit u).1 in
      let k = lazyload-IsStill u h in
      if_cases {A = ℕ × Axis} (λ t. IsStill m drive t.1) (eqb_ℤ (pos (get v.profile)) value) _ _
        (λ e. k)
        λ e.
          if_cases {A = ℕ × Axis} (λ t. IsStill m drive t.1)
            (ltb_ℤ value (pos 10) || ltb_ℤ (pos 100) value) _ _ (λ z. k)
            (λ z. tell-IsStill variable value (keep (byte_of value)) v k)

  pub set_profile-IsStill :
      (p : Profile) (u : Axis) → IsStill m drive u → IsStill m drive (set_profile transmit p u)
  unfolding set_profile profile_accel profile_decel profile_vmax profile_vstart profile_slipmax
      profile_accuracy profile_irun profile_ihold
  set_profile-IsStill p u h =
      let u1 = (profile_accel transmit (signed64 p.accel.value) u).1 in
      let h1 : IsStill m drive u1 =
        measure-IsStill (ascii "A") (λ q. q.accel.value)
          (λ n q. record q { accel = with_value n q.accel }) (signed64 p.accel.value) u h in
      let u2 = (profile_decel transmit (signed64 p.decel.value) u1).1 in
      let h2 : IsStill m drive u2 =
        measure-IsStill (ascii "D") (λ q. q.decel.value)
          (λ n q. record q { decel = with_value n q.decel }) (signed64 p.decel.value) u1 h1 in
      let u3 = (profile_vmax transmit (signed64 p.vmax.value) u2).1 in
      let h3 : IsStill m drive u3 =
        measure-IsStill (ascii "VM") (λ q. q.vmax.value)
          (λ n q. record q { vmax = with_value n q.vmax }) (signed64 p.vmax.value) u2 h2 in
      let u4 = (profile_vstart transmit (signed64 p.vstart.value) u3).1 in
      let h4 : IsStill m drive u4 =
        measure-IsStill (ascii "VI") (λ q. q.vstart.value)
          (λ n q. record q { vstart = with_value n q.vstart }) (signed64 p.vstart.value) u3 h3 in
      let u5 = (profile_slipmax transmit (signed64 p.slip_max.value) u4).1 in
      let h5 : IsStill m drive u5 =
        encoder-IsStill (ascii "SF") (λ q. q.slip_max.value)
          (λ n q. record q { slip_max = with_value n q.slip_max }) (signed64 p.slip_max.value) u4
          h4 in
      let u6 = (profile_accuracy transmit (signed64 p.accuracy.value) u5).1 in
      let h6 : IsStill m drive u6 =
        encoder-IsStill (ascii "DB") (λ q. q.accuracy.value)
          (λ n q. record q { accuracy = with_value n q.accuracy }) (signed64 p.accuracy.value) u5
          h5 in
      let u7 = (profile_irun transmit (pos p.current_run) u6).1 in
      let h7 : IsStill m drive u7 =
        current-IsStill (ascii "RC") (λ q. q.current_run) (λ n q. record q { current_run = n })
          (pos p.current_run) u6 h6 in
      current-IsStill (ascii "HC") (λ q. q.current_hold) (λ n q. record q { current_hold = n })
        (pos p.current_hold) u7 h7
