-- ===== src/Mdrive/Axis/Untouched.antt =====
-- drivers/mdrive/motion.c: the conversions leave the profile alone.
use mcontrol.Base.{ℕ, ◌≡◌, refl, List, [], ◌∷◌, arith, ◌==◌, if_cases, ascii, ℤ, negsuc, eio}
use mcontrol.Mdrive.Dialogue.{Transmit, get_integers}
use mcontrol.Mdrive.Axis.{Axis, take_config, lazyload_motion_config, microrevs_to_steps}

take_config-profile : (vs : List ℤ) (u : Axis) → (take_config vs u).profile ≡ u.profile
unfolding take_config
take_config-profile [] u = refl
take_config-profile (a ∷ []) u = refl
take_config-profile (a ∷ b ∷ []) u = refl
take_config-profile (a ∷ b ∷ c ∷ vs) u = refl

pub motion_config-profile :
    (transmit : Transmit) (u : Axis) → (lazyload_motion_config transmit u).1.profile ≡ u.profile
unfolding lazyload_motion_config
motion_config-profile transmit u =
    if_cases {A = ℕ × Axis} (λ t. t.1.profile ≡ u.profile) u.loaded_encoder _ _ (λ e. refl)
      λ e.
        let r = get_integers transmit (ascii "MS") (ascii "EE" ∷ ascii "DE" ∷ []) u.device in
        if_cases {A = ℕ × Axis} (λ t. t.1.profile ≡ u.profile) (r.0 == 0) _ _
          (λ z. take_config-profile r.1.0 (record u { device = r.1.1 })) (λ z. refl)

pub to_steps-profile :
    (transmit : Transmit) (m : ℤ) (u : Axis)
    → (microrevs_to_steps transmit m u).1.profile ≡ u.profile
unfolding microrevs_to_steps
to_steps-profile transmit m u =
    let r = lazyload_motion_config transmit u in
    if_cases {A = ℤ × Axis} (λ t. t.1.profile ≡ u.profile) (r.0 == 0) _ _
      (λ e. motion_config-profile transmit u) (λ e. motion_config-profile transmit u)

-- Where the settings cannot be read, the error number stands for the steps.
pub to_steps_failed :
    (transmit : Transmit) (m : ℤ) (u : Axis)
    → (lazyload_motion_config transmit u).0 ≡ eio
    → microrevs_to_steps transmit m u ≡ (negsuc 4, (lazyload_motion_config transmit u).1)
unfolding microrevs_to_steps
to_steps_failed transmit m u h =
    if_cases {A = ℤ × Axis} (λ t. t ≡ (negsuc 4, (lazyload_motion_config transmit u).1))
      ((lazyload_motion_config transmit u).0 == 0) _ _ (λ e. absurd (ground (arith, h))) (λ e. refl)
