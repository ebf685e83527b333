-- ===== src/Mdrive/Motion/Slewing.antt =====
-- drivers/mdrive/motion.c: when mdrive_move takes a slew to be under way.
use mcontrol.Base.{
  ℕ, zero, suc, ◌≡◌, refl, sym, ap, ◌∙◌, subst, true, false, ◌&&◌, some, List, [], ◌∷◌, ◌++◌, arith,
  ◌==◌, if◌then◌else◌, if_cases, ascii, print_int, ℤ, pos, wrap32, eqb_ℤ,
}
use mcontrol.Motor.{Profile}
use mcontrol.Mdrive.Transaction.{is_ok}
use mcontrol.Mdrive.Dialogue.{Transmit, send_text}
use mcontrol.Mdrive.Axis.{Axis, Movement, slew, resolution, steps_of}
use mcontrol.Mdrive.Axis.Conversion.{to_steps_loaded}
use mcontrol.Mdrive.Profile.Still.{IsStill, set_profile-IsStill}
use mcontrol.Mdrive.Motion.{
  Instruction, drive_enable, async_complete_cancel, send_unit, send_all, assisted_commands,
  assisted_by, move_assisted, move_plain, moved, begin, is_slew, under_way, move_by, move,
}

module _ (transmit : Transmit) (m : Movement) (drive : ℤ) where
  sent-IsStill :
      (cs : List (List ℕ)) (u : Axis)
      → IsStill m drive u
      → IsStill m drive (send_all transmit cs u).1
  unfolding send_all send_unit
  sent-IsStill [] u h = h
  sent-IsStill (c ∷ cs) u h =
      let r = send_text transmit c u.device in
      if_cases {A = ℕ × Axis} (λ t. IsStill m drive t.1) (is_ok r.0) _ _
        (λ e. sent-IsStill cs (record u { device = r.1 }) h) (λ e. h)

  assisted-IsStill :
      (mode : ℕ × ℕ) (p : Profile) (steps : ℤ) (u : Axis)
      → IsStill m drive u
      → IsStill m drive (assisted_by transmit (some mode) p steps u).1
  unfolding assisted_by
  assisted-IsStill mode p steps u h =
      let n = if p.hardware then p.number else 0 in
      sent-IsStill (assisted_commands mode n steps u.label_move) _ (
        if_cases {A = Axis} (IsStill m drive) p.hardware _ _ (λ e. h)
          (λ e. set_profile-IsStill transmit m drive p u h))

  plain-IsStill :
      (command : Instruction) (buffer : List ℕ) (u : Axis)
      → IsStill m drive u
      → IsStill m drive (move_plain transmit command buffer u).1
  unfolding move_plain
  plain-IsStill command buffer u h =
      sent-IsStill (buffer ∷ []) _ (set_profile-IsStill transmit m drive command.profile u h)

  cancel-IsStill : (u : Axis) → IsStill m drive u → IsStill m drive (async_complete_cancel u)
  unfolding async_complete_cancel
  cancel-IsStill u h = if_cases {A = Axis} (IsStill m drive) u.completion _ _ (λ e. h) (λ e. h)

  moved-IsStill :
      (callback : ℕ) (t : ℕ × Axis)
      → IsStill m drive t.1
      → IsStill m drive (moved callback slew t).1
  unfolding moved
  moved-IsStill callback (zero, u) h = cancel-IsStill u h
  moved-IsStill callback (suc n, u) h = h

abbrev slewing : ℤ → Profile → Instruction
slewing amount p = record { type = slew; amount = amount; profile = p }

drive_enabled :
    (transmit : Transmit) (u : Axis)
    → eqb_ℤ u.drive_enabled (pos 0) ≡ false
    → drive_enable transmit u ≡ (0, u)
unfolding drive_enable
drive_enabled transmit u e = rw (e) refl

-- A slew that has been begun, whatever came of it.
begin-IsStill :
    (transmit : Transmit) (callback : ℕ) (amount : ℤ) (p : Profile) (buffer : List ℕ) (steps : ℤ)
    (info : Movement) (u : Axis)
    → u.loaded_encoder ≡ true
    → eqb_ℤ u.drive_enabled (pos 0) ≡ false
    → IsStill info u.drive_enabled
        (begin transmit callback (slewing amount p) buffer steps info u).1
unfolding begin move_assisted
begin-IsStill transmit callback amount p buffer steps info u l e =
    let v : Axis = record u { movement = info } in
    let command = slewing amount p in
    let taken : ℕ × Axis =
      if u.feature_move
      then move_assisted transmit command steps v
      else move_plain transmit command buffer v in
    let still : IsStill info u.drive_enabled taken.1 =
      if_cases {A = ℕ × Axis} (λ t. IsStill info u.drive_enabled t.1) u.feature_move _ _
        (λ z. assisted-IsStill transmit info u.drive_enabled (3, 1) p steps v (refl, l, refl))
        (λ z. plain-IsStill transmit info u.drive_enabled command buffer v (refl, l, refl)) in
    subst
      (λ (t : ℕ × Axis).
        IsStill info u.drive_enabled
          (if t.0 == 0
            then moved callback slew (
                if u.feature_move
                then move_assisted transmit command steps (record t.1 { movement = info })
                else move_plain transmit command buffer (record t.1 { movement = info }))
            else t).1)
      (sym (drive_enabled transmit u e))
      (moved-IsStill transmit info u.drive_enabled callback taken still)

-- What the first slew leaves.
abbrev IsSlewing : ℤ → Axis → Type 0
IsSlewing amount u = (under_way (wrap32 amount) u ≡ true) × (u.loaded_encoder ≡ true)

same_number : (z : ℤ) → eqb_ℤ z z ≡ true
same_number z = ground arith

move_loaded :
    (transmit : Transmit) (callback : ℕ) (command : Instruction) (u : Axis)
    → u.loaded_encoder ≡ true
    → move transmit callback command u
      ≡ move_by transmit callback command.type command
          (steps_of (resolution u) command.amount)
          u.position
          u
unfolding move
move_loaded transmit callback command u l =
    ap (λ (t : ℤ × Axis). move_by transmit callback command.type command t.0 t.1.position t.1)
      (to_steps_loaded transmit command.amount u l)

first_slew :
    (transmit : Transmit) (callback : ℕ) (amount : ℤ) (p : Profile) (u : Axis)
    → u.loaded_encoder ≡ true
    → eqb_ℤ u.drive_enabled (pos 0) ≡ false
    → IsSlewing amount (move transmit callback (slewing amount p) u).1
unfolding move_by
first_slew transmit callback amount p u l e =
    subst (λ (t : ℕ × Axis). IsSlewing amount t.1)
      (sym (move_loaded transmit callback (slewing amount p) u l))
      (if_cases {A = ℕ × Axis} (λ t. IsSlewing amount t.1) (under_way (wrap32 amount) u) _ _
        (λ z. (z, l))
        λ z.
          let s = steps_of (resolution u) amount in
          let info : Movement = record {
            pstart = u.position;
            type = slew;
            urevs = wrap32 amount;
            moving = true;
          } in
          let b =
            begin-IsStill transmit callback amount p (ascii "SL " ++ print_int s) s info u l e in
          (
            subst
                (λ (k : Movement).
                  (k.moving && (is_slew k.type && eqb_ℤ k.urevs (wrap32 amount))) ≡ true)
                (sym b.0) (same_number (wrap32 amount)),
            b.1,
          ))

second_slew :
    (transmit : Transmit) (callback : ℕ) (amount : ℤ) (p : Profile) (u : Axis)
    → IsSlewing amount u
    → move transmit callback (slewing amount p) u ≡ (0, u)
unfolding move_by
second_slew transmit callback amount p u h =
    move_loaded transmit callback (slewing amount p) u h.1
    ∙ if_cases {A = ℕ × Axis} (λ t. t ≡ (0, u)) (under_way (wrap32 amount) u) _ _ (λ e. refl)
        (λ e. absurd (ground (arith, h.0)))

-- A slew that is asked for again at the same rate is not sent: the second mdrive_move returns 0 and
-- leaves everything as the first one left it. That is so whatever the first one came to, also when
-- the unit has not taken it. The settings of the unit are loaded and its drive is on.
pub move_repeated :
    (transmit : Transmit) (callback callback' : ℕ) (amount : ℤ) (p p' : Profile) (u : Axis)
    → u.loaded_encoder ≡ true
    → eqb_ℤ u.drive_enabled (pos 0) ≡ false
    → let after =
        (move transmit callback (record { type = slew; amount = amount; profile = p }) u).1 in
      move transmit callback' (record { type = slew; amount = amount; profile = p' }) after
      ≡ (0, after)
move_repeated transmit callback callback' amount p p' u l e =
    second_slew transmit callback' amount p' _ (first_slew transmit callback amount p u l e)
