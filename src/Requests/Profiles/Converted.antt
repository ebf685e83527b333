-- ===== src/Requests/Profiles/Converted.antt =====
-- lib/profile.c: what mcProfileSet leaves in a profile.
use mcontrol.Base.{
  Bool, ℤ, inl, inr, ◌⊎◌, true, ℕ, zero, suc, ◌≡◌, refl, sym, ap, ◌∙◌, subst, false, Option, some,
  arith, ◌==◌, if_cases, pos, wrap32, unsigned64,
}
use mcontrol.Motor.{Motor, Profile, OpProfile, Measurement, find_motor_by_id, update_motor}
use mcontrol.Requests.{World}
use mcontrol.Requests.Units.{Floats, micro_revs, or_zero, distance_units_to_microrevs}
use mcontrol.Requests.Units.Laws.{distance_units_to_microrevs-some}
use mcontrol.Requests.Profiles.{in_units, stored, convert, convert_next, converted, profile_set}

-- What a profile has besides its measurements.
abbrev pub unconverted : Profile → ℕ × ℕ × Bool × ℕ × Bool × Bool
unconverted p = (p.current_run, p.current_hold, p.hardware, p.number, p.refresh, p.loaded)

module _ {F : Type 0} (fl : Floats F) (op : OpProfile) where
  -- What a measurement becomes: one that is zero or in micro-revolutions stays, and any other gets
  -- the value in micro-revolutions that its distance is converted to.
  abbrev pub IsConverted : Measurement → Measurement → Type 0
  IsConverted m m' =
      ((in_units m ≡ false) × (m' ≡ m))
      ⊎ ((in_units m ≡ true)
          × (z : ℤ) × (distance_units_to_microrevs fl op (wrap32 (pos m.value)) m.units
              ≡ (0, some z))
          × (m' ≡ record { value = unsigned64 z; units = micro_revs }))

  -- The six measurements are converted, and nothing else of the profile changes.
  pub record AllConverted (p p' : Profile) : Type 0 where
    pub accel_lem : IsConverted p.accel p'.accel
    pub decel_lem : IsConverted p.decel p'.decel
    pub vmax_lem : IsConverted p.vmax p'.vmax
    pub vstart_lem : IsConverted p.vstart p'.vstart
    pub slip_max_lem : IsConverted p.slip_max p'.slip_max
    pub accuracy_lem : IsConverted p.accuracy p'.accuracy
    pub rest_lem : unconverted p' ≡ unconverted p

  convert-IsConverted :
      (m : Measurement) → (convert fl op m).0 ≡ 0 → IsConverted m (convert fl op m).1
  unfolding convert
  convert-IsConverted m h =
      let r = distance_units_to_microrevs fl op (wrap32 (pos m.value)) m.units in
      if_cases {A = ℕ × Measurement} (λ t. t.0 ≡ 0 → IsConverted m t.1) (in_units m) _ _
        (λ e.
          if_cases {A = ℕ × Measurement} (λ t. t.0 ≡ 0 → IsConverted m t.1) (r.0 == 0)
            (0, record { value = unsigned64 (or_zero r.1); units = micro_revs }) (r.0, m)
            (λ z q. inr (
              e,
              or_zero r.1,
              distance_units_to_microrevs-some fl op (wrap32 (pos m.value)) m.units (ground arith),
              refl,
            ))
            (λ z q. absurd (ground arith)))
        (λ e q. inl (e, refl)) h

  -- A step that succeeds follows one that does, and puts a measurement that is done.
  record Succeeds (get : Profile → Measurement) (put : Measurement → Profile → Profile)
      (t u : ℕ × Profile) : Type 0 where
    before : t.0 ≡ 0
    done : IsConverted (get t.1) (convert fl op (get t.1)).1
    profile : u.1 ≡ put (convert fl op (get t.1)).1 t.1

  next-Succeeds :
      (get : Profile → Measurement) (put : Measurement → Profile → Profile) (t : ℕ × Profile)
      → (convert_next fl op get put t).0 ≡ 0
      → Succeeds get put t (convert_next fl op get put t)
  unfolding convert_next
  next-Succeeds get put (zero, p) h = record {
    before = refl;
    done = convert-IsConverted (get p) h;
    profile = refl;
  }
  next-Succeeds get put (suc n, p) h = absurd (omega (arith, h))

  moved : {m m' a b : Measurement} → IsConverted a b → a ≡ m → m' ≡ b → IsConverted m m'
  moved {m} {m'} {a} {b} c e q =
      subst (λ x. IsConverted x m') e (subst (λ x. IsConverted a x) (sym q) c)

  -- When all conversions succeed, each measurement is converted.
  pub converted-AllConverted :
      (p : Profile) → (converted fl op p).0 ≡ 0 → AllConverted p (converted fl op p).1
  unfolding converted
  converted-AllConverted p h =
      let t0 : ℕ × Profile = (0, p) in
      let put1 : Measurement → Profile → Profile = λ m q. record q { accel = m } in
      let t1 = convert_next fl op (λ q. q.accel) put1 t0 in
      let put2 : Measurement → Profile → Profile = λ m q. record q { decel = m } in
      let t2 = convert_next fl op (λ q. q.decel) put2 t1 in
      let put3 : Measurement → Profile → Profile = λ m q. record q { vmax = m } in
      let t3 = convert_next fl op (λ q. q.vmax) put3 t2 in
      let put4 : Measurement → Profile → Profile = λ m q. record q { vstart = m } in
      let t4 = convert_next fl op (λ q. q.vstart) put4 t3 in
      let put5 : Measurement → Profile → Profile = λ m q. record q { slip_max = m } in
      let t5 = convert_next fl op (λ q. q.slip_max) put5 t4 in
      let put6 : Measurement → Profile → Profile = λ m q. record q { accuracy = m } in
      let t6 = convert_next fl op (λ q. q.accuracy) put6 t5 in
      let s6 = next-Succeeds (λ q. q.accuracy) put6 t5 h in
      let s5 = next-Succeeds (λ q. q.slip_max) put5 t4 s6.before in
      let s4 = next-Succeeds (λ q. q.vstart) put4 t3 s5.before in
      let s3 = next-Succeeds (λ q. q.vmax) put3 t2 s4.before in
      let s2 = next-Succeeds (λ q. q.decel) put2 t1 s3.before in
      let s1 = next-Succeeds (λ q. q.accel) put1 t0 s2.before in
      record {
        accel_lem = moved s1.done (refl) (
            ap (λ q. q.accel) s6.profile
            ∙ ap (λ q. q.accel) s5.profile
            ∙ ap (λ q. q.accel) s4.profile
            ∙ ap (λ q. q.accel) s3.profile
            ∙ ap (λ q. q.accel) s2.profile
            ∙ ap (λ q. q.accel) s1.profile);
        decel_lem = moved s2.done (ap (λ q. q.decel) s1.profile) (
            ap (λ q. q.decel) s6.profile
            ∙ ap (λ q. q.decel) s5.profile
            ∙ ap (λ q. q.decel) s4.profile
            ∙ ap (λ q. q.decel) s3.profile
            ∙ ap (λ q. q.decel) s2.profile);
        vmax_lem = moved s3.done (ap (λ q. q.vmax) s2.profile ∙ ap (λ q. q.vmax) s1.profile) (
            ap (λ q. q.vmax) s6.profile
            ∙ ap (λ q. q.vmax) s5.profile
            ∙ ap (λ q. q.vmax) s4.profile
            ∙ ap (λ q. q.vmax) s3.profile);
        vstart_lem =
            moved s4.done
              (ap (λ q. q.vstart) s3.profile
                ∙ ap (λ q. q.vstart) s2.profile
                ∙ ap (λ q. q.vstart) s1.profile)
              (ap (λ q. q.vstart) s6.profile
                ∙ ap (λ q. q.vstart) s5.profile
                ∙ ap (λ q. q.vstart) s4.profile);
        slip_max_lem =
            moved s5.done
              (ap (λ q. q.slip_max) s4.profile
                ∙ ap (λ q. q.slip_max) s3.profile
                ∙ ap (λ q. q.slip_max) s2.profile
                ∙ ap (λ q. q.slip_max) s1.profile)
              (ap (λ q. q.slip_max) s6.profile ∙ ap (λ q. q.slip_max) s5.profile);
        accuracy_lem =
            moved s6.done
              (ap (λ q. q.accuracy) s5.profile
                ∙ ap (λ q. q.accuracy) s4.profile
                ∙ ap (λ q. q.accuracy) s3.profile
                ∙ ap (λ q. q.accuracy) s2.profile
                ∙ ap (λ q. q.accuracy) s1.profile)
              (ap (λ q. q.accuracy) s6.profile);
        rest_lem =
            (ap unconverted s6.profile
              ∙ ap unconverted s5.profile
              ∙ ap unconverted s4.profile
              ∙ ap unconverted s3.profile
              ∙ ap unconverted s2.profile
              ∙ ap unconverted s1.profile);
      }

-- mcProfileSet of a known connection stores a profile whatever comes of the conversion. With the
-- status 0, each of the six measurements that are stored is the one of the request, where that is zero
-- or in micro-revolutions, or else has the micro-revolutions that its distance is converted to, as an
-- unsigned value of 64 bits; and nothing else of the profile changes.
pub profile_set-AllConverted :
    {S : Type 0} {F : Type 0} (fl : Floats F) (id pid : ℕ) (w : World S) (p : Profile) (m : Motor)
    → find_motor_by_id id pid w.motor_list ≡ some m
    → (p' : Profile) × ((profile_set fl id pid w p).1.motor_list
        ≡ update_motor id pid (λ x. record x { profile = p' }) w.motor_list)
      × ((profile_set fl id pid w p).0 ≡ 0 → AllConverted fl m.op_profile p p')
unfolding profile_set stored
profile_set-AllConverted {S} fl id pid w p m e =
    subst
      (λ (o : Option Motor).
        (p' : Profile) × ((stored fl id pid w p o).1.motor_list
          ≡ update_motor id pid (λ x. record x { profile = p' }) w.motor_list)
        × ((stored fl id pid w p o).0 ≡ 0 → AllConverted fl m.op_profile p p'))
      (sym e) ((converted fl m.op_profile p).1, refl, converted-AllConverted fl m.op_profile p)
