-- ===== src/Requests/Units/Laws.antt =====
-- lib/motion.c: what the conversions of distances come to.
use native.Mathlib.Nat.{mul-div_cancel, mul_right_comm}
use mcontrol.Base.{
  ℕ, suc, ◌*◌, ◌/◌, ◌≡◌, refl, sym, ap, ◌∙◌, ◌≢◌, true, false, none, some, arith, ◌==◌, ℤ, pos,
  negsuc, eqb_ℤ, Option, if_cases, wrap32, ◌*ℤ◌, ◌/ℤ◌, er_no_units,
}
use mcontrol.Base.Int.{wrap64}
use mcontrol.Base.Int.Signs.{minus, times_pos, times_minus, times_opposite, times_both, over_minus}
use mcontrol.Motor.{OpProfile}
use mcontrol.Requests.Units.{
  Floats, micro_revs, scaled, factored, find_factor, factors, or_zero, microrevs_to_distance,
  microrevs_to_distance_units, microrevs_to_distance_f, microrevs_to_distance_units_f,
  distance_units_to_microrevs, distance_to_microrevs,
}

abbrev million : ℕ
million = 1000000

cancelled : (a b : ℕ) → a * million * b / million ≡ a * b
cancelled a b =
    ap (λ n. n / million) (mul_right_comm a million b)
    ∙ mul-div_cancel (a * b) {n = million} (omega arith)

over_pos : (a k : ℕ) → pos a /ℤ k ≡ pos (a / k)
unfolding ◌/ℤ◌
over_pos a k = refl

scaled_pp : (a b : ℕ) → (pos a *ℤ pos million *ℤ (pos b)) /ℤ million ≡ pos a *ℤ pos b
scaled_pp a b =
    ap (λ z. z *ℤ pos b /ℤ million) (times_pos a million)
    ∙ ap (λ z. z /ℤ million) (times_pos (a * million) b)
    ∙ over_pos (a * million * b) million
    ∙ ap pos (cancelled a b)
    ∙ sym (times_pos a b)

scaled_mp : (a b : ℕ) → (minus a *ℤ pos million *ℤ (pos b)) /ℤ million ≡ minus a *ℤ pos b
scaled_mp a b =
    ap (λ z. z *ℤ pos b /ℤ million) (times_minus a million)
    ∙ ap (λ z. z /ℤ million) (times_minus (a * million) b)
    ∙ over_minus (a * million * b) million
    ∙ ap minus (cancelled a b)
    ∙ sym (times_minus a b)

scaled_pm : (a b : ℕ) → (pos a *ℤ pos million *ℤ (minus b)) /ℤ million ≡ pos a *ℤ minus b
scaled_pm a b =
    ap (λ z. z *ℤ minus b /ℤ million) (times_pos a million)
    ∙ ap (λ z. z /ℤ million) (times_opposite (a * million) b)
    ∙ over_minus (a * million * b) million
    ∙ ap minus (cancelled a b)
    ∙ sym (times_opposite a b)

scaled_mm : (a b : ℕ) → (minus a *ℤ pos million *ℤ (minus b)) /ℤ million ≡ minus a *ℤ minus b
scaled_mm a b =
    ap (λ z. z *ℤ minus b /ℤ million) (times_minus a million)
    ∙ ap (λ z. z /ℤ million) (times_both (a * million) b)
    ∙ over_pos (a * million * b) million
    ∙ ap pos (cancelled a b)
    ∙ sym (times_both a b)

divided_lem : (d s : ℤ) → (d *ℤ pos million *ℤ s) /ℤ million ≡ d *ℤ s
divided_lem (pos a) (pos b) = scaled_pp a b
divided_lem (pos a) (negsuc b) = scaled_pm a (suc b)
divided_lem (negsuc a) (pos b) = scaled_mp (suc a) b
divided_lem (negsuc a) (negsuc b) = scaled_mm (suc a) (suc b)

-- The product of the code does not overflow.
abbrev pub IsLong : ℤ → Type 0
IsLong z = wrap64 z ≡ z

scaled_lem : (d s : ℤ) → IsLong (d *ℤ pos million *ℤ s) → scaled (d *ℤ pos million) s ≡ d *ℤ s
scaled_lem d s h = ap (λ z. z /ℤ million) h ∙ divided_lem d s

-- A distance in the units of a connection, whose scale is set and which are not micro-revolutions, is
-- converted exactly: the million that the code multiplies by and divides by again loses nothing, and
-- the result is the distance times the scale, when the product of all three is a long long.
pub distance_to_microrevs_lem :
    {F : Type 0} (fl : Floats F) (op : OpProfile) (distance : ℤ)
    → op.units ≢ 0
    → op.units ≢ micro_revs
    → eqb_ℤ op.scale (pos 0) ≡ false
    → IsLong (distance *ℤ pos million *ℤ op.scale)
    → distance_to_microrevs fl op distance ≡ (0, some (distance *ℤ op.scale))
unfolding distance_to_microrevs distance_units_to_microrevs
distance_to_microrevs_lem fl op distance z n s h =
    let a : (op.units == 0) ≡ false = ground arith in
    let b : (op.units == micro_revs) ≡ false = ground arith in
    let c : (op.units == op.units) ≡ true = ground arith in
    rw (a, b, s, c) (ap (λ x. (0, some x)) (scaled_lem distance op.scale h))

-- A connection without units converts nothing.
pub distance_to_microrevs-unitless :
    {F : Type 0} (fl : Floats F) (op : OpProfile) (distance : ℤ)
    → op.units ≡ 0
    → distance_to_microrevs fl op distance ≡ (er_no_units, none)
unfolding distance_to_microrevs
distance_to_microrevs-unitless fl op distance h = rw h refl

factored-some :
    {F : Type 0} (fl : Floats F) (d scale : ℤ) (row : Option ℕ)
    → (factored fl d scale row).0 ≡ 0
    → factored fl d scale row ≡ (0, some (or_zero (factored fl d scale row).1))
unfolding factored
factored-some fl d scale none h = absurd (omega (arith, h))
factored-some fl d scale (some row) h = refl

-- A conversion to micro-revolutions with the status 0 has a result.
pub distance_units_to_microrevs-some :
    {F : Type 0} (fl : Floats F) (op : OpProfile) (d : ℤ) (units : ℕ)
    → (distance_units_to_microrevs fl op d units).0 ≡ 0
    → distance_units_to_microrevs fl op d units
      ≡ (0, some (or_zero (distance_units_to_microrevs fl op d units).1))
unfolding distance_units_to_microrevs
distance_units_to_microrevs-some fl op d units =
    if_cases {A = ℕ × Option ℤ} (λ r. r.0 ≡ 0 → r ≡ (0, some (or_zero r.1))) (units == micro_revs) _
      _ (λ e h. refl)
      λ e.
        if_cases {A = ℕ × Option ℤ} (λ r. r.0 ≡ 0 → r ≡ (0, some (or_zero r.1)))
          (eqb_ℤ op.scale (pos 0)) _ _ (λ z h. absurd (omega (arith, h)))
          λ z.
            if_cases {A = ℕ × Option ℤ} (λ r. r.0 ≡ 0 → r ≡ (0, some (or_zero r.1)))
              (units == op.units) _ _ (λ u h. refl)
              (λ u.
                factored-some fl (d *ℤ pos million) op.scale (find_factor 0 units op.units factors))

-- Micro-revolutions in the units of a connection, whose scale is set and which are not
-- micro-revolutions: the quotient by the scale, cut to an int.
pub microrevs_to_distance_lem :
    {F : Type 0} (fl : Floats F) (op : OpProfile) (urevs : ℤ)
    → op.units ≢ 0
    → op.units ≢ micro_revs
    → eqb_ℤ op.scale (pos 0) ≡ false
    → microrevs_to_distance fl op urevs
      ≡ (0, some (wrap32 (fl.truncated (fl.over (fl.of_integer urevs) (fl.of_integer op.scale)))))
unfolding microrevs_to_distance microrevs_to_distance_units microrevs_to_distance_f
    microrevs_to_distance_units_f
microrevs_to_distance_lem fl op urevs z n s =
    let a : (op.units == 0) ≡ false = ground arith in
    let b : (op.units == micro_revs) ≡ false = ground arith in
    let c : (op.units == op.units) ≡ true = ground arith in rw (a, b, s, c) refl
