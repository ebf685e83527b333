-- ===== src/Requests/Units.antt =====
-- lib/motion.c: the conversions between distances in units and micro-revolutions. Floating point is
-- an argument: its operations, and the factors of the table by their row. The products of the code
-- are of 64 bits and have no bound here.
pub mod Laws
use mcontrol.Base.{
  ℕ, zero, suc, ◌&&◌, Option, none, some, List, [], ◌∷◌, ◌==◌, if◌then◌else◌, ℤ, pos, wrap32, eqb_ℤ,
  ◌*ℤ◌, ◌/ℤ◌, er_no_units, er_no_scale, er_cant_convert,
}
use mcontrol.Base.Int.{wrap64}
use mcontrol.Motor.{OpProfile}

-- The part of floating point that the conversions use; `truncated` is the conversion to an integer.
pub record Floats (F : Type 0) : Type 0 where
  pub of_integer : ℤ → F
  pub times : F → F → F
  pub over : F → F → F
  pub truncated : F → ℤ
  pub scale : ℕ → F

abbrev pub micro_revs : ℕ
micro_revs = 2

-- The pairs of source and destination in `factors`, by the numbers of enum motion_increment.
abbrev pub factors : List (ℕ × ℕ)
factors =
    (3, 4)
    ∷ (3, 5)
    ∷ (3, 6)
    ∷ (4, 3)
    ∷ (4, 5)
    ∷ (4, 6)
    ∷ (5, 3)
    ∷ (5, 4)
    ∷ (5, 6)
    ∷ (7, 8)
    ∷ (7, 9)
    ∷ (8, 7)
    ∷ (8, 9)
    ∷ (9, 7)
    ∷ (9, 8)
    ∷ (20, 4)
    ∷ (20, 3)
    ∷ (20, 6)
    ∷ (20, 5)
    ∷ []

-- The search for a factor: the row of the first that matches.
pub find_factor : ℕ → ℕ → ℕ → List (ℕ × ℕ) → Option ℕ
find_factor row source dest [] = none
find_factor row source dest ((s, d) ∷ rows) =
    let rest = find_factor (suc row) source dest rows in
    if s == source && d == dest then some row else rest

-- What a variable holds that a conversion was to write; the zero stands for one that is not written.
abbrev pub or_zero : Option ℤ → ℤ
or_zero none = pos 0
or_zero (some z) = z

-- A distance by a scale that is kept at a million; the product is a long long.
abbrev pub scaled : ℤ → ℤ → ℤ
scaled distance scale = wrap64 (distance *ℤ scale) /ℤ 1000000

pub factored : {F : Type 0} → Floats F → ℤ → ℤ → Option ℕ → ℕ × Option ℤ
factored fl distance scale none = (er_cant_convert, some distance)
factored fl distance scale (some row) =
    (0, some (scaled (fl.truncated (fl.times (fl.of_integer distance) (fl.scale row))) scale))

-- mcDistanceUnitsToMicroRevs: the status, and what is written to `*urevs`, if anything.
pub distance_units_to_microrevs : {F : Type 0} → Floats F → OpProfile → ℤ → ℕ → ℕ × Option ℤ
unfolding factored find_factor
distance_units_to_microrevs fl op distance units =
    let d = distance *ℤ pos 1000000 in
    if units == micro_revs
    then (0, some distance)
    else if eqb_ℤ op.scale (pos 0)
    then (er_no_scale, none)
    else if units == op.units
    then (0, some (scaled d op.scale))
    else factored fl d op.scale (find_factor 0 units op.units factors)

-- mcDistanceToMicroRevs
pub distance_to_microrevs : {F : Type 0} → Floats F → OpProfile → ℤ → ℕ × Option ℤ
unfolding distance_units_to_microrevs
distance_to_microrevs fl op distance =
    if op.units == 0
    then (er_no_units, none)
    else distance_units_to_microrevs fl op distance op.units

pub multiplied : {F : Type 0} → Floats F → F → Option ℕ → ℕ × Option F
multiplied fl distance none = (er_cant_convert, some distance)
multiplied fl distance (some row) = (0, some (fl.times distance (fl.scale row)))

-- mcMicroRevsToDistanceUnitsF
pub microrevs_to_distance_units_f : {F : Type 0} → Floats F → OpProfile → ℤ → ℕ → ℕ × Option F
unfolding multiplied find_factor
microrevs_to_distance_units_f fl op urevs units =
    let d = fl.over (fl.of_integer urevs) (fl.of_integer op.scale) in
    if units == micro_revs
    then (0, some (fl.of_integer urevs))
    else if eqb_ℤ op.scale (pos 0)
    then (er_no_scale, none)
    else if units == op.units
    then (0, some d)
    else multiplied fl d (find_factor 0 op.units units factors)

-- mcMicroRevsToDistanceF
pub microrevs_to_distance_f : {F : Type 0} → Floats F → OpProfile → ℤ → ℕ × Option F
unfolding microrevs_to_distance_units_f
microrevs_to_distance_f fl op urevs =
    if op.units == 0
    then (er_no_units, none)
    else microrevs_to_distance_units_f fl op urevs op.units

abbrev pub cut : {F : Type 0} → Floats F → ℕ × Option F → ℕ × Option ℤ
cut fl (zero, some d) = (0, some (wrap32 (fl.truncated d)))
cut fl (status, d) = (status, none)

-- mcMicroRevsToDistanceUnits: `units` is not used.
pub microrevs_to_distance_units : {F : Type 0} → Floats F → OpProfile → ℤ → ℕ → ℕ × Option ℤ
unfolding microrevs_to_distance_f
microrevs_to_distance_units fl op urevs units = cut fl (microrevs_to_distance_f fl op urevs)

-- mcMicroRevsToDistance
pub microrevs_to_distance : {F : Type 0} → Floats F → OpProfile → ℤ → ℕ × Option ℤ
unfolding microrevs_to_distance_units
microrevs_to_distance fl op urevs =
    if op.units == 0 then (er_no_units, none) else microrevs_to_distance_units fl op urevs op.units
