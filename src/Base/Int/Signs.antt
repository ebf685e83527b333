-- ===== src/Base/Int/Signs.antt =====
-- Products and quotients of integers by sign and size.
use Prim.Native.Nat.{ℕ, zero, suc, ◌+◌, ◌*◌, ◌/◌}
use mathlib.Core.Path.{◌≡◌, refl, ap₂, ◌∙◌}
use native.Mathlib.Nat.{zero-div}
use native.Mathlib.Omega.{arith}
use mcontrol.Base.Int.{ℤ, pos, negsuc, sub_ℕ, ◌*ℤ◌, ◌/ℤ◌}

pub times_pos : (a b : ℕ) → pos a *ℤ pos b ≡ pos (a * b)
unfolding ◌*ℤ◌
times_pos a b = ground arith

abbrev pub minus : ℕ → ℤ
minus zero = pos 0
minus (suc n) = negsuc n

sub_zero : (n : ℕ) → sub_ℕ 0 n ≡ minus n
sub_zero zero = refl
sub_zero (suc n) = ground arith

pub times_minus : (a b : ℕ) → minus a *ℤ pos b ≡ minus (a * b)
unfolding ◌*ℤ◌
times_minus zero b =
    ap₂ sub_ℕ {x = 0 * b + 0 * 0} {y = 0} (omega arith) (omega arith) ∙ sub_zero (0 * b)
times_minus (suc a) b =
    let x : 0 * b + suc a * 0 ≡ 0 = omega arith in
    let y : 0 * 0 + suc a * b ≡ suc a * b = omega arith in ap₂ sub_ℕ x y ∙ sub_zero (suc a * b)

pub over_minus : (a k : ℕ) → minus a /ℤ k ≡ minus (a / k)
unfolding ◌/ℤ◌
over_minus zero k = rw (zero-div k) refl
over_minus (suc a) k = sub_zero (suc a / k)

pub times_opposite : (a b : ℕ) → pos a *ℤ minus b ≡ minus (a * b)
unfolding ◌*ℤ◌
times_opposite a zero =
    let x : a * 0 + 0 * 0 ≡ 0 = omega arith in
    let y : a * 0 + 0 * 0 ≡ a * 0 = omega arith in ap₂ sub_ℕ x y ∙ sub_zero (a * 0)
times_opposite a (suc b) =
    let x : a * 0 + 0 * suc b ≡ 0 = omega arith in
    let y : a * suc b + 0 * 0 ≡ a * suc b = omega arith in ap₂ sub_ℕ x y ∙ sub_zero (a * suc b)

sub_nothing : (n : ℕ) → sub_ℕ n 0 ≡ pos n
sub_nothing n = ground arith

pub times_both : (a b : ℕ) → minus a *ℤ minus b ≡ pos (a * b)
unfolding ◌*ℤ◌
times_both zero zero = refl
times_both zero (suc b) =
    let x : 0 * 0 + 0 * suc b ≡ 0 * suc b = omega arith in
    let y : 0 * suc b + 0 * 0 ≡ 0 = omega arith in ap₂ sub_ℕ x y ∙ sub_nothing (0 * suc b)
times_both (suc a) zero =
    let x : 0 * 0 + suc a * 0 ≡ suc a * 0 = omega arith in
    let y : 0 * 0 + suc a * 0 ≡ 0 = omega arith in ap₂ sub_ℕ x y ∙ sub_nothing (suc a * 0)
times_both (suc a) (suc b) =
    let x : 0 * 0 + suc a * suc b ≡ suc a * suc b = omega arith in
    let y : 0 * suc b + suc a * 0 ≡ 0 = omega arith in ap₂ sub_ℕ x y ∙ sub_nothing (suc a * suc b)
