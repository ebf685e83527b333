-- ===== src/Base/Int.antt =====
-- Signed integers over the native numbers, with the division of C.
pub mod Signs
use mcontrol.Base.Tests.{ltb, leb, ◌==◌, if◌then◌else◌}
use Prim.Native.Nat.{ℕ, suc, ◌+◌, ◌-◌, ◌*◌, ◌/◌, ◌%◌, ◌^◌}
use mathlib.Core.Bool.{Bool}
use mathlib.Core.Path.{◌≡◌}
use native.Mathlib.Omega.{arith}

-- `negsuc n` is -(n + 1).
pub data ℤ : Type 0 where
  pos : ℕ → ℤ
  negsuc : ℕ → ℤ

abbrev pub pos_part : ℤ → ℕ
pos_part (pos n) = n
pos_part (negsuc n) = 0

abbrev pub neg_part : ℤ → ℕ
neg_part (pos n) = 0
neg_part (negsuc n) = suc n

-- a - b, as an integer.
abbrev pub sub_ℕ : ℕ → ℕ → ℤ
sub_ℕ a b = if leb b a then pos (a - b) else negsuc (b - a - 1)

infixl 65 ◌+ℤ◌ ◌-ℤ◌
infixl 70 ◌*ℤ◌ ◌/ℤ◌
unfoldable pub ◌+ℤ◌ : ℤ → ℤ → ℤ
a +ℤ b = sub_ℕ (pos_part a + pos_part b) (neg_part a + neg_part b)

unfoldable pub ◌-ℤ◌ : ℤ → ℤ → ℤ
a -ℤ b = sub_ℕ (pos_part a + neg_part b) (neg_part a + pos_part b)

unfoldable pub ◌*ℤ◌ : ℤ → ℤ → ℤ
a *ℤ b =
    sub_ℕ (pos_part a * pos_part b + neg_part a * neg_part b)
      (pos_part a * neg_part b + neg_part a * pos_part b)

-- The quotient of C, which is rounded towards zero, by a positive number.
unfoldable pub ◌/ℤ◌ : ℤ → ℕ → ℤ
pos a /ℤ b = pos (a / b)
negsuc a /ℤ b = sub_ℕ 0 (suc a / b)

abbrev pub eqb_ℤ : ℤ → ℤ → Bool
eqb_ℤ a b = (pos_part a + neg_part b) == (pos_part b + neg_part a)

abbrev pub ltb_ℤ : ℤ → ℤ → Bool
ltb_ℤ a b = ltb (pos_part a + neg_part b) (pos_part b + neg_part a)

-- The negative of a number: the way the library returns an error number where a count is due.
abbrev pub neg : ℕ → ℤ
neg n = sub_ℕ 0 n

-- The value that an integer keeps in 32 bits.
abbrev pub wrap32 : ℤ → ℤ
wrap32 (pos n) = let m = n % 2 ^ 32 in if ltb m (2 ^ 31) then pos m else negsuc (2 ^ 32 - m - 1)
wrap32 (negsuc n) = let m = n % 2 ^ 32 in if ltb m (2 ^ 31) then negsuc m else pos (2 ^ 32 - m - 1)

-- A long long that is stored as an unsigned long long, and back.
abbrev pub unsigned64 : ℤ → ℕ
unsigned64 (pos n) = n % 2 ^ 64
unsigned64 (negsuc n) = 2 ^ 64 - 1 - n % 2 ^ 64

abbrev pub signed64 : ℕ → ℤ
signed64 n = if ltb n (2 ^ 63) then pos n else negsuc (2 ^ 64 - 1 - n)

-- A long long that has overflowed.
abbrev pub wrap64 : ℤ → ℤ
wrap64 z = signed64 (unsigned64 z)

pub pos_suc : (n : ℕ) → pos n +ℤ pos 1 ≡ pos (suc n)
unfolding ◌+ℤ◌
pos_suc n = ground arith

pub pos_pred : (n : ℕ) → pos (suc n) -ℤ pos 1 ≡ pos n
unfolding ◌-ℤ◌
pos_pred n = ground arith

-- One lemma for each operation lets `omega` work with the operations shut.
pub +ℤ_parts :
    (a b : ℤ)
    → pos_part (a +ℤ b) + neg_part a + neg_part b ≡ neg_part (a +ℤ b) + pos_part a + pos_part b
unfolding ◌+ℤ◌
+ℤ_parts a b = ground arith

pub -ℤ_parts :
    (a b : ℤ)
    → pos_part (a -ℤ b) + neg_part a + pos_part b ≡ neg_part (a -ℤ b) + pos_part a + neg_part b
unfolding ◌-ℤ◌
-ℤ_parts a b = ground arith

pub eq_of_parts : (a b : ℤ) → pos_part a + neg_part b ≡ pos_part b + neg_part a → a ≡ b
eq_of_parts a b h = ground arith
