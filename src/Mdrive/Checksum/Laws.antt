-- ===== src/Mdrive/Checksum/Laws.antt =====
-- What the checksum of drivers/mdrive/serial.c is for: with the characters that it covers it sums to
-- a multiple of 128.
use Prim.Native.Nat.{bit_and, bit_or}
use mcontrol.Base.{
  ℕ, zero, suc, ◌+◌, ◌-◌, ◌%◌, ◌≤◌, ◌<◌, ◌≡◌, refl, ◌↔◌, Bool, true, false, List, [], ◌∷◌, arith,
  ℕ_discrete, ltb, ◌==◌, if◌then◌else◌, length,
}
use mcontrol.Mdrive.Checksum.{sum_bytes, calc_checksum, check_checksum}

abbrev pub total : List ℕ → ℕ
total [] = 0
total (b ∷ bs) = b + total bs

-- Two operations on bytes that agree on each byte of a range.
agree_upto : (f g : ℕ → ℕ) → ℕ → Bool
agree_upto f g zero = true
agree_upto f g (suc top) = let lower = agree_upto f g top in if f top == g top then lower else false

agree_upto-eq :
    (f g : ℕ → ℕ) (top byte : ℕ) → byte < top → agree_upto f g top ≡ true → f byte ≡ g byte
unfolding agree_upto
agree_upto-eq f g zero byte range same = absurd (omega arith)
agree_upto-eq f g (suc top) byte range same = elim (ℕ_discrete byte top) [
  | yes e ↦ ground (arith, e, same)
  | no ne ↦ agree_upto-eq f g top byte (omega (arith, ne)) (ground (arith, same))
]

or_agrees : agree_upto (λ x. bit_or x 128) (λ x. 128 + x % 128) 256 ≡ true
unfolding agree_upto
or_agrees = refl

and_agrees : agree_upto (λ x. bit_and x 128) (λ x. if ltb x 128 then 0 else 128) 256 ≡ true
unfolding agree_upto
and_agrees = refl

or_128 : (x : ℕ) → x < 256 → bit_or x 128 ≡ 128 + x % 128
or_128 x h = agree_upto-eq (λ x. bit_or x 128) (λ x. 128 + x % 128) 256 x h or_agrees

pub and_128 : (x : ℕ) → x < 256 → bit_and x 128 ≡ (if ltb x 128 then 0 else 128)
and_128 x h =
    agree_upto-eq (λ x. bit_and x 128) (λ x. if ltb x 128 then 0 else 128) 256 x h and_agrees

sum_bytes_lem : (c : ℕ) (bs : List ℕ) → c < 256 → sum_bytes c bs ≡ (c + total bs) % 256
unfolding sum_bytes
sum_bytes_lem c [] h = omega arith
sum_bytes_lem c (b ∷ bs) h = omega (arith, sum_bytes_lem ((c + b) % 256) bs (omega arith))

calc_lem : (bs : List ℕ) → calc_checksum bs ≡ 128 + (256 - total bs % 256) % 128
unfolding calc_checksum
calc_lem bs =
    rw (sum_bytes_lem 0 bs (omega arith))
      (omega (arith, or_128 ((256 - (0 + total bs) % 256) % 256) (omega arith)))

-- The checksum is a character with the high bit set, and makes up a multiple of 128 with the sum of
-- the characters.
pub calc_checksum_range :
    (bs : List ℕ)
    → (128 ≤ calc_checksum bs)
      × (calc_checksum bs < 256)
      × ((total bs + calc_checksum bs) % 128 ≡ 0)
calc_checksum_range bs =
    (omega (arith, calc_lem bs), omega (arith, calc_lem bs), omega (arith, calc_lem bs))

-- A received character is accepted as the checksum of a buffer exactly when the buffer is not
-- empty, the character has its high bit set, and all together sum to a multiple of 128.
pub check_checksum_iff :
    (bs : List ℕ) (c : ℕ)
    → c < 256
    → (check_checksum bs c ≡ true) ↔ ((1 ≤ length bs) × (128 ≤ c) × ((total bs + c) % 128 ≡ 0))
unfolding check_checksum
check_checksum_iff bs c h = (
  λ e. (
    ground (arith, and_128 c h, calc_lem bs),
    ground (arith, and_128 c h, calc_lem bs),
    ground (arith, and_128 c h, calc_lem bs),
  ),
  λ t. ground (arith, and_128 c h, calc_lem bs, t.0, t.1, t.2),
)

pub check-calc : (bs : List ℕ) → 1 ≤ length bs → check_checksum bs (calc_checksum bs) ≡ true
check-calc bs h =
    let r = calc_checksum_range bs in (check_checksum_iff bs (calc_checksum bs) r.1).1 (h, r.0, r.2)
