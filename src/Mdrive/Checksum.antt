-- ===== src/Mdrive/Checksum.antt =====
-- drivers/mdrive/serial.c: the checksum character of a transmission. A `char` is its byte, a number
-- below 256; the sum is an unsigned char, which wraps.
pub mod Laws
mod Tests
use Prim.Native.Nat.{bit_and, bit_or}
use mcontrol.Base.{
  ℕ, ◌+◌, ◌-◌, ◌%◌, ◌==◌, Bool, false, not, List, [], ◌∷◌, length, ltb, if◌then◌else◌,
}

-- The loop of mdrive_calc_checksum.
unfoldable pub sum_bytes : ℕ → List ℕ → ℕ
sum_bytes checksum [] = checksum
sum_bytes checksum (b ∷ bs) = sum_bytes ((checksum + b) % 256) bs

-- mdrive_calc_checksum: `(~checksum + 1) | 128`
unfoldable pub calc_checksum : List ℕ → ℕ
calc_checksum bs = bit_or ((256 - sum_bytes 0 bs) % 256) 128

-- mdrive_check_checksum
unfoldable pub check_checksum : List ℕ → ℕ → Bool
check_checksum bs checksum =
    if ltb (length bs) 1
    then false
    else if not (bit_and checksum 128 == 128)
    then false
    else checksum == calc_checksum bs
