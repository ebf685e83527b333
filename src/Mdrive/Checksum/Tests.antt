-- ===== src/Mdrive/Checksum/Tests.antt =====
-- The checksum of drivers/mdrive/serial.c on small buffers.
use mcontrol.Base.{ℕ, ◌≡◌, refl, true, false, List, [], ◌∷◌}
use mcontrol.Mdrive.Checksum.{calc_checksum, check_checksum, sum_bytes}

abbrev digits : List ℕ
digits = b'1' ∷ b'2' ∷ []

calc_digits : calc_checksum digits ≡ 157
unfolding calc_checksum sum_bytes
calc_digits = refl

check_digits : check_checksum digits 157 ≡ true
unfolding check_checksum calc_checksum sum_bytes
check_digits = refl

check_other : check_checksum digits 158 ≡ false
unfolding check_checksum calc_checksum sum_bytes
check_other = refl
