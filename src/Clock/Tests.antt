-- ===== src/Clock/Tests.antt =====
-- The theorems about times at concrete inputs.
use mcontrol.Base.{◌≡◌, refl, arith}
use mcontrol.Base.Int.{pos, ◌+ℤ◌}
use mcontrol.Clock.{Timespec, ts_add}
use mcontrol.Clock.Laws.{IsNormal}

abbrev half : Timespec
half = record { sec = pos 1; nsec = pos 500000000 }

half-IsNormal : IsNormal half
half-IsNormal = record { sec_pos = refl; nsec_pos = refl; nsec_lt = omega arith }

-- Two halves of a second make 1e9 nanoseconds, which are not carried.
no_carry : ts_add half half ≡ record { sec = pos 2; nsec = pos 1000000000 }
unfolding ts_add ◌+ℤ◌
no_carry = refl
