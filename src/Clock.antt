-- ===== src/Clock.antt =====
-- lib/message.c, the arithmetic of `struct timespec`: tsAdd and nsecDiff. The fields are `long`; the
-- times of the program stay far below its range, so the sums here do not wrap.
pub mod Laws
mod Tests
use mcontrol.Base.{Bool, ◌&&◌, ◌||◌, if◌then◌else◌}
use mcontrol.Base.Int.{ℤ, pos, ◌+ℤ◌, ◌-ℤ◌, ◌*ℤ◌, ltb_ℤ, eqb_ℤ}

-- struct timespec
pub record Timespec : Type 0 where
  pub sec : ℤ
  pub nsec : ℤ

abbrev pub nano : ℤ
nano = pos 1000000000

-- The carry of `ts_add` is on `nsec > 1e9`, so a sum of exactly 1e9 nanoseconds stays.
unfoldable pub ts_add : Timespec → Timespec → Timespec
ts_add a b =
    let nsec = a.nsec +ℤ b.nsec in
    let sec = a.sec +ℤ b.sec in
    if ltb_ℤ nano nsec
    then record { sec = sec +ℤ pos 1; nsec = nsec -ℤ nano }
    else record { sec = sec; nsec = nsec }

unfoldable pub nsec_diff : Timespec → Timespec → ℤ
nsec_diff a b = (a.sec -ℤ b.sec) *ℤ nano +ℤ (a.nsec -ℤ b.nsec)

-- `a` comes after `b`: the comparison that the timer list makes, field by field.
abbrev pub later : Timespec → Timespec → Bool
later a b = ltb_ℤ b.sec a.sec || (eqb_ℤ a.sec b.sec && ltb_ℤ b.nsec a.nsec)
