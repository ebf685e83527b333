-- ===== src/Clock/Laws.antt =====
-- What tsAdd and nsecDiff of lib/message.c promise, and the order of times.
use mcontrol.Base.{ℕ, ◌+◌, ◌*◌, ◌≤◌, ◌<◌, ◌≡◌, true, false, arith}
use mcontrol.Base.Int.{pos_part, neg_part, ◌+ℤ◌, ◌-ℤ◌}
use mcontrol.Clock.{Timespec, ts_add, later}

-- The nanoseconds of a time, as two parts whose difference they are.
abbrev pub ups : Timespec → ℕ
ups t = 1000000000 * pos_part t.sec + pos_part t.nsec

abbrev pub downs : Timespec → ℕ
downs t = 1000000000 * neg_part t.sec + neg_part t.nsec

-- A time as the kernel wants it: not before the epoch, with less than a second of nanoseconds.
pub record IsNormal (t : Timespec) : Type 0 where
  pub sec_pos : neg_part t.sec ≡ 0
  pub nsec_pos : neg_part t.nsec ≡ 0
  pub nsec_lt : pos_part t.nsec < 1000000000

-- tsAdd adds exactly: the nanoseconds of the result are those of the two times together.
pub ts_add_exact :
    (a b : Timespec) → ups (ts_add a b) + downs a + downs b ≡ downs (ts_add a b) + ups a + ups b
unfolding ts_add ◌+ℤ◌ ◌-ℤ◌
ts_add_exact a b = ground arith

-- The sum of two normal times is not negative and has at most 1e9 nanoseconds, the bound itself
-- included.
pub ts_add_range :
    (a b : Timespec)
    → IsNormal a
    → IsNormal b
    → (neg_part (ts_add a b).sec ≡ 0)
      × (neg_part (ts_add a b).nsec ≡ 0)
      × (pos_part (ts_add a b).nsec ≤ 1000000000)
unfolding ts_add ◌+ℤ◌ ◌-ℤ◌
ts_add_range a b v w = ground arith

pub later_trans : (a b c : Timespec) → later b a ≡ false → later c b ≡ false → later c a ≡ false
later_trans a b c h k = ground arith

pub later_asym : (a b : Timespec) → later a b ≡ true → later b a ≡ false
later_asym a b h = ground arith
