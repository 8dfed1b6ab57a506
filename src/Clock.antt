-- ===== src/Clock.antt =====
-- `sys_now` of src/custom/sys_arch.c: the clock from which lwIP measures its timeouts, the
-- milliseconds of a monotonic clock cut to 32 bits.
use libn2t.Common.{ℕ, ◌+◌, ◌-◌, ◌*◌, ◌/◌, ◌≤◌, ◌<◌, arith, u32}

-- `struct timespec`
pub record Timespec : Type 0 where
  pub tv_sec : ℕ
  pub tv_nsec : ℕ

abbrev pub millis : Timespec → ℕ
millis ts = ts.tv_sec * 1000 + ts.tv_nsec / 1000000

abbrev pub sys_now : Timespec → ℕ
sys_now ts = u32 (millis ts)

-- The nanoseconds that the clock shows.
abbrev pub nanos : Timespec → ℕ
nanos ts = ts.tv_sec * 1000000000 + ts.tv_nsec

-- The difference of two readings, in 32 bits, is the time between them: it times 1000000 differs
-- from the nanoseconds between them by less than 1000000, also when the clock wraps in between, as
-- long as the time is shorter than 2 ^ 32 - 1 milliseconds.
pub sys_now_elapsed :
    (a b : Timespec)
    → nanos a ≤ nanos b
    → nanos b - nanos a < 4294967295 * 1000000
    → ((u32 (sys_now b + 4294967296 - sys_now a)) * 1000000 < nanos b - nanos a + 1000000)
      × (nanos b - nanos a < (u32 (sys_now b + 4294967296 - sys_now a)) * 1000000 + 1000000)
sys_now_elapsed a b h k = omega arith
