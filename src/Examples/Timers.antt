-- ===== src/Examples/Timers.antt =====
-- Examples of src/lwip/src/core/timeouts.c.
use libn2t.Common.{ℕ, ◌≡◌, false, [], ◌∷◌, none, some, arith, ◌==◌, if◌then◌else◌}
use libn2t.Lwip.Timeouts.{Timers, sys_timeout_abs}
use libn2t.Lwip.Timeouts.Order.{insert_by_age, IsSorted, sys_timeout_abs_lem}

-- Two timeouts, the second one after the clock has wrapped.
abbrev timers : Timers
timers = record {
  timeouts =
      record { time = 4294967200; handler = some 1; arg = 0 }
      ∷ record { time = 4; handler = none; arg = 0 }
      ∷ [];
  due_time = 0;
  tcp_timer_active = false;
}

sys_timeout_abs_lem_example :
    ((sys_timeout_abs 2 (some 3) 0 timers).timeouts
      ≡ insert_by_age 4294967100 (record { time = 2; handler = some 3; arg = 0 }) timers.timeouts)
    × (IsSorted 4294967100 timers.timeouts
        → IsSorted 4294967100 (sys_timeout_abs 2 (some 3) 0 timers).timeouts)
sys_timeout_abs_lem_example =
    sys_timeout_abs_lem 4294967100 2 0 (some 3) timers (omega arith) (omega arith) (omega arith)
      ((omega arith, omega arith), ((omega arith, omega arith), tt))

-- Two cyclic timers at 4 milliseconds after the wrap of the clock, the first one as late as its
-- interval, so that it runs twice.
abbrev every : ℕ → ℕ
every a = if a == 1 then 1000 else 100

abbrev late : Timers
late = record {
  timeouts =
      record { time = 4294966300; handler = some 9; arg = 1 }
      ∷ record { time = 4294967290; handler = some 9; arg = 2 }
      ∷ [];
  due_time = 0;
  tcp_timer_active = false;
}

abbrev at_rest : ℕ → Timers → Timers
at_rest a s = s
