-- ===== src/Lwip/Timeouts/Due.antt =====
-- The loop over the timeouts that are due ends under the cyclic timers, and leaves none in front.
use libn2t.Common.{ℕ, suc, ◌+◌, ◌-◌, ◌≡◌, ◌<◌, true, List, [], ◌∷◌, some, ◌==◌, if◌then◌else◌, u32}
use libn2t.Lwip.Timeouts.{Timeout, Timers, time_less_than, lwip_cyclic_timer, check_loop}

-- How many timeouts have been reached.
abbrev pub count_due : ℕ → List Timeout → ℕ
count_due now [] = 0
count_due now (t ∷ rest) =
    if time_less_than now t.time then count_due now rest else suc (count_due now rest)

-- No timeout in front is due.
abbrev pub IsIdle : ℕ → List Timeout → Type 0
IsIdle now [] = Unit {0}
IsIdle now (t ∷ rest) = time_less_than now t.time ≡ true

-- Each timeout is that of a cyclic timer, and its time has 32 bits.
abbrev pub AreCyclic : ℕ → List Timeout → Type 0
AreCyclic number [] = Unit {0}
AreCyclic number (t ∷ rest) =
    (t.handler ≡ some number) × (t.time < 4294967296) × AreCyclic number rest

module _ (interval : ℕ → ℕ) (now : ℕ) where
  -- How often a timeout runs before the loop is done with it: twice if it is as late as its interval,
  -- since it is then set for this very time.
  abbrev rounds_of : Timeout → ℕ
  rounds_of t =
      if time_less_than now t.time
      then 0
      else if u32 (now + 4294967296 - t.time) == interval t.arg
      then 2
      else 1

  abbrev rounds : List Timeout → ℕ
  rounds [] = 0
  rounds (t ∷ rest) = rounds_of t + rounds rest

-- The handlers of the cyclic timers, which set and clear no timeout, and their intervals.
module _ (number : ℕ) (interval : ℕ → ℕ) (handler : ℕ → Timers → Timers) (now : ℕ) where
  abbrev pub cyclic : ℕ → ℕ → Timers → Timers
  cyclic h a = lwip_cyclic_timer h (interval a) (handler a) now a

  module _ (positive : (a : ℕ) → 0 < interval a) (short : (a : ℕ) → interval a < 1073741824)
      (quiet : (a : ℕ) (s : Timers)
        → ((handler a s).timeouts ≡ s.timeouts) × ((handler a s).due_time ≡ s.due_time))
      (clock : now < 4294967296) where
    -- Where a timer that was due is set again.
    again : (a time : ℕ) → ℕ
    again a time =
        if time_less_than (u32 (time + interval a)) now
        then u32 (now + interval a)
        else u32 (time + interval a)

    abbrev Ends : ℕ → Timers → Type 0
    Ends fuel s = (t : Timers) × (check_loop cyclic fuel now s ≡ some t) × IsIdle now t.timeouts
