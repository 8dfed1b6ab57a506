-- ===== src/Lwip/Timeouts/Order.antt =====
-- The list of timeouts stays in the order of time, also where the clock wraps.
use libn2t.Common.{
  ℕ, ◌+◌, ◌-◌, ◌≡◌, ◌<◌, ◌≤◌, refl, List, [], ◌∷◌, map, Option, arith, All, ltb, if◌then◌else◌, u32,
}
use libn2t.Lwip.Timeouts.{
  Timeout, Timers, time_less_than, insert_behind, insert, sys_timeout_abs, rebase,
  sys_restart_timeouts,
}

-- How long after a base a time is.
abbrev pub age : ℕ → ℕ → ℕ
age base t = u32 (t + 4294967296 - base)

-- A time in 32 bits that is less than 2 ^ 31 after the base.
abbrev pub InWindow : ℕ → Timeout → Type 0
InWindow base t = (t.time < 4294967296) × (age base t.time < 2147483648)

time_less_than-age :
    (base : ℕ) (t u : Timeout)
    → base < 4294967296
    → InWindow base t
    → InWindow base u
    → time_less_than t.time u.time ≡ ltb (age base t.time) (age base u.time)
time_less_than-age base t u b ht hu = ground arith

-- Insertion by age, behind those of the same age.
abbrev pub insert_by_age : ℕ → Timeout → List Timeout → List Timeout
insert_by_age base new [] = new ∷ []
insert_by_age base new (t ∷ rest) =
    if ltb (age base new.time) (age base t.time)
    then new ∷ t ∷ rest
    else t ∷ insert_by_age base new rest

abbrev pub IsSorted : ℕ → List Timeout → Type 0
IsSorted base [] = Unit {0}
IsSorted base (t ∷ []) = Unit {0}
IsSorted base (t ∷ u ∷ rest) = (age base t.time ≤ age base u.time) × IsSorted base (u ∷ rest)

insert_behind-age :
    (base : ℕ) (new t : Timeout) (rest : List Timeout)
    → base < 4294967296
    → InWindow base new
    → All (InWindow base) rest
    → insert_behind new (t ∷ rest) ≡ t ∷ insert_by_age base new rest
unfolding insert_behind
insert_behind-age base new t [] b hn hr = refl
insert_behind-age base new t (u ∷ rest) b hn hr =
    ground
      (arith, time_less_than-age base new u b hn hr.0, insert_behind-age base new u rest b hn hr.1)

insert-age :
    (base : ℕ) (new : Timeout) (ts : List Timeout)
    → base < 4294967296
    → InWindow base new
    → All (InWindow base) ts
    → insert new ts ≡ insert_by_age base new ts
unfolding insert
insert-age base new [] b hn hr = refl
insert-age base new (t ∷ rest) b hn hr =
    ground
      (arith, time_less_than-age base new t b hn hr.0, insert_behind-age base new t rest b hn hr.1)

IsSorted-insert :
    (base : ℕ) (new : Timeout) (ts : List Timeout)
    → IsSorted base ts
    → IsSorted base (insert_by_age base new ts)
IsSorted-insert base new [] h = tt
IsSorted-insert base new (t ∷ []) h = ground arith
IsSorted-insert base new (t ∷ u ∷ rest) h = ground (arith, IsSorted-insert base new (u ∷ rest) h.1)

-- If all times are less than 2 ^ 31 milliseconds after a base, wherever the clock wraps, a new
-- timeout is inserted by the time that it comes after the base, behind those of the same time, and
-- a list that is in this order stays so.
pub sys_timeout_abs_lem :
    (base abs_time a : ℕ) (h : Option ℕ) (s : Timers)
    → base < 4294967296
    → abs_time < 4294967296
    → age base abs_time < 2147483648
    → All (InWindow base) s.timeouts
    → ((sys_timeout_abs abs_time h a s).timeouts
        ≡ insert_by_age base (record { time = abs_time; handler = h; arg = a }) s.timeouts)
      × (IsSorted base s.timeouts → IsSorted base (sys_timeout_abs abs_time h a s).timeouts)
unfolding sys_timeout_abs
sys_timeout_abs_lem base abs_time a h s b ht hw hs =
    let same =
      insert-age base (record { time = abs_time; handler = h; arg = a }) s.timeouts b (ht, hw) hs in
    (same, λ sorted. rw same (IsSorted-insert base _ s.timeouts sorted))

-- The ages of all timeouts.
abbrev pub ages : ℕ → List Timeout → List ℕ
ages base [] = []
ages base (t ∷ rest) = age base t.time ∷ ages base rest

ages-rebase :
    (base now : ℕ) (ts : List Timeout)
    → base < 4294967296
    → now < 4294967296
    → ages now (map (rebase base now) ts) ≡ ages base ts
ages-rebase base now [] b n = refl
ages-rebase base now (t ∷ rest) b n = ground (arith, ages-rebase base now rest b n)

-- After a restart the first timeout is due at once and each other one as long after it as before.
pub sys_restart_timeouts_lem :
    (now : ℕ) (t : Timeout) (rest : List Timeout) (s : Timers)
    → s.timeouts ≡ t ∷ rest
    → t.time < 4294967296
    → now < 4294967296
    → ages now (sys_restart_timeouts now s).timeouts ≡ 0 ∷ ages t.time rest
unfolding sys_restart_timeouts
sys_restart_timeouts_lem now t rest s e ht hn = ground (arith, e, ages-rebase t.time now rest ht hn)
