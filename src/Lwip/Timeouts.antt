-- ===== src/Lwip/Timeouts.antt =====
-- src/lwip/src/core/timeouts.c: the timers of the stack, which `N2T::process_events` runs. The list
-- of timeouts is a list in the order of the `next` pointers. Times are milliseconds in 32 bits; what
-- `sys_now` gives is an argument. An allocation that fails aborts, so each one succeeds here.
pub mod Order
pub mod Due
use libn2t.Common.{
  ℕ, zero, suc, ◌+◌, ◌-◌, Bool, true, false, not, ◌&&◌, ◌||◌, List, [], ◌∷◌, ◌++◌, map, Option,
  none, some, drop, ltb, leb, ◌==◌, if◌then◌else◌, u32,
}

-- Handlers and their arguments are named by numbers; `none` is NULL.
pub record Timeout : Type 0 where
  pub time : ℕ
  pub handler : Option ℕ
  pub arg : ℕ

-- `next_timeout`, `current_timeout_due_time` and `tcpip_tcp_timer_active`.
pub record Timers : Type 0 where
  pub timeouts : List Timeout
  pub due_time : ℕ
  pub tcp_timer_active : Bool

-- TIME_LESS_THAN: the difference, in 32 bits, is more than LWIP_MAX_TIMEOUT.
abbrev pub time_less_than : ℕ → ℕ → Bool
time_less_than t compare_to = ltb 2147483647 (u32 (t + 4294967296 - compare_to))

-- Behind the last timeout of a list that is not empty, or in front of the first later one.
unfoldable pub insert_behind : Timeout → List Timeout → List Timeout
insert_behind new [] = []
insert_behind new (t ∷ []) = t ∷ new ∷ []
insert_behind new (t ∷ u ∷ rest) =
    let further = insert_behind new (u ∷ rest) in
    if time_less_than new.time u.time then t ∷ new ∷ u ∷ rest else t ∷ further

unfoldable pub insert : Timeout → List Timeout → List Timeout
unfolding insert_behind
insert new [] = new ∷ []
insert new (t ∷ rest) =
    if time_less_than new.time t.time then new ∷ t ∷ rest else insert_behind new (t ∷ rest)

unfoldable pub sys_timeout_abs : ℕ → Option ℕ → ℕ → Timers → Timers
unfolding insert
sys_timeout_abs abs_time h a s = record s {
  timeouts = insert (record { time = abs_time; handler = h; arg = a }) s.timeouts;
}

-- `none` is the assertion on the length.
unfoldable pub sys_timeout : ℕ → ℕ → Option ℕ → ℕ → Timers → Option Timers
unfolding sys_timeout_abs
sys_timeout now msecs h a s =
    if leb msecs 1073741823 then some (sys_timeout_abs (u32 (now + msecs)) h a s) else none

abbrev pub handler_eq : Option ℕ → Option ℕ → Bool
handler_eq none none = true
handler_eq (some x) (some y) = x == y
handler_eq _ _ = false

unfoldable pub remove_first : Option ℕ → ℕ → List Timeout → List Timeout
remove_first h a [] = []
remove_first h a (t ∷ rest) =
    if handler_eq t.handler h && t.arg == a then rest else t ∷ remove_first h a rest

unfoldable pub sys_untimeout : Option ℕ → ℕ → Timers → Timers
unfolding remove_first
sys_untimeout h a s = record s { timeouts = remove_first h a s.timeouts }

-- What the handlers do, and the loop, which recurs on fuel; `none` is the end of the fuel.
module _ (call : ℕ → ℕ → Timers → Timers) where
  abbrev pub call_handler : Timeout → Timers → Timers
  call_handler t s = elim t.handler [ none ↦ s | some h ↦ call h t.arg s ]

  abbrev pub expire : Timeout → List Timeout → Timers → Timers
  expire t rest s = call_handler t (record s { timeouts = rest; due_time = t.time })

  unfoldable pub check_loop : ℕ → ℕ → Timers → Option Timers
  check_loop zero now s = none
  check_loop (suc fuel) now s = elim s.timeouts [
    | [] ↦ some s
    | t ∷ rest ↦
        let further = check_loop fuel now (expire t rest s) in
        if time_less_than now t.time then some s else further
  ]

  unfoldable pub sys_check_timeouts : ℕ → ℕ → Timers → Option Timers
  unfolding check_loop
  sys_check_timeouts fuel now s = check_loop fuel now s

abbrev pub rebase : ℕ → ℕ → Timeout → Timeout
rebase base now t = record t { time = u32 (u32 (t.time + 4294967296 - base) + now) }

unfoldable pub sys_restart_timeouts : ℕ → Timers → Timers
sys_restart_timeouts now s = elim s.timeouts [
  | [] ↦ s
  | t ∷ rest ↦ record s { timeouts = map (rebase t.time now) (t ∷ rest) }
]

-- `none` is SYS_TIMEOUTS_SLEEPTIME_INFINITE.
unfoldable pub sys_timeouts_sleeptime : ℕ → Timers → Option ℕ
sys_timeouts_sleeptime now s = elim s.timeouts [
  | [] ↦ none
  | t ∷ rest ↦ some (if time_less_than t.time now then 0 else u32 (t.time + 4294967296 - now))
]

-- `number` names `lwip_cyclic_timer` itself and `a` its timer, whose handler has run when the clock
-- shows `now`.
unfoldable pub lwip_cyclic_timer : ℕ → ℕ → (Timers → Timers) → ℕ → ℕ → Timers → Timers
unfolding sys_timeout_abs
lwip_cyclic_timer number interval_ms handler now a s =
    let t = handler s in
    let next_timeout_time : ℕ = u32 (t.due_time + interval_ms) in
    if time_less_than next_timeout_time now
    then sys_timeout_abs (u32 (now + interval_ms)) (some number) a t
    else sys_timeout_abs next_timeout_time (some number) a t

-- `tcp_tmr` is `handler`, and `needed` whether there are connections after it.
unfoldable pub tcpip_tcp_timer :
    ℕ → (Timers → Timers) → (Timers → Bool) → ℕ → Timers → Option Timers
unfolding sys_timeout
tcpip_tcp_timer number handler needed now s =
    let t = handler s in
    if needed t
    then sys_timeout now 250 (some number) 0 t
    else some (record t { tcp_timer_active = false })

unfoldable pub tcp_timer_needed : ℕ → Bool → ℕ → Timers → Option Timers
unfolding sys_timeout
tcp_timer_needed number needed now s =
    if not s.tcp_timer_active && needed
    then sys_timeout now 250 (some number) 0 (record s { tcp_timer_active = true })
    else some s

-- The intervals of `lwip_cyclic_timers`: TCP, the reassembly of IPv4, neighbours, the reassembly of
-- IPv6 and its multicast listeners.
abbrev pub lwip_cyclic_timers : List ℕ
lwip_cyclic_timers = 250 ∷ 1000 ∷ 1000 ∷ 1000 ∷ 100 ∷ []

unfoldable pub start_timers : ℕ → ℕ → ℕ → List ℕ → Timers → Option Timers
unfolding sys_timeout
start_timers number now i [] s = some s
start_timers number now i (interval_ms ∷ rest) s =
    elim (sys_timeout now interval_ms (some number) i s) [
      | none ↦ none
      | some t ↦ start_timers number now (suc i) rest t
    ]

-- The timer of TCP, the first, is started on demand.
unfoldable pub sys_timeouts_init : ℕ → ℕ → Timers → Option Timers
unfolding start_timers
sys_timeouts_init number now s = start_timers number now 1 (drop 1 lwip_cyclic_timers) s
