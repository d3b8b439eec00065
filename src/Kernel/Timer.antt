-- ===== src/Kernel/Timer.antt =====
-- kernel/src/arch/riscv64/timer.rs and `set_timer` of kernel/src/firmware/sbi.rs: the periodic timer.
pub mod Spec
pub mod Sound
mod Examples
use barebone_kernel.Base.{
  ℕ, suc, ◌+◌, ◌*◌, ◌/◌, ◌%◌, ◌-◌, ◌^◌, Bool, true, List, ◌∷◌, Option, none, some, ◌==◌, ltb,
  if◌then◌else◌, checked_add, Result, ok, err, fault, ok_or, ◌>>=◌,
}

-- `SetTimerError`; an `isize` stands as the 64-bit word that holds it.
pub data SetTimerError : Type 0 where
  not_supported : SetTimerError
  denied : SetTimerError
  unexpected : ℕ → SetTimerError

pub data TimerError : Type 0 where
  already_initialized : TimerError
  not_initialized : TimerError
  counter_unavailable : TimerError
  invalid_interval : TimerError
  deadline_overflow : TimerError
  firmware : SetTimerError → TimerError

-- The static `INTERVAL` and `TICKS`, the enable bit in `sie`, and the deadlines for which the
-- firmware was called, the last first.
pub record Timer : Type 0 where
  pub interval : ℕ
  pub ticks : ℕ
  pub enabled : Bool
  pub deadlines : List ℕ

-- `sbi::set_timer` on the code that the firmware returns
abbrev pub set_timer : ℕ → Result (Unit {0}) SetTimerError
set_timer code =
    if code == 0
    then ok tt
    else if code == 2 ^ 64 - 2
    then err not_supported
    else if code == 2 ^ 64 - 4
    then err denied
    else err (unexpected code)

-- `div_ceil`
abbrev pub div_ceil : ℕ → ℕ → ℕ
div_ceil a b = if a % b == 0 then a / b else suc (a / b)

-- `checked_mul` on `u128`
abbrev pub checked_mul_128 : ℕ → ℕ → Option ℕ
checked_mul_128 a b = if ltb (a * b) (2 ^ 128) then some (a * b) else none

-- `interval_ticks`, with the period in nanoseconds
unfoldable pub interval_ticks : ℕ → ℕ → Result ℕ TimerError
interval_ticks timebase_hz nanos =
    ok_or (checked_mul_128 timebase_hz nanos) invalid_interval >>= λ scaled.
    let ticks = div_ceil scaled 1_000_000_000 in
    if ltb ticks (2 ^ 64)
    then if ticks == 0 then err invalid_interval else ok ticks
    else err invalid_interval

-- `next_deadline`, with what `time::ticks` returns
unfoldable pub next_deadline : Option ℕ → ℕ → Result ℕ TimerError
next_deadline counter interval =
    ok_or counter counter_unavailable >>= λ now. ok_or (checked_add now interval) deadline_overflow

-- The call of the firmware in `init` and `handle_interrupt`, with what is done on its success.
unfoldable pub program :
    (ℕ → ℕ) → Timer → ℕ → (Timer → Timer) → Result (Unit {0}) TimerError × Timer
program call t deadline done = elim (set_timer (call deadline)) [
  | err e ↦ (err (firmware e), record t { deadlines = deadline ∷ t.deadlines })
  | fault x ↦ (fault x, t)
  | ok _ ↦ (ok tt, done (record t { deadlines = deadline ∷ t.deadlines }))
]

-- What runs on a value of a computation that leaves the timer alone.
abbrev pub try_with :
    Result ℕ TimerError
    → Timer
    → (ℕ → Result (Unit {0}) TimerError × Timer)
    → Result (Unit {0}) TimerError × Timer
try_with (ok n) t next = next n
try_with (err e) t next = (err e, t)
try_with (fault x) t next = (fault x, t)

-- `init`, on a firmware that answers a deadline with a code, and a time counter
unfoldable pub init : (ℕ → ℕ) → Option ℕ → ℕ → ℕ → Timer → Result (Unit {0}) TimerError × Timer
unfolding program
init call counter timebase_hz nanos t =
    if t.interval == 0
    then try_with (interval_ticks timebase_hz nanos) t (λ interval.
      try_with (next_deadline counter interval) t (λ deadline.
        program call t deadline (λ t'. record t' { interval = interval; enabled = true })))
    else (err already_initialized, t)

-- `handle_interrupt`
unfoldable pub handle_interrupt : (ℕ → ℕ) → Option ℕ → Timer → Result (Unit {0}) TimerError × Timer
unfolding program
handle_interrupt call counter t =
    if t.interval == 0
    then (err not_initialized, t)
    else try_with (next_deadline counter t.interval) t
        (λ deadline. program call t deadline (λ t'. record t' { ticks = (t'.ticks + 1) % 2 ^ 64 }))
