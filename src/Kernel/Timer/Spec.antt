-- ===== src/Kernel/Timer/Spec.antt =====
-- What the periodic timer promises: its interval, its deadlines, and what an error leaves.
use barebone_kernel.Base.{
  ℕ, ◌+◌, ◌*◌, ◌%◌, ◌-◌, ◌^◌, ◌≤◌, ◌<◌, ◌≡◌, ◌≢◌, ◌⊎◌, ◌↔◌, true, ◌∷◌, Option, none, some, Result,
  ok, err, fault,
}
use barebone_kernel.Kernel.Timer.{
  SetTimerError, not_supported, denied, unexpected, TimerError, already_initialized,
  not_initialized, counter_unavailable, invalid_interval, deadline_overflow, firmware, Timer,
}

-- The least number of ticks that lasts at least the period, in units of `1 / (timebase * 10 ^ 9)`.
pub record IsInterval (timebase_hz nanos ticks : ℕ) : Type 0 where
  pub lasts : timebase_hz * nanos ≤ ticks * 1_000_000_000
  pub least : ticks * 1_000_000_000 < timebase_hz * nanos + 1_000_000_000

abbrev pub IntervalSpec : ℕ → ℕ → Result ℕ TimerError → Type 0
IntervalSpec timebase_hz nanos (ok ticks) =
    IsInterval timebase_hz nanos ticks × (0 < ticks) × (ticks < 2 ^ 64)
IntervalSpec timebase_hz nanos (err invalid_interval) =
    (timebase_hz * nanos ≡ 0) ⊎ ((ticks : ℕ) → IsInterval timebase_hz nanos ticks → 2 ^ 64 ≤ ticks)
IntervalSpec timebase_hz nanos (err already_initialized) = ⊥
IntervalSpec timebase_hz nanos (err not_initialized) = ⊥
IntervalSpec timebase_hz nanos (err counter_unavailable) = ⊥
IntervalSpec timebase_hz nanos (err deadline_overflow) = ⊥
IntervalSpec timebase_hz nanos (err (firmware e)) = ⊥
IntervalSpec timebase_hz nanos (fault x) = ⊥

-- The interrupt source is enabled just where an interval is installed, and all are 64-bit values.
pub record IsTimer (t : Timer) : Type 0 where
  pub armed : (t.enabled ≡ true) ↔ (0 < t.interval)
  pub interval_small : t.interval < 2 ^ 64
  pub ticks_small : t.ticks < 2 ^ 64

-- The firmware answered the code with which it reports this error.
abbrev pub Refuses : ℕ → SetTimerError → Type 0
Refuses code not_supported = code ≡ 2 ^ 64 - 2
Refuses code denied = code ≡ 2 ^ 64 - 4
Refuses code (unexpected other) =
    (other ≡ code) × (code ≢ 0) × (code ≢ 2 ^ 64 - 2) × (code ≢ 2 ^ 64 - 4)

-- The firmware was called once, for the deadline one interval after the counter, and `P` holds of its
-- answer.
abbrev pub Asked :
    (ℕ → ℕ) → Option ℕ → (interval : ℕ) → (ℕ → Type 0) → (before after : Timer) → Type 0
Asked call counter interval P t t' =
    (now : ℕ) × (counter ≡ some now)
    × (now + interval < 2 ^ 64)
    × (t'.deadlines ≡ (now + interval) ∷ t.deadlines)
    × P (call (now + interval))

-- What `init` may return on the timer `t`.
abbrev pub Armed :
    (ℕ → ℕ) → Option ℕ → ℕ → ℕ → Timer → Result (Unit {0}) TimerError × Timer → Type 0
Armed call counter hz nanos t (ok _, t') =
    IsTimer t'
    × (t.interval ≡ 0)
    × IsInterval hz nanos t'.interval
    × (t'.enabled ≡ true)
    × (t'.ticks ≡ t.ticks)
    × Asked call counter t'.interval (λ code. code ≡ 0) t t'
Armed call counter hz nanos t (err already_initialized, t') = (0 < t.interval) × (t' ≡ t)
Armed call counter hz nanos t (err not_initialized, t') = ⊥
Armed call counter hz nanos t (err counter_unavailable, t') =
    (t.interval ≡ 0) × (counter ≡ none) × (t' ≡ t)
Armed call counter hz nanos t (err invalid_interval, t') =
    (t.interval ≡ 0) × IntervalSpec hz nanos (err invalid_interval) × (t' ≡ t)
Armed call counter hz nanos t (err deadline_overflow, t') =
    (t.interval ≡ 0)
    × (t' ≡ t)
    × ((now : ℕ) × (interval : ℕ) × (counter ≡ some now)
        × IsInterval hz nanos interval
        × (2 ^ 64 ≤ now + interval))
Armed call counter hz nanos t (err (firmware e), t') =
    IsTimer t'
    × (t'.interval ≡ 0)
    × (t'.enabled ≡ t.enabled)
    × (t'.ticks ≡ t.ticks)
    × ((interval : ℕ) × IsInterval hz nanos interval
        × Asked call counter interval (λ code. Refuses code e) t t')
Armed call counter hz nanos t (fault x, t') = ⊥

-- What `handle_interrupt` may return on the timer `t`.
abbrev pub Handled : (ℕ → ℕ) → Option ℕ → Timer → Result (Unit {0}) TimerError × Timer → Type 0
Handled call counter t (ok _, t') =
    IsTimer t'
    × (0 < t.interval)
    × (t'.interval ≡ t.interval)
    × (t'.enabled ≡ t.enabled)
    × (t'.ticks ≡ (t.ticks + 1) % 2 ^ 64)
    × Asked call counter t.interval (λ code. code ≡ 0) t t'
Handled call counter t (err already_initialized, t') = ⊥
Handled call counter t (err not_initialized, t') = (t.interval ≡ 0) × (t' ≡ t)
Handled call counter t (err counter_unavailable, t') =
    (0 < t.interval) × (counter ≡ none) × (t' ≡ t)
Handled call counter t (err invalid_interval, t') = ⊥
Handled call counter t (err deadline_overflow, t') =
    (0 < t.interval) × (t' ≡ t) × ((now : ℕ) × (counter ≡ some now) × (2 ^ 64 ≤ now + t.interval))
Handled call counter t (err (firmware e), t') =
    IsTimer t'
    × (0 < t.interval)
    × (t'.interval ≡ t.interval)
    × (t'.enabled ≡ t.enabled)
    × (t'.ticks ≡ t.ticks)
    × Asked call counter t.interval (λ code. Refuses code e) t t'
Handled call counter t (fault x, t') = ⊥
