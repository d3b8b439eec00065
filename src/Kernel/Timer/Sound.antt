-- ===== src/Kernel/Timer/Sound.antt =====
-- The timer's operations keep what the specification promises.
use barebone_kernel.Base.{
  ℕ, ◌+◌, ◌*◌, ◌%◌, ◌-◌, ◌^◌, ◌≤◌, ◌<◌, ◌≡◌, ◌⊎◌, inl, inr, refl, arith, true, Bool-cases, Option,
  none, some, ◌==◌, ltb, Result, ok, err, fault,
}
use barebone_kernel.Kernel.Timer.{
  SetTimerError, not_supported, denied, unexpected, TimerError, already_initialized,
  not_initialized, counter_unavailable, invalid_interval, deadline_overflow, firmware, Timer,
  set_timer, div_ceil, interval_ticks, next_deadline, program, try_with, init, handle_interrupt,
}
use barebone_kernel.Kernel.Timer.Spec.{IsInterval, IntervalSpec, IsTimer, Refuses, Armed, Handled}

div_ceil-IsInterval : (hz nanos : ℕ) → IsInterval hz nanos (div_ceil (hz * nanos) 1_000_000_000)
div_ceil-IsInterval hz nanos = elim (Bool-cases (hz * nanos % 1_000_000_000 == 0)) [
  | inl even ↦ rw even (record { lasts = ground arith; least = ground arith })
  | inr odd ↦ rw odd (record { lasts = ground arith; least = ground arith })
]

least_above :
    (hz nanos a b : ℕ) → IsInterval hz nanos a → IsInterval hz nanos b → 2 ^ 64 ≤ a → 2 ^ 64 ≤ b
least_above hz nanos a b h k big = omega (arith, h.least, k.lasts, big)

empty_period : (hz nanos a : ℕ) → IsInterval hz nanos a → a ≡ 0 → hz * nanos ≡ 0
empty_period hz nanos a h none_left = omega (arith, h.lasts, none_left)

-- `interval_ticks` returns the least number of ticks that lasts the period, not zero and of 64 bits;
-- it fails only for an empty period or where that number has more bits.
pub interval_ticks-IntervalSpec :
    (timebase_hz nanos : ℕ) → IntervalSpec timebase_hz nanos (interval_ticks timebase_hz nanos)
unfolding interval_ticks
interval_ticks-IntervalSpec hz nanos =
    let d = div_ceil-IsInterval hz nanos in
    elim (Bool-cases (ltb (hz * nanos) (2 ^ 128))) [
      | inr big ↦ rw big (inr (λ ticks i. ground (arith, i.lasts)))
      | inl fits ↦ elim (Bool-cases (ltb (div_ceil (hz * nanos) 1_000_000_000) (2 ^ 64))) [
        | inr long ↦
            rw (fits, long)
              (inr (λ ticks i.
                least_above hz nanos (div_ceil (hz * nanos) 1_000_000_000) ticks d i
                  (ground arith)))
        | inl short ↦ elim (Bool-cases (div_ceil (hz * nanos) 1_000_000_000 == 0)) [
          | inl none_left ↦
              rw (fits, short, none_left)
                (inl (empty_period hz nanos (div_ceil (hz * nanos) 1_000_000_000) d (ground arith)))
          | inr some_left ↦ rw (fits, short, some_left) (d, ground arith, ground arith)
        ]
      ]
    ]

-- The firmware accepts by the code zero alone, and each other code is reported as it is.
set_timer-cases :
    (code : ℕ)
    → ((code ≡ 0) × (set_timer code ≡ ok tt))
      ⊎ ((e : SetTimerError) × Refuses code e × (set_timer code ≡ err e))
set_timer-cases code = elim (Bool-cases (code == 0)) [
  | inl fine ↦ inl (ground arith, rw fine refl)
  | inr bad ↦ elim (Bool-cases (code == 2 ^ 64 - 2)) [
    | inl e ↦ inr (not_supported, ground arith, rw (bad, e) refl)
    | inr f ↦ elim (Bool-cases (code == 2 ^ 64 - 4)) [
      | inl e ↦ inr (denied, ground arith, rw (bad, f, e) refl)
      | inr g ↦ inr (
        unexpected code,
        (refl, λ z. ground arith, λ z. ground arith, λ z. ground arith),
        rw (bad, f, g) refl,
      )
    ]
  ]
]

next_deadline-cases :
    (counter : Option ℕ) (interval : ℕ)
    → ((counter ≡ none) × (next_deadline counter interval ≡ err counter_unavailable))
      ⊎ ((now : ℕ) × (counter ≡ some now)
          × (2 ^ 64 ≤ now + interval)
          × (next_deadline counter interval ≡ err deadline_overflow))
      ⊎ ((now : ℕ) × (counter ≡ some now)
          × (now + interval < 2 ^ 64)
          × (next_deadline counter interval ≡ ok (now + interval)))
unfolding next_deadline
next_deadline-cases none interval = inl (refl, refl)
next_deadline-cases (some now) interval = elim (Bool-cases (ltb (now + interval) (2 ^ 64))) [
  | inl fits ↦ inr (inr (now, refl, ground arith, rw fits refl))
  | inr big ↦ inr (inl (now, refl, ground arith, rw big refl))
]

-- `handle_interrupt` on a valid timer leaves a valid one. On success, where an interval is installed, the
-- firmware was asked for the deadline one interval after the counter and answered zero, and the ticks
-- grew by one, modulo `2 ^ 64`. An error leaves interval, ticks and enable bit, and is true: no interval
-- is installed, the counter is not there, the deadline has more than 64 bits, or the firmware was asked
-- for it and answered the code that the error reports.
pub handle_interrupt-Handled :
    (call : ℕ → ℕ) (counter : Option ℕ) (t : Timer)
    → IsTimer t
    → Handled call counter t (handle_interrupt call counter t)
unfolding handle_interrupt program
handle_interrupt-Handled call counter t v = elim (Bool-cases (t.interval == 0)) [
  | inl idle ↦ rw idle (ground arith, refl)
  | inr running ↦ elim (next_deadline-cases counter t.interval) [
    | inl (e, f) ↦ rw (running, f) (ground arith, e, refl)
    | inr (inl (now, e, big, f)) ↦ rw (running, f) (ground arith, refl, (now, e, big))
    | inr (inr (now, e, fits, f)) ↦ elim (set_timer-cases (call (now + t.interval))) [
      | inl (zero_code, done) ↦
          rw (running, f, program, done)
            (
              record {
                armed = v.armed;
                interval_small = v.interval_small;
                ticks_small = omega arith;
              },
              ground arith,
              refl,
              refl,
              refl,
              (now, e, fits, refl, zero_code),
            )
      | inr (x, refuses, failed) ↦
          rw (running, f, program, failed)
            (
              record {
                armed = v.armed;
                interval_small = v.interval_small;
                ticks_small = v.ticks_small;
              },
              ground arith,
              refl,
              refl,
              refl,
              (now, e, fits, refl, refuses),
            )
    ]
  ]
]

-- `init` on a valid timer leaves a valid one. On success, where no interval was installed, it installs
-- the interval that the period needs and enables the source; the firmware was asked for the deadline one
-- interval after the counter and answered zero. A second call changes nothing, and a failed first call
-- installs no interval and leaves the enable bit; its error is true: the period has no interval, the
-- counter is not there, the deadline has more than 64 bits, or the firmware was asked for it and
-- answered the code that the error reports.
pub init-Armed :
    (call : ℕ → ℕ) (counter : Option ℕ) (timebase_hz nanos : ℕ) (t : Timer)
    → IsTimer t
    → Armed call counter timebase_hz nanos t (init call counter timebase_hz nanos t)
unfolding init program
init-Armed call counter hz nanos t v = elim (Bool-cases (t.interval == 0)) [
  | inr running ↦ rw running (ground arith, refl)
  | inl idle ↦
      rw idle (
        by_interval (interval_ticks hz nanos) (interval_ticks-IntervalSpec hz nanos) (ground arith))
]
  where
    with_deadline :
        (interval : ℕ)
        → IsInterval hz nanos interval
        → 0 < interval
        → interval < 2 ^ 64
        → t.interval ≡ 0
        → Armed call counter hz nanos t (
            try_with (next_deadline counter interval) t (λ deadline.
              program call t deadline (λ t'. record t' { interval = interval; enabled = true })))
    with_deadline interval is positive small none_yet =
        elim (next_deadline-cases counter interval) [
          | inl (e, f) ↦ rw f (none_yet, e, refl)
          | inr (inl (now, e, big, f)) ↦ rw f (none_yet, refl, (now, interval, e, is, big))
          | inr (inr (now, e, fits, f)) ↦ elim (set_timer-cases (call (now + interval))) [
            | inl (zero_code, done) ↦
                rw (f, program, done)
                  (
                    record {
                      armed = ((λ on. positive), λ some_interval. refl);
                      interval_small = small;
                      ticks_small = v.ticks_small;
                    },
                    none_yet,
                    is,
                    refl,
                    refl,
                    (now, e, fits, refl, zero_code),
                  )
            | inr (x, refuses, failed) ↦
                rw (f, program, failed)
                  (
                    record {
                      armed = v.armed;
                      interval_small = v.interval_small;
                      ticks_small = v.ticks_small;
                    },
                    none_yet,
                    refl,
                    refl,
                    (interval, is, (now, e, fits, refl, refuses)),
                  )
          ]
        ]

    by_interval :
        (r : Result ℕ TimerError)
        → IntervalSpec hz nanos r
        → t.interval ≡ 0
        → Armed call counter hz nanos t (
            try_with r t (λ interval. try_with (next_deadline counter interval) t (λ deadline.
              program call t deadline (λ t'. record t' { interval = interval; enabled = true }))))
    by_interval (ok interval) s none_yet = with_deadline interval s.0 s.1 s.2 none_yet
    by_interval (err invalid_interval) s none_yet = (none_yet, s, refl)
    by_interval (err already_initialized) s none_yet = absurd s
    by_interval (err not_initialized) s none_yet = s
    by_interval (err counter_unavailable) s none_yet = absurd s
    by_interval (err deadline_overflow) s none_yet = absurd s
    by_interval (err (firmware e)) s none_yet = absurd s
    by_interval (fault x) s none_yet = s
