-- ===== src/Kernel/Timer/Examples.antt =====
-- A timer of ten milliseconds on a counter of ten megahertz, and the theorems there.
use barebone_kernel.Base.{◌≡◌, refl, arith, true, false, [], ◌∷◌, some, ok, err}
use barebone_kernel.Kernel.Timer.{
  Timer, firmware, denied, init, handle_interrupt, interval_ticks, next_deadline, program,
}
use barebone_kernel.Kernel.Timer.Spec.{IsTimer, IntervalSpec, Armed, Handled}
use barebone_kernel.Kernel.Timer.Sound.{
  init-Armed, handle_interrupt-Handled, interval_ticks-IntervalSpec,
}

abbrev fresh : Timer
fresh = record { interval = 0; ticks = 0; enabled = false; deadlines = [] }

abbrev armed : Timer
armed = record { interval = 100_000; ticks = 0; enabled = true; deadlines = 100_500 ∷ [] }

init_runs : init (λ deadline. 0) (some 500) 10_000_000 10_000_000 fresh ≡ (ok tt, armed)
unfolding init program interval_ticks next_deadline
init_runs = refl

denied_runs : handle_interrupt (λ deadline. 18446744073709551612) (some 100_600) armed ≡ (
  err (firmware denied),
  record { interval = 100_000; ticks = 0; enabled = true; deadlines = 200_600 ∷ 100_500 ∷ [] },
)
unfolding handle_interrupt program next_deadline
denied_runs = refl

fresh-IsTimer : IsTimer fresh
fresh-IsTimer = record {
  armed = ((λ on. absurd (cc)), λ positive. absurd (omega (arith, positive)));
  interval_small = omega arith;
  ticks_small = omega arith;
}

armed-IsTimer : IsTimer armed
armed-IsTimer = record {
  armed = ((λ on. omega arith), λ positive. refl);
  interval_small = omega arith;
  ticks_small = omega arith;
}

init-Armed_example :
    Armed
      (λ deadline. 0)
      (some 500)
      10_000_000
      10_000_000
      fresh
      (init (λ deadline. 0) (some 500) 10_000_000 10_000_000 fresh)
init-Armed_example = init-Armed (λ deadline. 0) (some 500) 10_000_000 10_000_000 fresh fresh-IsTimer

handle_interrupt-Handled_example :
    Handled
      (λ deadline. 0)
      (some 100_600)
      armed
      (handle_interrupt (λ deadline. 0) (some 100_600) armed)
handle_interrupt-Handled_example =
    handle_interrupt-Handled (λ deadline. 0) (some 100_600) armed armed-IsTimer

interval_ticks-IntervalSpec_example : IntervalSpec 32_768 1_000 (interval_ticks 32_768 1_000)
interval_ticks-IntervalSpec_example = interval_ticks-IntervalSpec 32_768 1_000
