-- ===== src/Tasks/TimeOut/Tests.antt =====
-- A timed wait across the wrap of the tick counter.
use freertos_in_rust.Prelude.{ℕ, ◌+◌, ◌-◌, ◌^◌, ◌≡◌, refl, inl, true, false, arith}
use freertos_in_rust.Tasks.TimeOut.{Config, set_time_out_state, Checked, check_for_time_out}
use freertos_in_rust.Tasks.TimeOut.Correct.{clock_at, check_for_time_out_exact}

abbrev config : Config
config = record { task_suspend = true; abort_delay = true }

-- the wait begins three ticks before the counter wraps, and is checked ten ticks later
abbrev late : ℕ
late = 2 ^ 32 - 3

abbrev checked : Checked
checked =
    check_for_time_out config (clock_at (late + 10)) false (set_time_out_state (clock_at late)) 25

checked_value : checked ≡ record {
  timed_out = false;
  delay_aborted = false;
  time_out = record { overflow_count = 1; time_on_entering = 7 };
  ticks_to_wait = 15;
}
unfolding check_for_time_out set_time_out_state clock_at
checked_value = refl

check_for_time_out_exact_example :
    (checked.timed_out ≡ false)
    × (checked.ticks_to_wait ≡ 15)
    × (checked.time_out ≡ set_time_out_state (clock_at (late + 10)))
check_for_time_out_exact_example =
    check_for_time_out_exact config late 10 25 (omega arith) (inl (omega arith))
