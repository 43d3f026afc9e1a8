-- ===== src/Tasks/TimeOut/Correct.antt =====
-- `xTaskCheckForTimeOut` against the time that has really passed.
use freertos_in_rust.Prelude.{
  ℕ, ◌+◌, ◌-◌, ◌*◌, ◌/◌, ◌%◌, ◌≤◌, ◌<◌, ◌≡◌, ◌⊎◌, false, arith, leb, if◌then◌else◌, word_mod,
  word_max,
}
use freertos_in_rust.Tasks.TimeOut.{
  port_max_delay, Config, Clock, set_time_out_state, check_for_time_out,
}

-- The clock at `t` ticks from the start of the scheduler: both counters wrap.
unfoldable pub clock_at : ℕ → Clock
clock_at t = record { tick_count = t % word_mod; num_of_overflows = t / word_mod % word_mod }

-- After a wait that began `elapsed` ticks ago, with the delay not aborted and not indefinite,
-- `xTaskCheckForTimeOut` reports a timeout exactly if the wait has used up its ticks. It leaves the
-- ticks that remain, and restarts the wait now if there are any. It holds if less than one round of
-- the tick counter has passed, or up to the wrap of the overflow counter where the tick count is
-- not behind that at the start.
pub check_for_time_out_exact :
    (cfg : Config) (start elapsed ticks : ℕ)
    → ticks < port_max_delay
    → (elapsed < word_mod)
      ⊎ ((start % word_mod ≤ (start + elapsed) % word_mod) × (elapsed < word_mod * word_max))
    → let r =
        check_for_time_out cfg
          (clock_at (start + elapsed))
          false
          (set_time_out_state (clock_at start))
          ticks in
      (r.timed_out ≡ leb ticks elapsed)
      × (r.ticks_to_wait ≡ ticks - elapsed)
      × (r.time_out
          ≡ set_time_out_state (clock_at (if leb ticks elapsed then start else start + elapsed)))
unfolding check_for_time_out set_time_out_state clock_at
check_for_time_out_exact cfg start elapsed ticks h k = ground arith
