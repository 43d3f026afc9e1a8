-- ===== src/Tasks/TimeOut.antt =====
-- kernel/tasks.rs: the tick count and the state of a timed wait (`TimeOut_t`, `vTaskSetTimeOutState`,
-- `xTaskCheckForTimeOut`), in the configuration with 32-bit ticks.
pub mod Correct
mod Tests
use freertos_in_rust.Prelude.{
  ℕ, ◌-◌, Bool, true, false, not, ◌&&◌, ltb, leb, ◌==◌, if◌then◌else◌, word_max, sub_word,
}

-- `TickType_t` has 32 bits.
abbrev pub port_max_delay : ℕ
port_max_delay = word_max

-- the features that the code asks for
pub record Config : Type 0 where
  pub task_suspend : Bool
  pub abort_delay : Bool

-- `xTickCount` and `xNumOfOverflows`
pub record Clock : Type 0 where
  pub tick_count : ℕ
  pub num_of_overflows : ℕ

-- `TimeOut_t`
pub record TimeOut : Type 0 where
  pub overflow_count : ℕ
  pub time_on_entering : ℕ

-- `vTaskSetTimeOutState` and `vTaskInternalSetTimeOutState`
unfoldable pub set_time_out_state : Clock → TimeOut
set_time_out_state c = record {
  overflow_count = c.num_of_overflows;
  time_on_entering = c.tick_count;
}

-- The result of `xTaskCheckForTimeOut`, with what it leaves in `ucDelayAborted` of the current task,
-- `*pxTimeOut` and `*pxTicksToWait`.
pub record Checked : Type 0 where
  pub timed_out : Bool
  pub delay_aborted : Bool
  pub time_out : TimeOut
  pub ticks_to_wait : ℕ

unfoldable pub check_for_time_out : Config → Clock → Bool → TimeOut → ℕ → Checked
unfolding set_time_out_state
check_for_time_out cfg c aborted t ticks =
    let elapsed = sub_word c.tick_count t.time_on_entering in
    if cfg.abort_delay && aborted
    then record { timed_out = true; delay_aborted = false; time_out = t; ticks_to_wait = ticks }
    else if cfg.task_suspend && (ticks == port_max_delay)
    then record { timed_out = false; delay_aborted = aborted; time_out = t; ticks_to_wait = ticks }
    else if not (c.num_of_overflows == t.overflow_count) && leb t.time_on_entering c.tick_count
    then record { timed_out = true; delay_aborted = aborted; time_out = t; ticks_to_wait = 0 }
    else if ltb elapsed ticks
    then record {
      timed_out = false;
      delay_aborted = aborted;
      time_out = set_time_out_state c;
      ticks_to_wait = ticks - elapsed;
    }
    else record { timed_out = true; delay_aborted = aborted; time_out = t; ticks_to_wait = 0 }
