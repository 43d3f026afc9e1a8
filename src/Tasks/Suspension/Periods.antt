-- ===== src/Tasks/Suspension/Periods.antt =====
-- `xTaskDelayUntil` keeps a period, wherever the tick count overflows.
use mathlib.Core.Path.{subst}
use freertos_in_rust.Prelude.{
  ℕ, ◌+◌, ◌-◌, ◌%◌, ◌≤◌, ◌<◌, ◌≡◌, sym, ap, ◌∙◌, inl, inr, Bool, true, false, some, List, arith,
  ltb, Bool-cases, length, ok, word_mod, add_word, sub_word,
}
use freertos_in_rust.Tasks.Ready.{Kernel}
use freertos_in_rust.Tasks.Delays.{Places, add_current_task_to_delayed_list}
use freertos_in_rust.Tasks.Delays.Tidy.{Setting}
use freertos_in_rust.Tasks.Delays.Sleeping.{add_current_task_to_delayed_list_lem}
use freertos_in_rust.Tasks.Suspension.{suspend_all, resume_all, should_delay, delay_until}
use freertos_in_rust.Tasks.Suspension.Elapsed.{Elapsed}
use freertos_in_rust.Tasks.Suspension.Resuming.{IsKernel-with, resume_all_lem}
use freertos_in_rust.Tasks.Suspension.Delaying.{IsRunning, Delayed, sleep-resume}

-- the test of the time to wake, `late` ticks after the last one
should_delay_lem :
    (p late increment : ℕ)
    → p < word_mod
    → late < word_mod
    → increment < word_mod
    → should_delay ((p + late) % word_mod) p ((p + increment) % word_mod) ≡ ltb late increment
should_delay_lem p late increment l1 l2 l3 = ground arith

until_now :
    (places : Places) (suspension : Bool) (previous increment : ℕ) (k k' : Kernel) (yields : Bool)
    → 0 < increment
    → k.scheduler_suspended ≡ 0
    → should_delay k.tick_count previous (add_word previous increment) ≡ false
    → resume_all places (suspend_all k) ≡ ok (some (k', yields))
    → delay_until places suspension previous increment k
      ≡ (add_word previous increment, false, ok (some k'))
unfolding delay_until
until_now places suspension previous increment k k' yields l e test run = ground arith

until_later :
    (places : Places) (suspension : Bool) (previous increment : ℕ) (k k1 k' : Kernel)
    (yields : Bool)
    → 0 < increment
    → k.scheduler_suspended ≡ 0
    → should_delay k.tick_count previous (add_word previous increment) ≡ true
    → add_current_task_to_delayed_list places suspension
        (sub_word (add_word previous increment) k.tick_count)
        false
        (suspend_all k)
      ≡ some k1
    → resume_all places k1 ≡ ok (some (k', yields))
    → delay_until places suspension previous increment k
      ≡ (add_word previous increment, true, ok (some k'))
unfolding delay_until
until_later places suspension previous increment k k1 k' yields l e test add run = ground arith

-- `xTaskDelayUntil` in a running scheduler with no pended tick and an empty pending ready list, called `late`
-- ticks, less than 2^32, after the time of the last wake, for a period of 1 to 2^32 - 1 ticks: it answers the
-- time of the next one, and that the task is delayed exactly when this is still to come. Then the task
-- sleeps for the ticks that are left until that time, and otherwise it does not sleep and each sleeper has
-- the ticks to sleep that it had. The call ends, no assertion fails, and the invariant is kept.
pub delay_until_lem :
    (a : Setting) (places : Places) (suspension : Bool) (previous late increment : ℕ) (k : Kernel)
    (c : ℕ → List ℕ)
    → IsRunning a places k c
    → previous < word_mod
    → late < word_mod
    → 0 < increment
    → increment < word_mod
    → k.tick_count ≡ (previous + late) % word_mod
    → (k' : Kernel) × (delay_until places suspension previous increment k
        ≡ ((previous + increment) % word_mod, ltb late increment, ok (some k')))
      × (late < increment → Delayed a k (increment - late) k')
      × (increment ≤ late → (k'.scheduler_suspended ≡ 0) × Elapsed a k 0 k')
delay_until_lem a places suspension previous late increment k c h l1 l2 l3 l4 now =
    let test : should_delay k.tick_count previous (add_word previous increment)
        ≡ ltb late increment =
      ap (λ n. should_delay n previous (add_word previous increment)) now
      ∙ should_delay_lem previous late increment l1 l2 l4 in
    let up : add_word k.scheduler_suspended 1 ≡ 1 = ap (λ v. add_word v 1) h.suspended in
    let k0 =
      IsKernel-with a k c (add_word k.scheduler_suspended 1) k.pended_ticks k.yield_pending
        h.kernel in
    elim (Bool-cases (ltb late increment)) [
      | inl sooner ↦
          let few : late < increment = ground arith in
          let left : sub_word (add_word previous increment) k.tick_count ≡ increment - late =
            omega arith in
          let some_time : 0 < increment - late = omega arith in
          let slept =
            add_current_task_to_delayed_list_lem a (suspend_all k) c (increment - late) k0 h.running
              some_time (omega arith) places suspension false (ground arith) in
          let (k', resumed, d) =
            sleep-resume a places k c (increment - late)
              (add_current_task_to_delayed_list places suspension (increment - late) false
                (suspend_all k))
              h some_time slept in
          (
            k',
            until_later places suspension previous increment k slept.k' k' k'.yield_pending l3
                  h.suspended (test ∙ sooner)
                  (ap
                      (λ v.
                        add_current_task_to_delayed_list places suspension v false (suspend_all k))
                      left
                    ∙ slept.runs)
                  resumed
                ∙ ap (λ b. ((previous + increment) % word_mod, b, ok (some k'))) (sym sooner),
            (λ _. d),
            (λ many. absurd (omega arith)),
          )
      | inr past ↦
          let none_there =
            (h.kernel.scheduled.tidy.world.lists places.pending_ready h.pending_known).count
            ∙ ap length h.pending_none in
          let (k', resumed, running, _, e) =
            resume_all_lem a places (suspend_all k) c k0 h.ready up h.tasks none_there in
          let e : Elapsed a (suspend_all k) 0 k' =
            subst (λ n. Elapsed a (suspend_all k) n k') h.pended e in
          (
            k',
            until_now places suspension previous increment k k' k'.yield_pending l3 h.suspended
                  (test ∙ past) resumed
                ∙ ap (λ b. ((previous + increment) % word_mod, b, ok (some k'))) (sym past),
            (λ few. absurd (ground arith)),
            (λ _. (
              running,
              record {
                lists = e.lists;
                kernel = e.kernel;
                count = e.count;
                current = e.current;
                wakes = e.wakes;
                waits = e.waits;
                awake = e.awake;
              },
            )),
          )
    ]
