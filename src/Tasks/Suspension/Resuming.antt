-- ===== src/Tasks/Suspension/Resuming.antt =====
-- The ticks that came while the scheduler was suspended are not lost.
use freertos_in_rust.Prelude.{
  ℕ, zero, suc, ◌-◌, ◌<◌, ◌≡◌, refl, ap, ◌∙◌, ◌≢◌, Bool, ◌||◌, some, List, arith, ok,
}
use freertos_in_rust.Tasks.Ready.{Kernel}
use freertos_in_rust.Tasks.Delays.{Places, increment_tick}
use freertos_in_rust.Tasks.Delays.Tidy.{Setting}
use freertos_in_rust.Tasks.Delays.Clock.{IsKernel}
use freertos_in_rust.Tasks.Delays.Ticks.{increment_tick_lem}
use freertos_in_rust.Tasks.Suspension.{move_pending, run_pended, resume_all}
use freertos_in_rust.Tasks.Suspension.Elapsed.{Elapsed, Elapsed-none, Elapsed-suc}

-- the invariant does not read the suspension, the pended ticks and the yields
pub IsKernel-with :
    (a : Setting) (k : Kernel) (c : ℕ → List ℕ) (suspended pended : ℕ) (yields : Bool)
    → IsKernel a k c
    → IsKernel a
        (record k {
          scheduler_suspended = suspended;
          pended_ticks = pended;
          yield_pending = yields;
        })
        c
IsKernel-with a k c suspended pended yields h = record {
  scheduled = record {
    setting = h.scheduled.setting;
    tidy = h.scheduled.tidy;
    current = h.scheduled.current;
    tick = h.scheduled.tick;
    reach = h.scheduled.reach;
    next = h.scheduled.next;
  };
  later = h.later;
}

run_none : (ready : ℕ → ℕ) (k : Kernel) → k.pended_ticks ≡ 0 → run_pended ready 0 k ≡ ok (some k)
unfolding run_pended
run_none ready k e = ground arith

run_one :
    (ready : ℕ → ℕ) (n : ℕ) (k k' : Kernel) (switch : Bool)
    → k.pended_ticks ≢ 0
    → increment_tick ready k ≡ ok (some (k', switch))
    → run_pended ready (suc n) k
      ≡ run_pended ready n (record k' {
        yield_pending = switch || k'.yield_pending;
        pended_ticks = k'.pended_ticks - 1;
      })
unfolding run_pended
run_one ready n k k' switch e run = ground arith

pub run_pended_lem :
    (a : Setting) (n : ℕ) (k : Kernel) (c : ℕ → List ℕ)
    → IsKernel a k c
    → k.scheduler_suspended ≡ 0
    → k.pended_ticks ≡ n
    → (k' : Kernel) × (run_pended a.ready n k ≡ ok (some k'))
      × (k'.pended_ticks ≡ 0)
      × (k'.scheduler_suspended ≡ 0)
      × Elapsed a k n k'
run_pended_lem a zero k c h s e = (k, run_none a.ready k e, e, s, Elapsed-none a k k c refl h)
run_pended_lem a (suc n) k c h s e =
    let q = increment_tick_lem a k c h s in
    let k1 : Kernel = record q.k' {
      yield_pending = q.switch || q.k'.yield_pending;
      pended_ticks = q.k'.pended_ticks - 1;
    } in
    let left : q.k'.pended_ticks - 1 ≡ n = let p = q.pended in omega arith in
    let (k', run, none_left, running, w) =
      run_pended_lem a n k1 q.lists
        (IsKernel-with a q.k' q.lists q.k'.scheduler_suspended (q.k'.pended_ticks - 1)
          (q.switch || q.k'.yield_pending) q.kernel)
        (q.suspended ∙ s) left in
    (
      k',
      run_one a.ready n k q.k' q.switch (λ z. absurd (omega arith)) q.run ∙ run,
      none_left,
      running,
      Elapsed-suc a k k1 k' c n q h refl w,
    )

pending_none :
    (places : Places) (n : ℕ) (k : Kernel) (moved : Bool)
    → (k.store.lists places.pending_ready).number_of_items ≡ 0
    → move_pending places (suc n) k moved ≡ some (k, moved)
unfolding move_pending
pending_none places n k moved e = ground arith

resume_last :
    (places : Places) (k k' : Kernel)
    → k.scheduler_suspended ≡ 1
    → 0 < k.current_number_of_tasks
    → (k.store.lists places.pending_ready).number_of_items ≡ 0
    → run_pended places.ready k.pended_ticks (record k { scheduler_suspended = 0 }) ≡ ok (some k')
    → resume_all places k ≡ ok (some (k', k'.yield_pending))
unfolding resume_all move_pending
resume_last places k k' e l none_pending run = ground arith

-- `xTaskResumeAll`, of the outermost suspension, with some task created and none in the pending ready list: it ends, no
-- assertion fails, and it catches up on the ticks that came in the meantime. The tasks that had no more time
-- to sleep than those are ready, the other sleepers have that many ticks less to sleep, and those that were
-- ready still are. No tick is left pended, the invariant is kept, and the call has yielded if one is pending.
pub resume_all_lem :
    (a : Setting) (places : Places) (k : Kernel) (c : ℕ → List ℕ)
    → IsKernel a k c
    → places.ready ≡ a.ready
    → k.scheduler_suspended ≡ 1
    → 0 < k.current_number_of_tasks
    → (k.store.lists places.pending_ready).number_of_items ≡ 0
    → (k' : Kernel) × (resume_all places k ≡ ok (some (k', k'.yield_pending)))
      × (k'.scheduler_suspended ≡ 0)
      × (k'.pended_ticks ≡ 0)
      × Elapsed a k k.pended_ticks k'
resume_all_lem a places k c h same e l none_pending =
    let k0 : Kernel = record k { scheduler_suspended = 0 } in
    let (k', run, none_left, running, w) =
      run_pended_lem a k.pended_ticks k0 c (IsKernel-with a k c 0 k.pended_ticks k.yield_pending h)
        refl refl in
    (
      k',
      resume_last places k k' e l none_pending
          (ap (λ r. run_pended r k.pended_ticks k0) same ∙ run),
      running,
      none_left,
      record {
        lists = w.lists;
        kernel = w.kernel;
        count = w.count;
        current = w.current;
        wakes = w.wakes;
        waits = w.waits;
        awake = w.awake;
      },
    )
