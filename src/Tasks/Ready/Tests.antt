-- ===== src/Tasks/Ready/Tests.antt =====
-- A scheduler with one ready task of priority 0 and none of priority 1, the bound.
use freertos_in_rust.Prelude.{
  ℕ, zero, suc, ◌+◌, ◌*◌, ◌<◌, ◌≡◌, refl, ◌≢◌, false, List, [], ◌∷◌, arith, ok, panic,
}
use freertos_in_rust.Lists.{initialise, insert_end, get_owner_of_next_entry}
use freertos_in_rust.Tasks.Ready.{
  Kernel, add_task_to_ready_list, find_top, select_highest_priority_task,
}
use freertos_in_rust.Tasks.Ready.Selection.{Round, IsReady, Selected, select_lem}

abbrev list_of : ℕ → ℕ
list_of p = 1000 + 100 * p

abbrev empty_lists : Kernel
empty_lists = record {
  store = initialise 1000 (
      initialise 1100 (record {
        items =
            λ q. record { item_value = 0; next = 0; previous = 0; owner = q + 1; container = 0 };
        lists = λ q. record { number_of_items = 0; index = 0 };
      }));
  tcbs = λ t. record {
    priority = 0;
    base_priority = 0;
    mutexes_held = 0;
    state_list_item = t;
    event_list_item = 0;
  };
  top_ready_priority = 1;
  current_tcb = 0;
  delayed_task_list = 0;
  overflow_delayed_task_list = 0;
  tick_count = 0;
  next_task_unblock_time = 0;
  num_of_overflows = 0;
  scheduler_suspended = 0;
  pended_ticks = 0;
  yield_pending = false;
  current_number_of_tasks = 1;
}

abbrev one_task : Kernel
one_task = add_task_to_ready_list list_of 100 empty_lists

abbrev tasks_of : ℕ → List ℕ
tasks_of zero = 100 ∷ []
tasks_of (suc p) = []

selected_run :
    elim (select_highest_priority_task list_of one_task) [ ok s ↦ s.current_tcb | panic ↦ 0 ] ≡ 101
unfolding select_highest_priority_task find_top add_task_to_ready_list insert_end initialise
    get_owner_of_next_entry
selected_run = refl

one_task-rounds : (p : ℕ) → p < 2 → Round one_task.store (list_of p) (tasks_of p)
unfolding add_task_to_ready_list insert_end initialise
one_task-rounds zero l = record {
  list = record {
    ring = (refl, refl, (refl, refl));
    distinct = ((λ e. absurd (omega arith), tt), (tt, tt));
    marker = refl;
    held = (refl, omega arith, tt);
    count = refl;
    fits = omega arith;
  };
  ys = [];
  zs = 100 ∷ [];
  split = refl;
  at = refl;
}
one_task-rounds (suc zero) l = record {
  list = record {
    ring = (refl, refl);
    distinct = (tt, tt);
    marker = refl;
    held = tt;
    count = refl;
    fits = omega arith;
  };
  ys = [];
  zs = [];
  split = refl;
  at = refl;
}
one_task-rounds (suc (suc p)) l = absurd (omega arith)

one_task_above : (p : ℕ) → p < 2 → one_task.top_ready_priority < p → tasks_of p ≡ []
unfolding add_task_to_ready_list
one_task_above zero l h = absurd (omega arith)
one_task_above (suc p) l h = refl

top_one : one_task.top_ready_priority ≡ 1
unfolding add_task_to_ready_list
top_one = refl

one_task-IsReady : IsReady list_of 2 one_task tasks_of
one_task-IsReady = record {
  rounds = one_task-rounds;
  bounded = omega (arith, top_one);
  above = one_task_above;
}

apart : (a b : ℕ) → list_of a ≡ list_of b → a ≡ b
apart a b e = omega arith

some_task : tasks_of 0 ≢ []
some_task e = absurd (ground arith)

select_lem_example : Selected list_of 2 one_task tasks_of
select_lem_example =
    select_lem list_of 2 one_task tasks_of one_task-IsReady 0 (omega arith) some_task apart
