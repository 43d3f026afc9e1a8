-- ===== src/Queue/Calls/Fifo.antt =====
-- Sequences of sends, receives and peeks from interrupts.
use freertos_in_rust.Prelude.{
  ℕ, ◌≤◌, ◌≡◌, refl, sym, inl, inr, Bool, not, ◌&&◌, Option, none, some, List, [], ◌∷◌, arith, ◌==◌,
  Bool-cases, length, Outcome, ok, ◌>>=◌, ◌>>◌, config_assert,
}
use mathlib.Core.Path.{subst}
use freertos_in_rust.Queue.{Scheduler, int8_max, Position, Queue}
use freertos_in_rust.Queue.Items.{Holds}
use freertos_in_rust.Queue.Calls.{
  is_overwrite, generic_send_from_isr, receive_from_isr, peek_from_isr,
}
use freertos_in_rust.Queue.Calls.Answers.{
  send_item, send-Answers, receive-nothing, peek-nothing, receive-oldest, peek-oldest, send-refused,
}

-- what interrupts do with a queue, and what they see
pub data Op : Type 0 where
  send : List ℕ → Position → Op
  receive : Op
  peek : Op

pub data Reply : Type 0 where
  sent : Bool → Reply
  received : Option (List ℕ) → Reply

unfoldable pub run : Scheduler → Queue → List Op → Outcome (List Reply)
run sched q [] = ok []
run sched q (send item position ∷ ops) = do
  (done, q', _) ← generic_send_from_isr sched q item position
  rest ← run sched q' ops
  ok (sent done ∷ rest)
run sched q (receive ∷ ops) = do
  (item, q', _) ← receive_from_isr sched q
  rest ← run sched q' ops
  ok (received item ∷ rest)
run sched q (peek ∷ ops) = do
  (item, q') ← peek_from_isr q
  rest ← run sched q' ops
  ok (received item ∷ rest)

-- The same over the items alone. Only a deque of capacity 1 may be overwritten.
unfoldable pub run_deque : ℕ → List (List ℕ) → List Op → Outcome (List Reply)
run_deque capacity items [] = ok []
run_deque capacity items (send item position ∷ ops) = do
  config_assert (not (is_overwrite position && not (capacity == 1)))
  let (done, items') = send_item capacity items item position
  rest ← run_deque capacity items' ops
  ok (sent done ∷ rest)
run_deque capacity [] (receive ∷ ops) = do
  rest ← run_deque capacity [] ops
  ok (received none ∷ rest)
run_deque capacity (item ∷ items) (receive ∷ ops) = do
  rest ← run_deque capacity items ops
  ok (received (some item) ∷ rest)
run_deque capacity [] (peek ∷ ops) = do rest ← run_deque capacity [] ops; ok (received none ∷ rest)
run_deque capacity (item ∷ items) (peek ∷ ops) = do
  rest ← run_deque capacity (item ∷ items) ops
  ok (received (some item) ∷ rest)

-- Every item sent has the queue's item size.
abbrev pub AllSized : ℕ → List Op → Type 0
AllSized size [] = Unit
AllSized size (send item position ∷ ops) = (length item ≡ size) × AllSized size ops
AllSized size (receive ∷ ops) = AllSized size ops
AllSized size (peek ∷ ops) = AllSized size ops

-- From a valid queue of items on, whatever items of its size are sent to the back or to the front,
-- overwritten, received and peeked at from interrupts, with at most `queueINT8_MAX` tasks, every
-- call answers as the bounded deque does, also where a queue that is not of length 1 is overwritten:
-- there both fail an assertion. No item is lost, changed, repeated or reordered, also across the end
-- of the storage, and whether the queue is locked or not.
pub run_refines_deque :
    (sched : Scheduler) (ops : List Op) {q : Queue} {items : List (List ℕ)}
    → sched.number_of_tasks ≤ int8_max
    → Holds q items
    → AllSized q.item_size ops
    → run sched q ops ≡ run_deque q.len items ops
unfolding run run_deque
run_refines_deque sched [] few h s = refl
run_refines_deque sched (send item position ∷ ops) {q = q} {items = items} few h s =
    elim (Bool-cases (is_overwrite position && not (q.len == 1))) [
      | inl bad ↦ ground (arith, send-refused sched q item position bad)
      | inr good ↦
          let (q', woken, e, held, l, size) = send-Answers sched few item position h s.0 good in
          let rest =
            run_refines_deque sched ops few held (subst (λ n. AllSized n ops) (sym size) s.1) in
          ground (arith)
    ]
run_refines_deque sched (receive ∷ ops) {items = []} few h s =
    let rest = run_refines_deque sched ops few h s in ground (arith, receive-nothing sched few h)
run_refines_deque sched (receive ∷ ops) {items = item ∷ items} few h s =
    let (q', woken, e, held, l, size) = receive-oldest sched few h in
    let rest = run_refines_deque sched ops few held (subst (λ n. AllSized n ops) (sym size) s) in
    ground (arith)
run_refines_deque sched (peek ∷ ops) {items = []} few h s =
    let rest = run_refines_deque sched ops few h s in ground (arith, peek-nothing sched few h)
run_refines_deque sched (peek ∷ ops) {items = item ∷ items} few h s =
    let rest = run_refines_deque sched ops few h s in ground (arith, peek-oldest sched few h)
