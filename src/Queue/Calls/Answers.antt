-- ===== src/Queue/Calls/Answers.antt =====
-- One call from an interrupt against a bounded double-ended queue of items.
use freertos_in_rust.Prelude.{
  ℕ, ◌-◌, ◌≤◌, ◌≡◌, refl, ap, ◌∙◌, inl, inr, Bool, true, false, not, ◌&&◌, ◌||◌, none, some, List,
  [], ◌∷◌, ◌++◌, arith, ltb, ◌==◌, if◌then◌else◌, Bool-cases, length, Outcome, ok, panic,
}
use mathlib.Core.Path.{subst}
use freertos_in_rust.Queue.{
  Scheduler, int8_max, Position, send_to_back, send_to_front, overwrite, Queue, copy_behind,
  copy_in_front, copy_item, copy_data_to_queue, copy_data_from_queue,
}
use freertos_in_rust.Queue.Items.{Holds, messages-length}
use freertos_in_rust.Queue.Items.Copies.{
  copy_behind-Holds, copy_in_front-Holds, overwrite-Holds, copy_from-oldest,
}
use freertos_in_rust.Queue.Calls.{
  is_overwrite, generic_send_from_isr, receive_from_isr, peek_from_isr,
}
use freertos_in_rust.Queue.Calls.Signals.{signal_receivers-Holds, signal_senders-Holds}

-- The specification: a double-ended queue of at most `capacity` items. An
-- overwritten item replaces all that there is.
unfoldable pub send_item : ℕ → List (List ℕ) → List ℕ → Position → Bool × List (List ℕ)
send_item capacity items item overwrite = (true, item ∷ [])
send_item capacity items item send_to_back =
    if ltb (length items) capacity then (true, items ++ (item ∷ [])) else (false, items)
send_item capacity items item send_to_front =
    if ltb (length items) capacity then (true, item ∷ items) else (false, items)

-- How a call answers: with a value and some wake-up, and with a queue that holds the items.
abbrev pub Answers : {A : Type 0} → Queue → A × List (List ℕ) → Outcome (A × Queue × Bool) → Type 0
Answers q (a, items) r =
    (q' : Queue) × (woken : Bool) × (r ≡ ok (a, q', woken))
    × Holds q' items
    × (q'.len ≡ q.len)
    × (q'.item_size ≡ q.item_size)

module _ (sched : Scheduler) (few : sched.number_of_tasks ≤ int8_max) {q : Queue} where
  copied :
      {items : List (List ℕ)} (item : List ℕ) (position : Position)
      → Holds q items
      → (copy_data_to_queue sched q item position).1 ≡ copy_item q item position
  unfolding copy_data_to_queue
  copied item position h = ground (arith, h.sized)

  -- A send with room, or over the one item that there may be.
  signal_copied :
      (item : List ℕ) (position : Position) {items items' : List (List ℕ)}
      → Holds q items
      → Holds (copy_item q item position) items'
      → ((copy_item q item position).len ≡ q.len)
      → ((copy_item q item position).item_size ≡ q.item_size)
      → (ltb q.messages_waiting q.len || is_overwrite position) ≡ true
      → (is_overwrite position && not (q.len == 1)) ≡ false
      → Answers q (true, items') (generic_send_from_isr sched q item position)
  unfolding generic_send_from_isr
  signal_copied item position h h' l s room one =
      let (q', woken, e, held, l', s') =
        signal_receivers-Holds sched few (copy_item q item position) h' in
      (q', woken, ground (arith, copied item position h), held, l' ∙ l, s' ∙ s)

  pub send-Answers :
      (item : List ℕ) (position : Position) {items : List (List ℕ)}
      → Holds q items
      → length item ≡ q.item_size
      → (is_overwrite position && not (q.len == 1)) ≡ false
      → Answers q
          (send_item q.len items item position)
          (generic_send_from_isr sched q item position)
  unfolding send_item copy_item generic_send_from_isr copy_in_front copy_behind
  send-Answers item overwrite h l one =
      let single : q.len ≡ 1 = ground arith in
      signal_copied item overwrite h (overwrite-Holds h item l single) refl refl (ground arith) one
  send-Answers item send_to_back {items} h l one = elim (Bool-cases (ltb (length items) q.len)) [
    | inl free ↦
        subst (λ r. Answers q r (generic_send_from_isr sched q item send_to_back)) (ground arith)
          (signal_copied item send_to_back h (copy_behind-Holds h item l (ground arith)) refl refl
            (ground (arith, messages-length h)) one)
    | inr full ↦ (q, false, ground (arith, messages-length h), ground arith, refl, refl)
  ]
  send-Answers item send_to_front {items} h l one = elim (Bool-cases (ltb (length items) q.len)) [
    | inl free ↦
        subst (λ r. Answers q r (generic_send_from_isr sched q item send_to_front)) (ground arith)
          (signal_copied item send_to_front h (copy_in_front-Holds h item l (ground arith)) refl
            refl (ground (arith, messages-length h)) one)
    | inr full ↦ (q, false, ground (arith, messages-length h), ground arith, refl, refl)
  ]

module _ (sched : Scheduler) (few : sched.number_of_tasks ≤ int8_max) {q : Queue} where
  pub receive-nothing : Holds q [] → receive_from_isr sched q ≡ ok (none, q, false)
  unfolding receive_from_isr
  receive-nothing h = ground (arith, messages-length h)

  pub peek-nothing : Holds q [] → peek_from_isr q ≡ ok (none, q)
  unfolding peek_from_isr
  peek-nothing h = ground (arith, messages-length h, h.sized)

  module _ {item : List ℕ} {items : List (List ℕ)} (h : Holds q (item ∷ items)) where
    pub receive-oldest : Answers q (some item, items) (receive_from_isr sched q)
    unfolding receive_from_isr copy_data_from_queue
    receive-oldest =
        let (r, e, held, same) = copy_from-oldest h in
        let (q', woken, e', held', l, s) =
          signal_senders-Holds sched few (record r { messages_waiting = q.messages_waiting - 1 })
            held in
        (
          q',
          woken,
          ground (arith, messages-length h),
          held',
          l ∙ ap (λ x. x.len) same,
          s ∙ ap (λ x. x.item_size) same,
        )

    pub peek-oldest : peek_from_isr q ≡ ok (some item, q)
    unfolding peek_from_isr
    peek-oldest =
        let (r, e, held, same) = copy_from-oldest h in ground (arith, messages-length h, h.sized)

-- A queue of several items is not overwritten.
pub send-refused :
    (sched : Scheduler) (q : Queue) (item : List ℕ) (position : Position)
    → (is_overwrite position && not (q.len == 1)) ≡ true
    → generic_send_from_isr sched q item position ≡ panic
unfolding generic_send_from_isr
send-refused sched q item position bad = ground arith
