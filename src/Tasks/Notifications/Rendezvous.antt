-- ===== src/Tasks/Notifications/Rendezvous.antt =====
-- A task that waits for a notification and the task or interrupt that sends it, in either order.
use freertos_in_rust.Prelude.{
  ℕ, zero, suc, ◌<◌, ◌≡◌, refl, ap, true, false, List, [], ◌∷◌, arith, length, set, length-set,
  get_or-set, ok, and_not,
}
use freertos_in_rust.Tasks.Notifications.{
  not_waiting_notification, waiting_notification, notification_received, NotifyAction, no_action,
  set_value_bits, increment, set_value_with_overwrite, set_value_without_overwrite, Slot, no_slot,
  slot_at, is_received, is_waiting, act, Notified, generic_notify, generic_notify_wait,
  generic_notify_wait_resume,
}

set-set : {A : Type 0} (xs : List A) (i : ℕ) (x y : A) → set (set xs i x) i y ≡ set xs i y
set-set [] i x y = refl
set-set (z ∷ zs) zero x y = refl
set-set (z ∷ zs) (suc i) x y = ap (λ r. z ∷ r) (set-set zs i x y)

slot_at-set :
    (slots : List Slot) (i : ℕ) (s : Slot) → i < length slots → slot_at (set slots i s) i ≡ s
slot_at-set slots i s h = ground (arith, get_or-set slots i i s no_slot h)

-- Every action passes on a task that waits.
waiting_passes :
    (action : NotifyAction) (v value : ℕ)
    → (act action v (record { value = value; state = waiting_notification })).0 ≡ true
unfolding act
waiting_passes no_action v value = refl
waiting_passes set_value_bits v value = refl
waiting_passes increment v value = refl
waiting_passes set_value_with_overwrite v value = refl
waiting_passes set_value_without_overwrite v value = refl

module _ (slots : List Slot) (index clear_on_entry clear_on_exit ticks v : ℕ)
    (action : NotifyAction) (inside : index < length slots) where
  -- A task that finds no notification and may wait goes to sleep. The next notification passes and
  -- unblocks it, whatever its action is. The task then returns with a notification and with the
  -- value that the action makes of the one left by the bits cleared on entry; the bits to clear on
  -- exit are cleared in its slot, and nothing else changes in the array.
  pub notify-wakes :
      0 < ticks
      → is_received (slot_at slots index).state ≡ false
      → let asleep : Slot = record {
        value = and_not (slot_at slots index).value clear_on_entry;
        state = waiting_notification;
      } in
        let value = (act action v asleep).1 in
        (blocked : List Slot) × (notified : Notified) × (generic_notify_wait slots index
            clear_on_entry ticks
          ≡ ok (true, blocked))
        × (generic_notify blocked index v action ≡ ok notified)
        × (notified.passed ≡ true)
        × (notified.unblocks ≡ true)
        × (generic_notify_wait_resume notified.slots index clear_on_exit ≡ (
          true,
          value,
          set slots index
              (record { value = and_not value clear_on_exit; state = not_waiting_notification }),
        ))
  unfolding generic_notify_wait generic_notify generic_notify_wait_resume
  notify-wakes t none_pending =
      let asleep : Slot = record {
        value = and_not (slot_at slots index).value clear_on_entry;
        state = waiting_notification;
      } in
      let value = (act action v asleep).1 in
      let blocked = set slots index asleep in
      let woken : Slot = record { value = value; state = notification_received } in
      let left : Slot = record {
        value = and_not value clear_on_exit;
        state = not_waiting_notification;
      } in
      let notified : Notified = record {
        passed = true;
        previous = asleep.value;
        unblocks = true;
        slots = set blocked index woken;
      } in
      let l = length-set slots index asleep in
      let inside' : index < length blocked = omega arith in
      let passes : (act action v asleep).0 ≡ true = waiting_passes action v asleep.value in
      (
        blocked,
        notified,
        ground arith,
        ground (arith, slot_at-set slots index asleep inside),
        refl,
        refl,
        ground (
          arith,
          slot_at-set blocked index woken inside',
          set-set blocked index woken left,
          set-set slots index asleep left,
        ),
      )

  -- A notification that comes before the wait is not lost: the task does not block, for whatever
  -- time it would wait, and returns with the value that the action made of the old one, without
  -- clearing the bits to clear on entry.
  pub notify-pends :
      let value = (act action v (slot_at slots index)).1 in
      (notified : Notified) × (generic_notify slots index v action ≡ ok notified)
      × (generic_notify_wait notified.slots index clear_on_entry ticks ≡ ok (false, notified.slots))
      × (generic_notify_wait_resume notified.slots index clear_on_exit ≡ (
        true,
        value,
        set slots index
            (record { value = and_not value clear_on_exit; state = not_waiting_notification }),
      ))
  unfolding generic_notify_wait generic_notify generic_notify_wait_resume
  notify-pends =
      let value = (act action v (slot_at slots index)).1 in
      let s : Slot = record { value = value; state = notification_received } in
      (
        record {
          passed = (act action v (slot_at slots index)).0;
          previous = (slot_at slots index).value;
          unblocks = is_waiting (slot_at slots index).state;
          slots = set slots index s;
        },
        ground arith,
        ground (arith, length-set slots index s, slot_at-set slots index s inside),
        ground (
          arith,
          slot_at-set slots index s inside,
          set-set slots index s
              (record { value = and_not value clear_on_exit; state = not_waiting_notification }),
        ),
      )
