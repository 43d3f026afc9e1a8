-- ===== src/Tasks/Notifications/Tests.antt =====
-- The theorems on notifications at a concrete array, and a run.
use freertos_in_rust.Prelude.{ℕ, ◌+◌, ◌≡◌, refl, true, false, none, List, [], ◌∷◌, arith, set, ok}
use freertos_in_rust.Tasks.Notifications.{
  not_waiting_notification, notification_received, set_value_bits, set_value_with_overwrite, Slot,
  slot_at, act, Notified, generic_notify, generic_notify_wait, generic_notify_wait_resume,
  notify_take, notify_take_resume,
}
use freertos_in_rust.Tasks.Notifications.Rendezvous.{notify-wakes, notify-pends}
use freertos_in_rust.Tasks.Notifications.Semaphore.{
  Use, give, take_counts, go_on, Taker, use_slots, run, gives, run-conserves,
}

abbrev two_slots : List Slot
two_slots =
    record { value = 5; state = not_waiting_notification }
    ∷ record { value = 1; state = notification_received }
    ∷ []

notify-wakes_example :
    (blocked : List Slot) × (notified : Notified) × (generic_notify_wait two_slots 0 1 10
      ≡ ok (true, blocked))
    × (generic_notify blocked 0 2 set_value_bits ≡ ok notified)
    × (notified.passed ≡ true)
    × (notified.unblocks ≡ true)
    × (generic_notify_wait_resume notified.slots 0 4
        ≡ (true, 6, set two_slots 0 (record { value = 2; state = not_waiting_notification })))
unfolding act
notify-wakes_example =
    notify-wakes two_slots 0 1 4 10 2 set_value_bits (omega arith) (omega arith) refl

notify-pends_example :
    (notified : Notified) × (generic_notify two_slots 0 9 set_value_with_overwrite ≡ ok notified)
    × (generic_notify_wait notified.slots 0 1 10 ≡ ok (false, notified.slots))
    × (generic_notify_wait_resume notified.slots 0 8
        ≡ (true, 9, set two_slots 0 (record { value = 1; state = not_waiting_notification })))
unfolding act
notify-pends_example = notify-pends two_slots 0 1 8 10 9 set_value_with_overwrite (omega arith)

-- The second take with a count of 0 waits until it is given one, and the last one clears the count.
abbrev uses : List Use
uses =
    take_counts 1 false 0
    ∷ take_counts 1 false 10
    ∷ give 1
    ∷ give 0
    ∷ go_on
    ∷ give 1
    ∷ give 1
    ∷ take_counts 1 true 0
    ∷ give 1
    ∷ []

uses_value :
    run 1 (record { slots = two_slots; blocked = none }) uses
    ≡ ok (
      4,
      record {
        slots =
            record { value = 6; state = notification_received }
            ∷ record { value = 1; state = notification_received }
            ∷ [];
        blocked = none;
      },
    )
unfolding run use_slots generic_notify notify_take notify_take_resume act
uses_value = refl

run-conserves_example :
    (taken : ℕ) × (after : Taker) × (run 1 (record { slots = two_slots; blocked = none }) uses
      ≡ ok (taken, after))
    × (taken + (slot_at after.slots 1).value ≡ 5)
unfolding gives
run-conserves_example =
    run-conserves uses 1 two_slots (omega arith)
      (
        omega arith,
        (
          omega arith,
          (
            omega arith,
            (omega arith, (tt, (omega arith, (omega arith, (omega arith, (omega arith, tt)))))),
          ),
        ),
      )
      (omega arith)
