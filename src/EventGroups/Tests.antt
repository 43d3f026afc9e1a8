-- ===== src/EventGroups/Tests.antt =====
-- The theorems on event groups at concrete groups, and runs of the calls.
use mathlib.Core.List.{map}
use freertos_in_rust.Prelude.{
  ℕ, ◌≡◌, refl, true, false, not, ◌&&◌, ◌||◌, List, [], ◌∷◌, ◌++◌, arith, ok, test_bit,
}
use freertos_in_rust.EventGroups.{
  Waiter, EventGroup, test_wait_condition, is_match, place, add_bits_to_clear, scan, set_bits,
  returns, wait_bits, wait_bits_resume, sync, sync_resume,
}
use freertos_in_rust.EventGroups.Waiting.{item_value_for, unblocked_value}
use freertos_in_rust.EventGroups.Quiet.{
  matching, unmatching, tagged, asks_to_clear, Quiet, IsPlain, set_bits_lem,
}
use freertos_in_rust.EventGroups.Steps.{sets, wait_blocks, here, next, Reach-Quiet}
use freertos_in_rust.EventGroups.Wakeups.{wait_then_set}
use freertos_in_rust.EventGroups.Rendezvous.{syncing, sync-meets}

abbrev new : EventGroup
new = record { event_bits = 0; tasks_waiting_for_bits = [] }

-- Task 1 waits for both of the bits 0 and 1 and clears them, task 2 waits for bit 2.
abbrev two_waiters : EventGroup
two_waiters = record {
  event_bits = 1;
  tasks_waiting_for_bits =
      record { task = 1; item_value = item_value_for 3 true true }
      ∷ record { task = 2; item_value = item_value_for 4 false false }
      ∷ [];
}

two_waiters-Quiet : Quiet two_waiters
unfolding matching is_match
two_waiters-Quiet = record { small = omega arith; plain = refl; waits = refl }

set_second :
    set_bits two_waiters 2
    ≡ ok (
      0,
      record {
        event_bits = 0;
        tasks_waiting_for_bits =
            record { task = 2; item_value = item_value_for 4 false false } ∷ [];
      },
      record { task = 1; item_value = 0x8200_0003 } ∷ [],
    )
unfolding set_bits scan is_match add_bits_to_clear
set_second = refl

two-IsPlain : IsPlain 2
two-IsPlain = record { small = omega arith; plain = refl }

set_bits_lem_example :
    (left : ℕ) × (set_bits two_waiters 2
      ≡ ok (
        left,
        record {
          event_bits = left;
          tasks_waiting_for_bits = unmatching 3 two_waiters.tasks_waiting_for_bits;
        },
        map (tagged 3) (matching 3 two_waiters.tasks_waiting_for_bits),
      ))
    × ((i : ℕ)
        → test_bit left i ≡ (
            (test_bit 1 i || test_bit 2 i)
            && not (asks_to_clear i 3 two_waiters.tasks_waiting_for_bits)))
set_bits_lem_example = set_bits_lem two_waiters 2 (omega arith) two-IsPlain

abbrev three_set : EventGroup
three_set = record new { event_bits = 3 }

abbrev one_waits : EventGroup
one_waits = record three_set {
  tasks_waiting_for_bits = record { task = 7; item_value = item_value_for 12 true true } ∷ [];
}

Reach-Quiet_example : Quiet one_waits
unfolding set_bits scan wait_bits place test_wait_condition
Reach-Quiet_example = Reach-Quiet (
    next (next here (sets {g' = three_set} 3 3 [] (omega arith) refl))
      (wait_blocks {g' = one_waits} false 7 12 true true 5 (omega arith) refl))

-- A second task waits behind it.
abbrev two_wait : EventGroup
two_wait = record three_set {
  tasks_waiting_for_bits =
      record { task = 7; item_value = item_value_for 12 true true }
      ∷ record { task = 8; item_value = item_value_for 16 false false }
      ∷ [];
}

wait_then_set_example :
    (left : ℕ) × (set_bits two_wait 16
      ≡ ok (
        left,
        record {
          event_bits = left;
          tasks_waiting_for_bits =
              unmatching 19 (record { task = 7; item_value = item_value_for 12 true true } ∷ [])
              ++ [];
        },
        map
              (tagged 19)
              (matching 19 (record { task = 7; item_value = item_value_for 12 true true } ∷ []))
            ++ record { task = 8; item_value = unblocked_value 19 } ∷ [],
      ))
    × ((later : EventGroup)
        → wait_bits_resume later 16 false false (unblocked_value 19) ≡ (19, later))
unfolding matching wait_bits place test_wait_condition is_match
wait_then_set_example =
    wait_then_set one_waits two_wait 8 16 false false 5 16
      (record { small = omega arith; plain = refl; waits = refl }) (omega arith) (omega arith) refl
      refl

-- Task 1 has set bit 0 and waits for bit 1 as well.
abbrev one_syncs : EventGroup
one_syncs = record { event_bits = 1; tasks_waiting_for_bits = syncing 1 3 ∷ [] }

sync-meets_example :
    (◌≡◌ {A = List Waiter} [] [])
    × (sync false 2 one_syncs 2 3 0
        ≡ ok (
          returns 3 (record { event_bits = 0; tasks_waiting_for_bits = [] }),
          record { task = 1; item_value = unblocked_value 3 } ∷ [],
        ))
    × ((later : EventGroup) → sync_resume later 3 (unblocked_value 3) ≡ (3, later))
unfolding matching sync set_bits scan place
sync-meets_example =
    sync-meets new one_syncs 1 2 1 2 3 5 0 []
      (record { small = omega arith; plain = refl; waits = refl }) refl
      (record { small = omega arith; plain = refl }) two-IsPlain (omega arith) refl refl
