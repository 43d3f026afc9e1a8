-- ===== src/EventGroups/Wakeups.antt =====
-- What a task that waited for bits returns with.
use Prim.Native.Nat.{bit_and, bit_or}
use mathlib.Core.List.{map}
use freertos_in_rust.Prelude.{
  ℕ, ◌<◌, ◌≡◌, refl, ap, ◌∙◌, Bool, true, false, List, [], ◌∷◌, ◌++◌, arith, if◌then◌else◌, set,
  Outcome, ok, word_mod,
}
use freertos_in_rust.EventGroups.{
  event_bits_control_bytes, Waiter, EventGroup, test_wait_condition, is_match, place, set_bits,
  blocks, wait_bits, wait_bits_resume,
}
use freertos_in_rust.EventGroups.Waiting.{
  item_value_for, is_match-item_value, unblocked_value, unblocked_bits, unblocked_flag,
}
use freertos_in_rust.EventGroups.Quiet.{matching, unmatching, tagged, Quiet, IsPlain, set_bits_lem}
use freertos_in_rust.EventGroups.Keeps.{or-IsPlain, Quiet-IsPlain}

-- A woken task returns the bits that its item carries.
resume_unblocked :
    (g : EventGroup) (wanted : ℕ) (clear all : Bool) (current : ℕ)
    → IsPlain current
    → wait_bits_resume g wanted clear all (unblocked_value current) ≡ (current, g)
unfolding wait_bits_resume
resume_unblocked g wanted clear all current p =
    ground (arith, unblocked_flag current p.plain p.small, unblocked_bits current p.plain p.small)

-- the two lists that a scan of one waiter gives
pub lists_of_one :
    (current left : ℕ) (w : Waiter) {met : Bool}
    → is_match current w.item_value ≡ met
    → ◌≡◌ {A = Outcome (ℕ × EventGroup × List Waiter)}
        (ok (
          left,
          record { event_bits = left; tasks_waiting_for_bits = unmatching current (w ∷ []) },
          map (tagged current) (matching current (w ∷ [])),
        ))
        (ok (
          left,
          record { event_bits = left; tasks_waiting_for_bits = if met then [] else w ∷ [] },
          if met then tagged current w ∷ [] else [],
        ))
unfolding matching unmatching
lists_of_one current left w e = ground arith

matching-last :
    (current : ℕ) (ws : List Waiter) (w : Waiter) {met : Bool}
    → is_match current w.item_value ≡ met
    → matching current (ws ++ w ∷ []) ≡ matching current ws ++ (if met then w ∷ [] else [])
unfolding matching
matching-last current [] w e = ground arith
matching-last current (v ∷ ws) w e = ground (arith, matching-last current ws w e)

unmatching-last :
    (current : ℕ) (ws : List Waiter) (w : Waiter) {met : Bool}
    → is_match current w.item_value ≡ met
    → unmatching current (ws ++ w ∷ []) ≡ unmatching current ws ++ (if met then [] else w ∷ [])
unfolding unmatching
unmatching-last current [] w e = ground arith
unmatching-last current (v ∷ ws) w e = ground (arith, unmatching-last current ws w e)

tagged-last :
    (current : ℕ) (ws : List Waiter) (w : Waiter) (met : Bool)
    → map (tagged current) (ws ++ (if met then w ∷ [] else []))
      ≡ map (tagged current) ws ++ (if met then tagged current w ∷ [] else [])
tagged-last current [] w true = refl
tagged-last current [] w false = refl
tagged-last current (v ∷ ws) w met = ap (λ r. tagged current v ∷ r) (tagged-last current ws w met)

-- A task that blocks in `xEventGroupWaitBits`, in a quiet group (its bits are no control bits, and no task
-- waits whose condition they meet) and behind any tasks that wait there, is unblocked by the next
-- `xEventGroupSetBits`, of bits that are no control bits, exactly if the bits before it, with those set, meet
-- its condition; the other tasks are unblocked or not as if it were not there. It then returns with just
-- these bits, also if they have been cleared meanwhile, and leaves the group alone; otherwise it stays
-- last on the list.
pub wait_then_set :
    (g h : EventGroup) (task wanted : ℕ) (clear all : Bool) (ticks bits : ℕ)
    → Quiet g
    → wanted < word_mod
    → bits < word_mod
    → bit_and bits event_bits_control_bytes ≡ 0
    → wait_bits false task g wanted clear all ticks ≡ ok (blocks h)
    → let current = bit_or g.event_bits bits in
      let met = test_wait_condition current wanted all in
      let waiter : Waiter = record { task = task; item_value = item_value_for wanted clear all } in
      let others = g.tasks_waiting_for_bits in
      (left : ℕ) × (set_bits h bits
        ≡ ok (
          left,
          record {
            event_bits = left;
            tasks_waiting_for_bits = unmatching current others ++ (if met then [] else waiter ∷ []);
          },
          map (tagged current) (matching current others)
              ++ (if met then tagged current waiter ∷ [] else []),
        ))
      × ((later : EventGroup)
          → wait_bits_resume later wanted clear all (unblocked_value current) ≡ (current, later))
unfolding wait_bits place
wait_then_set g h task wanted clear all ticks bits q small sb pb e =
    let current = bit_or g.event_bits bits in
    let others = g.tasks_waiting_for_bits in
    let met : Bool = test_wait_condition current wanted all in
    let waiter : Waiter = record { task = task; item_value = item_value_for wanted clear all } in
    let p : IsPlain bits = record { small = sb; plain = pb } in
    let w : bit_and wanted event_bits_control_bytes ≡ 0 = ground arith in
    let placed : h
        ≡ record { event_bits = g.event_bits; tasks_waiting_for_bits = others ++ waiter ∷ [] } =
      ground arith in
    let meets = is_match-item_value current wanted w small clear all in
    let (left, set, bitwise) =
      set_bits_lem
        (record { event_bits = g.event_bits; tasks_waiting_for_bits = others ++ waiter ∷ [] }) bits
        q.small p in
    let plain = or-IsPlain g.event_bits bits (Quiet-IsPlain q) p in
    let answer : List Waiter → List Waiter → Outcome (ℕ × EventGroup × List Waiter) =
      λ kept unblocked.
        ok (left, record { event_bits = left; tasks_waiting_for_bits = kept }, unblocked) in
    (
      left,
      ap (λ x. set_bits x bits) placed
          ∙ set
          ∙ ap (λ ws. answer ws (map (tagged current) (matching current (others ++ waiter ∷ []))))
              (unmatching-last current others waiter meets)
          ∙ ap (answer (unmatching current others ++ (if met then [] else waiter ∷ []))) (
              ap (map (tagged current)) (matching-last current others waiter meets)
              ∙ tagged-last current (matching current others) waiter met),
      λ later. resume_unblocked later wanted clear all current plain,
    )
