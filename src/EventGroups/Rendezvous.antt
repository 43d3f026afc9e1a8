-- ===== src/EventGroups/Rendezvous.antt =====
-- Two tasks that meet in `xEventGroupSync`.
use Prim.Native.Nat.{bit_and, bit_or, bit_xor}
use freertos_in_rust.Prelude.{
  ℕ, ◌<◌, ◌≡◌, refl, ap, ◌∙◌, true, false, not, ◌&&◌, List, [], ◌∷◌, arith, ok, word_mod, word_max,
  test_bit, test_bit-or, and_not, test_bit-and_not, eq_of_test_bit, bit_or-lt, bit_and-le,
  test_bit-zero,
}
use freertos_in_rust.EventGroups.{
  clear_events_on_exit_bit, wait_for_all_bits, event_bits_control_bytes, item_value_in_use, Waiter,
  EventGroup, test_wait_condition, is_match, place, scan, set_bits, returns, blocks, control_bits,
  sync, sync_resume,
}
use freertos_in_rust.EventGroups.Waiting.{
  bit_of_eq, wanted-or, bit_or_assoc, item_value_for, is_match-item_value, unblocked_value,
  unblocked_bits, unblocked_flag,
}
use freertos_in_rust.EventGroups.Quiet.{tagged, asks_to_clear, Quiet, IsPlain, set_bits_lem}
use freertos_in_rust.EventGroups.Keeps.{or-IsPlain, Quiet-IsPlain, set_bits-bits}
use freertos_in_rust.EventGroups.Wakeups.{lists_of_one}

and_not-zero : (x : ℕ) → x < word_mod → and_not x 0 ≡ x
and_not-zero x h = eq_of_test_bit _ _ λ i. ground (arith, test_bit-and_not i x 0 h, test_bit-zero i)

-- Setting bits for which nobody waits.
set_alone :
    (e bits : ℕ)
    → e < word_mod
    → IsPlain bits
    → set_bits (record { event_bits = e; tasks_waiting_for_bits = [] }) bits
      ≡ ok (bit_or e bits, record { event_bits = bit_or e bits; tasks_waiting_for_bits = [] }, [])
unfolding set_bits scan
set_alone e bits h p =
    ground (arith, p.plain, and_not-zero (bit_or e bits) (bit_or-lt e bits h p.small))

abbrev pub syncing : ℕ → ℕ → Waiter
syncing task wanted = record { task = task; item_value = item_value_for wanted true true }

module _ (wanted current : ℕ) (w : IsPlain wanted) (c : IsPlain current) where
  item-wanted :
      (task : ℕ) → and_not (syncing task wanted).item_value event_bits_control_bytes ≡ wanted
  item-wanted task = rw bit_or_assoc (
      wanted-or {control = bit_or (control_bits true true) item_value_in_use} w.plain refl w.small
        (omega arith))

  resume-met :
      (later : EventGroup) → sync_resume later wanted (unblocked_value current) ≡ (current, later)
  unfolding sync_resume
  resume-met later =
      ground (arith, unblocked_flag current c.plain c.small, unblocked_bits current c.plain c.small)

  -- Clearing what a woken waiter wanted, and then the same again.
  cleared_twice :
      (task left : ℕ)
      → is_match current (syncing task wanted).item_value ≡ true
      → ((i : ℕ)
          → test_bit left i
            ≡ (test_bit current i && not (asks_to_clear i current (syncing task wanted ∷ []))))
      → left < word_mod
      → and_not left wanted ≡ and_not current wanted
  unfolding asks_to_clear
  cleared_twice task left met bitwise small = eq_of_test_bit _ _ λ i. ground (
    arith,
    test_bit-and_not i left wanted small,
    test_bit-and_not i current wanted c.small,
    bitwise i,
    bit_of_eq i (item-wanted task),
  )

-- A task that blocks in `xEventGroupSync` on a group without waiters wakes nobody. If a second task
-- then syncs for the same bits and its own complete them, it does not block, whatever its time, and
-- unblocks the first: both return with the same bits, those that were set with what the two tasks
-- added, and the bits waited for are cleared.
pub sync-meets :
    (g h : EventGroup) (a b a_bits b_bits wanted ticks ticks' : ℕ) (woken : List Waiter)
    → Quiet g
    → g.tasks_waiting_for_bits ≡ []
    → IsPlain a_bits
    → IsPlain b_bits
    → wanted < word_mod
    → sync false a g a_bits wanted ticks ≡ ok (blocks h, woken)
    → bit_and (bit_or (bit_or g.event_bits a_bits) b_bits) wanted ≡ wanted
    → let current = bit_or (bit_or g.event_bits a_bits) b_bits in
      (woken ≡ [])
      × (sync false b h b_bits wanted ticks'
          ≡ ok (
            returns current
                (record { event_bits = and_not current wanted; tasks_waiting_for_bits = [] }),
            tagged current (syncing a wanted) ∷ [],
          ))
      × ((later : EventGroup)
          → sync_resume later wanted (unblocked_value current) ≡ (current, later))
unfolding sync place test_wait_condition
sync-meets g h a b a_bits b_bits wanted ticks ticks' woken q alone pa pb small e complete =
    let first = bit_or g.event_bits a_bits in
    let current = bit_or first b_bits in
    let same : g ≡ record { event_bits = g.event_bits; tasks_waiting_for_bits = [] } =
      ground arith in
    let set₁ = ap (λ x. set_bits x a_bits) same ∙ set_alone g.event_bits a_bits q.small pa in
    let w : IsPlain wanted = record { small = small; plain = ground arith } in
    let pf = or-IsPlain g.event_bits a_bits (Quiet-IsPlain q) pa in
    let pc = or-IsPlain first b_bits pf pb in
    let placed : h ≡ record { event_bits = first; tasks_waiting_for_bits = syncing a wanted ∷ [] } =
      ground (arith, bit_or_assoc wanted clear_events_on_exit_bit wait_for_all_bits) in
    let both : EventGroup = record {
      event_bits = first;
      tasks_waiting_for_bits = syncing a wanted ∷ [];
    } in
    let (left, set₂, bitwise) = set_bits_lem both b_bits pf.small pb in
    let all : test_wait_condition current wanted true ≡ true = ground arith in
    let met = is_match-item_value current wanted w.plain small true true ∙ all in
    let set₃ = set₂ ∙ lists_of_one current left (syncing a wanted) met in
    let (mask, low) = set_bits-bits both b_bits left _ set₃ in
    let low_small : left < word_mod =
      omega (arith, low, pc.small, bit_and-le current (bit_xor mask word_max)) in
    let cleared =
      cleared_twice wanted current w pc a left met
        (λ i. ground (arith, bitwise i, test_bit-or i first b_bits)) low_small in
    let second = ap (λ x. set_bits x b_bits) placed ∙ set₃ in
    (ground arith, ground (arith, pb.plain), resume-met wanted current w pc)
