-- ===== src/EventGroups/Keeps.antt =====
-- What setting and clearing bits and putting a task on the list do to the invariant of a group.
use Prim.Native.Nat.{bit_or, bit_xor}
use mathlib.Core.Path.{subst}
use freertos_in_rust.Prelude.{
  ℕ, ◌<◌, ◌≡◌, refl, sym, ◌∙◌, Bool, false, List, [], ◌∷◌, ◌++◌, arith, ok, word_mod, word_max,
  test_bit-and, test_bit-or, and_not, test_bit-and_not, eq_of_test_bit, bit_or-lt, bit_and-le,
  test_bit-zero,
}
use freertos_in_rust.EventGroups.{
  event_bits_control_bytes, Waiter, EventGroup, test_wait_condition, place, scan, set_bits,
  control_bits,
}
use freertos_in_rust.EventGroups.Waiting.{
  bit_of_eq, item_value_for, is_match-item_value, is_match-and_not,
}
use freertos_in_rust.EventGroups.Quiet.{matching, unmatching, scan_lists, Quiet, IsPlain}

matching-unmatching :
    (current : ℕ) (ws : List Waiter) → matching current (unmatching current ws) ≡ []
unfolding matching unmatching
matching-unmatching current [] = refl
matching-unmatching current (w ∷ ws) = ground (arith, matching-unmatching current ws)

matching-and_not :
    (current mask : ℕ) (ws : List Waiter)
    → current < word_mod
    → matching current ws ≡ []
    → matching (and_not current mask) ws ≡ []
unfolding matching
matching-and_not current mask [] small h = refl
matching-and_not current mask (w ∷ ws) small h = ground (
  arith,
  matching-and_not current mask ws small,
  is_match-and_not current mask w.item_value small,
)

pub matching-append :
    (current : ℕ) (ws vs : List Waiter)
    → matching current (ws ++ vs) ≡ matching current ws ++ matching current vs
unfolding matching
matching-append current [] vs = refl
matching-append current (w ∷ ws) vs = ground (arith, matching-append current ws vs)

pub append-eq-nil : (xs ys : List Waiter) → xs ++ ys ≡ [] → (xs ≡ []) × (ys ≡ [])
append-eq-nil [] ys h = (refl, h)
append-eq-nil (x ∷ xs) ys h = absurd (ground arith)

pub and_not-IsPlain : (bits mask : ℕ) → IsPlain bits → IsPlain (and_not bits mask)
and_not-IsPlain bits mask p = record {
  small = omega (arith, p.small, bit_and-le bits (bit_xor mask word_max));
  plain = eq_of_test_bit _ _ λ i. ground (
    arith,
    test_bit-and i (and_not bits mask) event_bits_control_bytes,
    test_bit-and_not i bits mask p.small,
    test_bit-and i bits event_bits_control_bytes,
    bit_of_eq i p.plain,
    test_bit-zero i,
  );
}

pub or-IsPlain : (a b : ℕ) → IsPlain a → IsPlain b → IsPlain (bit_or a b)
or-IsPlain a b p q = record {
  small = bit_or-lt a b p.small q.small;
  plain = eq_of_test_bit _ _ λ i. ground (
    arith,
    test_bit-and i (bit_or a b) event_bits_control_bytes,
    test_bit-or i a b,
    test_bit-and i a event_bits_control_bytes,
    test_bit-and i b event_bits_control_bytes,
    bit_of_eq i p.plain,
    bit_of_eq i q.plain,
    test_bit-zero i,
  );
}

pub Quiet-IsPlain : {g : EventGroup} → Quiet g → IsPlain g.event_bits
Quiet-IsPlain q = record { small = q.small; plain = q.plain }

-- Clearing bits wakes nobody.
pub and_not-Quiet :
    {g : EventGroup} (mask : ℕ)
    → Quiet g
    → Quiet (record g { event_bits = and_not g.event_bits mask })
and_not-Quiet {g} mask q =
    let p = and_not-IsPlain g.event_bits mask (Quiet-IsPlain q) in
    record {
      small = p.small;
      plain = p.plain;
      waits = matching-and_not g.event_bits mask g.tasks_waiting_for_bits q.small q.waits;
    }

-- After a set nobody is left waiting that should not, whatever stood before.
pub set_bits-Quiet :
    (g : EventGroup) {g' : EventGroup} (bits left : ℕ) (woken : List Waiter)
    → IsPlain g.event_bits
    → bits < word_mod
    → set_bits g bits ≡ ok (left, g', woken)
    → Quiet g'
unfolding set_bits
set_bits-Quiet g {g'} bits left woken p small e =
    let ws = g.tasks_waiting_for_bits in
    let current = bit_or g.event_bits bits in
    let mask = (scan current 0 ws).bits_to_clear in
    let q : IsPlain bits = record { small = small; plain = ground arith } in
    let plain = or-IsPlain g.event_bits bits p q in
    let low = and_not-IsPlain current mask plain in
    let same : g' ≡ record {
      event_bits = and_not current mask;
      tasks_waiting_for_bits = unmatching current ws;
    } =
      ground (arith, q.plain, scan_lists current 0 ws) in
    subst Quiet (sym same) (record {
      small = low.small;
      plain = low.plain;
      waits =
          matching-and_not current mask (unmatching current ws) plain.small
            (matching-unmatching current ws);
    })

-- A waiter whose condition does not hold can be put on the list.
pub place-Quiet :
    {g : EventGroup} (task wanted : ℕ) (clear all : Bool)
    → Quiet g
    → IsPlain wanted
    → test_wait_condition g.event_bits wanted all ≡ false
    → Quiet (place g task (bit_or wanted (control_bits clear all)))
unfolding place matching
place-Quiet {g} task wanted clear all q p miss = record {
  small = q.small;
  plain = q.plain;
  waits = ground (
    arith,
    matching-append g.event_bits g.tasks_waiting_for_bits
        (record { task = task; item_value = item_value_for wanted clear all } ∷ []),
    is_match-item_value g.event_bits wanted p.plain p.small clear all,
    q.waits,
  );
}

-- After a set the bits are some of the old and the new ones.
pub set_bits-bits :
    (g : EventGroup) {g' : EventGroup} (bits left : ℕ) (woken : List Waiter)
    → set_bits g bits ≡ ok (left, g', woken)
    → (mask : ℕ) × (g'.event_bits ≡ and_not (bit_or g.event_bits bits) mask)
unfolding set_bits
set_bits-bits g bits left woken e =
    ((scan (bit_or g.event_bits bits) 0 g.tasks_waiting_for_bits).bits_to_clear, ground arith)

-- Fewer bits meet no more conditions.
pub test_wait_condition-and_not :
    (current mask wanted : ℕ) (all : Bool)
    → current < word_mod
    → IsPlain wanted
    → test_wait_condition current wanted all ≡ false
    → test_wait_condition (and_not current mask) wanted all ≡ false
test_wait_condition-and_not current mask wanted all small p miss =
    let value = item_value_for wanted false all in
    sym (is_match-item_value (and_not current mask) wanted p.plain p.small false all)
    ∙ is_match-and_not current mask value small
        (is_match-item_value current wanted p.plain p.small false all ∙ miss)
