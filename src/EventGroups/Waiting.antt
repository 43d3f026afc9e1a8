-- ===== src/EventGroups/Waiting.antt =====
-- What a list item's value says of its task, and what a woken task reads from it.
use Prim.Native.Nat.{bit_and, bit_or}
use freertos_in_rust.Prelude.{
  ℕ, ◌<◌, ◌≡◌, refl, ap, inl, inr, Bool, true, false, not, arith, ◌==◌, Bool-cases, word_mod,
  test_bit, test_bit-and, test_bit-or, and_not, test_bit-and_not, eq_of_test_bit, bit_or-lt,
  test_bit-zero,
}
use freertos_in_rust.EventGroups.{
  unblocked_due_to_bit_set, wait_for_all_bits, event_bits_control_bytes, item_value_in_use,
  test_wait_condition, is_match, control_bits,
}

-- The reading of two words that are equal, bit by bit.
pub bit_of_eq : {a b : ℕ} (i : ℕ) → a ≡ b → test_bit a i ≡ test_bit b i
bit_of_eq i e = ap (λ x. test_bit x i) e

module _ {wanted control : ℕ} (w : bit_and wanted event_bits_control_bytes ≡ 0)
    (c : bit_and control event_bits_control_bytes ≡ control) (small_wanted : wanted < word_mod)
    (small_control : control < word_mod) where
  -- In `wanted | control` the control bits are those of `control` ...
  control-or : bit_and (bit_or wanted control) event_bits_control_bytes ≡ control
  control-or = eq_of_test_bit _ _ λ i. ground (
    arith,
    test_bit-and i (bit_or wanted control) event_bits_control_bytes,
    test_bit-or i wanted control,
    test_bit-and i wanted event_bits_control_bytes,
    test_bit-and i control event_bits_control_bytes,
    bit_of_eq i w,
    bit_of_eq i c,
    test_bit-zero i,
  )

  -- ... and the others are those of `wanted`.
  pub wanted-or : and_not (bit_or wanted control) event_bits_control_bytes ≡ wanted
  wanted-or = eq_of_test_bit _ _ λ i. ground (
    arith,
    test_bit-and_not i (bit_or wanted control) event_bits_control_bytes
        (bit_or-lt wanted control small_wanted small_control),
    test_bit-or i wanted control,
    test_bit-and i wanted event_bits_control_bytes,
    test_bit-and i control event_bits_control_bytes,
    bit_of_eq i w,
    bit_of_eq i c,
    test_bit-zero i,
  )

pub bit_and_comm : (a b : ℕ) → bit_and a b ≡ bit_and b a
bit_and_comm a b = eq_of_test_bit _ _ λ i. ground (arith, test_bit-and i a b, test_bit-and i b a)

pub bit_or_assoc : (a b c : ℕ) → bit_or (bit_or a b) c ≡ bit_or a (bit_or b c)
bit_or_assoc a b c = eq_of_test_bit _ _ λ i. ground (
  arith,
  test_bit-or i (bit_or a b) c,
  test_bit-or i a b,
  test_bit-or i a (bit_or b c),
  test_bit-or i b c,
)

-- The value that a blocking task puts into its list item.
abbrev pub item_value_for : ℕ → Bool → Bool → ℕ
item_value_for wanted clear all = bit_or (bit_or wanted (control_bits clear all)) item_value_in_use

module _ (current wanted : ℕ) (w : bit_and wanted event_bits_control_bytes ≡ 0)
    (small : wanted < word_mod) where
  -- an item value whose control bits are the numeral `control`
  is_match-or :
      (control : ℕ)
      → bit_and control event_bits_control_bytes ≡ control
      → control < word_mod
      → is_match current (bit_or wanted control)
        ≡ test_wait_condition current wanted (not (bit_and control wait_for_all_bits == 0))
  unfolding is_match test_wait_condition
  is_match-or control c s =
      rw (control-or w c small s, wanted-or w c small s, bit_and_comm wanted current) (ground arith)

  -- The loop of `xEventGroupSetBits` tests a waiter's item by the very condition that the waiter
  -- gave.
  pub is_match-item_value :
      (clear all : Bool)
      → is_match current (item_value_for wanted clear all) ≡ test_wait_condition current wanted all
  is_match-item_value true true =
      rw bit_or_assoc
        (is_match-or (bit_or (control_bits true true) item_value_in_use) refl (omega arith))
  is_match-item_value true false =
      rw bit_or_assoc
        (is_match-or (bit_or (control_bits true false) item_value_in_use) refl (omega arith))
  is_match-item_value false true =
      rw bit_or_assoc
        (is_match-or (bit_or (control_bits false true) item_value_in_use) refl (omega arith))
  is_match-item_value false false =
      rw bit_or_assoc
        (is_match-or (bit_or (control_bits false false) item_value_in_use) refl (omega arith))

-- the new item value of a task that is unblocked at `current`
abbrev pub unblocked_value : ℕ → ℕ
unblocked_value current = bit_or (bit_or current unblocked_due_to_bit_set) item_value_in_use

module _ (current : ℕ) (plain : bit_and current event_bits_control_bytes ≡ 0)
    (small : current < word_mod) where
  -- A woken task sees that it was woken, and by which bits.
  pub unblocked_bits : and_not (unblocked_value current) event_bits_control_bytes ≡ current
  unblocked_bits = rw bit_or_assoc (
      wanted-or {control = bit_or unblocked_due_to_bit_set item_value_in_use} plain refl small
        (omega arith))

  pub unblocked_flag : (bit_and (unblocked_value current) unblocked_due_to_bit_set == 0) ≡ false
  unblocked_flag =
      let flag : bit_and (unblocked_value current) unblocked_due_to_bit_set
          ≡ unblocked_due_to_bit_set =
        eq_of_test_bit _ _ λ i. ground (
          arith,
          test_bit-and i (unblocked_value current) unblocked_due_to_bit_set,
          test_bit-or i (bit_or current unblocked_due_to_bit_set) item_value_in_use,
          test_bit-or i current unblocked_due_to_bit_set,
        ) in
      rw flag

-- Fewer bits match no more waiters.
pub is_match-and_not :
    (current mask value : ℕ)
    → current < word_mod
    → is_match current value ≡ false
    → is_match (and_not current mask) value ≡ false
unfolding is_match
is_match-and_not current mask value small miss =
    let wanted = and_not value event_bits_control_bytes in
    let low = and_not current mask in
    elim (Bool-cases (bit_and (bit_and value event_bits_control_bytes) wait_for_all_bits == 0)) [
      | inl any ↦
          let nothing : bit_and wanted current ≡ 0 = ground arith in
          let less : bit_and wanted low ≡ 0 = eq_of_test_bit _ _ λ i. ground (
            arith,
            bit_of_eq i nothing,
            test_bit-zero i,
            test_bit-and i wanted current,
            test_bit-and i wanted low,
            test_bit-and_not i current mask small,
          ) in
          ground arith
      | inr all ↦ elim (Bool-cases (bit_and wanted low == wanted)) [
        | inr still ↦ ground arith
        | inl full ↦
            let held : bit_and wanted low ≡ wanted = ground arith in
            let more : bit_and wanted current ≡ wanted = eq_of_test_bit _ _ λ i. ground (
              arith,
              bit_of_eq i held,
              test_bit-and i wanted current,
              test_bit-and i wanted low,
              test_bit-and_not i current mask small,
            ) in
            absurd (ground arith)
      ]
    ]
