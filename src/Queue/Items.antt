-- ===== src/Queue/Items.antt =====
-- The items that a queue holds, oldest first.
pub mod Copies
use freertos_in_rust.Prelude.{
  ℕ, zero, suc, ◌+◌, ◌-◌, ◌*◌, ◌≤◌, ◌<◌, ◌≡◌, refl, ap, inl, inr, false, List, arith, leb, ◌==◌,
  if◌then◌else◌, Bool-cases, length,
}
use freertos_in_rust.Queue.{Queue, next_item, previous_item}
use freertos_in_rust.Queue.Storage.{wrap, ring}

-- A queue of items with at least a byte, in order: its pointers stand at slots, the slot that is
-- written next is the one behind the messages, and the messages are `items`.
pub record Holds (q : Queue) (items : List (List ℕ)) : Type 0 where
  pub no_mutex : q.head_is_null ≡ false
  pub sized : 0 < q.item_size
  pub room : 0 < q.len
  pub whole : length q.storage ≡ q.len * q.item_size
  pub end : q.tail ≡ q.len * q.item_size
  pub read_slot : ℕ
  pub read_in : read_slot < q.len
  pub reads : q.read_from ≡ read_slot * q.item_size
  pub bounded : q.messages_waiting ≤ q.len
  pub writes :
      q.write_to ≡ wrap q.len (wrap q.len (read_slot + 1) + q.messages_waiting) * q.item_size
  pub held :
      ring q.storage q.item_size q.len (wrap q.len (read_slot + 1)) q.messages_waiting ≡ items

pub add-one : (n : ℕ) → n + 1 ≡ suc n
add-one n = omega arith

length-ring : (storage : List ℕ) (size cap at n : ℕ) → length (ring storage size cap at n) ≡ n
unfolding ring
length-ring storage size cap at zero = refl
length-ring storage size cap at (suc n) =
    omega (arith, length-ring storage size cap (wrap cap (at + 1)) n)

pub messages-length :
    {q : Queue} {items : List (List ℕ)} → Holds q items → q.messages_waiting ≡ length items
messages-length {q} h = ground (
  arith,
  h.held,
  length-ring q.storage q.item_size q.len (wrap q.len (h.read_slot + 1)) q.messages_waiting,
)

step_mul : (r s : ℕ) → r * s + s ≡ (r + 1) * s
step_mul r s = grind arith

pred_mul : (r s : ℕ) → 0 < r → r * s ≡ (r - 1) * s + s
pred_mul zero s h = absurd (omega arith)
pred_mul (suc r) s h = grind arith

pub zero_mul : (s : ℕ) → 0 * s ≡ 0
zero_mul s = grind arith

mul-pos : (r s : ℕ) → 0 < r → 0 < s → 0 < r * s
mul-pos r s h k = grind arith

mul-lt : (r n s : ℕ) → 0 < s → r < n → r * s < n * s
mul-lt r n s h k = grind arith

module _ (q : Queue) (r : ℕ) (sized : 0 < q.item_size) (inside : r < q.len)
    (end : q.tail ≡ q.len * q.item_size) where
  pub next_slot : next_item q (r * q.item_size) ≡ wrap q.len (r + 1) * q.item_size
  unfolding next_item
  next_slot = elim (Bool-cases (leb q.len (r + 1))) [
    | inl last ↦
        let same : r + 1 ≡ q.len = ground arith in
        let start : wrap q.len (r + 1) ≡ 0 = ground arith in
        ground (
          arith,
          step_mul r q.item_size,
          ap (λ i. i * q.item_size) same,
          ap (λ i. i * q.item_size) start,
          zero_mul q.item_size,
        )
    | inr more ↦
        let on : wrap q.len (r + 1) ≡ r + 1 = ground arith in
        ground (
          arith,
          step_mul r q.item_size,
          mul-lt (r + 1) q.len q.item_size sized (ground arith),
          ap (λ i. i * q.item_size) on,
        )
  ]

  pub previous_slot :
      previous_item q (r * q.item_size) ≡ (if r == 0 then q.len - 1 else r - 1) * q.item_size
  unfolding previous_item
  previous_slot = elim (Bool-cases (r == 0)) [
    | inl first ↦
        let at : r ≡ 0 = ground arith in
        let end_slot : (if r == 0 then q.len - 1 else r - 1) ≡ q.len - 1 = ground arith in
        ground (
          arith,
          pred_mul q.len q.item_size (omega arith),
          ap (λ i. i * q.item_size) at,
          ap (λ i. i * q.item_size) end_slot,
          zero_mul q.item_size,
        )
    | inr later ↦
        let p : 0 < r = ground arith in
        let before : (if r == 0 then q.len - 1 else r - 1) ≡ r - 1 = ground arith in
        ground (
          arith,
          pred_mul r q.item_size p,
          mul-pos r q.item_size p sized,
          ap (λ i. i * q.item_size) before,
        )
  ]
