-- ===== src/EventGroups/Quiet.antt =====
-- What `xEventGroupSetBits` does to the bits and to each waiter, and the invariant of a group: no
-- task waits for bits that it has.
use Prim.Native.Nat.{bit_and, bit_or}
use mathlib.Core.List.{map}
use freertos_in_rust.Prelude.{
  ℕ, ◌<◌, ◌≡◌, refl, Bool, false, not, ◌&&◌, ◌||◌, List, [], ◌∷◌, arith, ◌==◌, if◌then◌else◌, ok,
  word_mod, test_bit, test_bit-or, and_not, test_bit-and_not, bit_or-lt, test_bit-zero,
}
use freertos_in_rust.EventGroups.{
  clear_events_on_exit_bit, event_bits_control_bytes, Waiter, EventGroup, is_match,
  add_bits_to_clear, scan, set_bits,
}
use freertos_in_rust.EventGroups.Waiting.{unblocked_value}

-- the waiters that match the bits `current`, and the others, in order
unfoldable pub matching : ℕ → List Waiter → List Waiter
matching current [] = []
matching current (w ∷ ws) =
    if is_match current w.item_value then w ∷ matching current ws else matching current ws

unfoldable pub unmatching : ℕ → List Waiter → List Waiter
unmatching current [] = []
unmatching current (w ∷ ws) =
    if is_match current w.item_value then unmatching current ws else w ∷ unmatching current ws

-- the waiter with the item value of a task unblocked at `current`
abbrev pub tagged : ℕ → Waiter → Waiter
tagged current w = record w { item_value = unblocked_value current }

-- Some matching waiter asked for bit `i` and for its bits to be cleared on exit.
unfoldable pub asks_to_clear : ℕ → ℕ → List Waiter → Bool
asks_to_clear i current [] = false
asks_to_clear i current (w ∷ ws) =
    (is_match current w.item_value
      && (not
            (bit_and (bit_and w.item_value event_bits_control_bytes) clear_events_on_exit_bit == 0)
          && test_bit (and_not w.item_value event_bits_control_bytes) i))
    || asks_to_clear i current ws

pub scan_lists :
    (current acc : ℕ) (ws : List Waiter)
    → ((scan current acc ws).kept ≡ unmatching current ws)
      × ((scan current acc ws).unblocked ≡ map (tagged current) (matching current ws))
unfolding scan matching unmatching
scan_lists current acc [] = (refl, refl)
scan_lists current acc (w ∷ ws) =
    ground (arith, scan_lists current (add_bits_to_clear current acc w) ws)

scan_clears :
    (i current acc : ℕ) (ws : List Waiter)
    → test_bit (scan current acc ws).bits_to_clear i
      ≡ (test_bit acc i || asks_to_clear i current ws)
unfolding scan asks_to_clear add_bits_to_clear
scan_clears i current acc [] = ground arith
scan_clears i current acc (w ∷ ws) = ground (
  arith,
  scan_clears i current (add_bits_to_clear current acc w) ws,
  test_bit-or i acc (and_not w.item_value event_bits_control_bytes),
)

-- A group with no task that waits for bits that are set, and no control bit set.
pub record Quiet (g : EventGroup) : Type 0 where
  pub small : g.event_bits < word_mod
  pub plain : bit_and g.event_bits event_bits_control_bytes ≡ 0
  pub waits : matching g.event_bits g.tasks_waiting_for_bits ≡ []

-- the bits that may be set from outside
pub record IsPlain (bits : ℕ) : Type 0 where
  pub small : bits < word_mod
  pub plain : bit_and bits event_bits_control_bytes ≡ 0

-- `xEventGroupSetBits` fails no assertion on bits without control bits. It takes off the list exactly
-- the waiters that match the old and new bits together, in order, each tagged with these, and leaves
-- the others in order; of the bits it then clears exactly those that some unblocked waiter wanted
-- cleared, and returns what is left.
pub set_bits_lem :
    (g : EventGroup) (bits : ℕ)
    → g.event_bits < word_mod
    → IsPlain bits
    → let current = bit_or g.event_bits bits in
      (left : ℕ) × (set_bits g bits
        ≡ ok (
          left,
          record {
            event_bits = left;
            tasks_waiting_for_bits = unmatching current g.tasks_waiting_for_bits;
          },
          map (tagged current) (matching current g.tasks_waiting_for_bits),
        ))
      × ((i : ℕ)
          → test_bit left i ≡ (
              (test_bit g.event_bits i || test_bit bits i)
              && not (asks_to_clear i current g.tasks_waiting_for_bits)))
unfolding set_bits
set_bits_lem g bits small p =
    let ws = g.tasks_waiting_for_bits in
    let current = bit_or g.event_bits bits in
    let s = scan current 0 ws in
    (
      and_not current s.bits_to_clear,
      ground (arith, p.plain, scan_lists current 0 ws),
      λ i. ground (
        arith,
        test_bit-and_not i current s.bits_to_clear (bit_or-lt g.event_bits bits small p.small),
        test_bit-or i g.event_bits bits,
        scan_clears i current 0 ws,
        test_bit-zero i,
      ),
    )
