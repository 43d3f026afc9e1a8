-- ===== src/Tasks/Notifications/Semaphore.antt =====
-- Notification values as counting semaphores.
use mathlib.Core.Path.{subst}
use freertos_in_rust.Prelude.{
  ℕ, ◌+◌, ◌-◌, ◌≤◌, ◌<◌, ◌≡◌, refl, sym, ap, ◌∙◌, ◌≢◌, ◌⊎◌, inl, inr, Bool, ◌&&◌, Option, none,
  some, List, [], ◌∷◌, arith, ltb, ◌==◌, if◌then◌else◌, Bool-cases, length, set, length-set,
  get_or-set, Outcome, ok, ◌>>=◌, word_mod, add_word,
}
use freertos_in_rust.Tasks.Notifications.{
  not_waiting_notification, waiting_notification, notification_received, increment, Slot, no_slot,
  slot_at, act, generic_notify, notify_take, notify_take_resume,
}

-- `xTaskNotifyGiveIndexed` and its version for interrupts; the call of `ulTaskNotifyTakeIndexed`, with whether
-- to clear the count on exit and the ticks to wait; and that the task goes on after the wait, since it was
-- notified or has waited long enough
pub data Use : Type 0 where
  give : ℕ → Use
  take_counts : (index : ℕ) (clear : Bool) (ticks : ℕ) → Use
  go_on : Use

-- the notification array of a task, and the take that it is blocked in
pub record Taker : Type 0 where
  pub slots : List Slot
  pub blocked : Option (ℕ × Bool)

-- what a take takes of a count
abbrev pub taken_of : Bool → ℕ → ℕ
taken_of clear count = if clear then count else if count == 0 then 0 else 1

-- the return of a take: what it takes of slot `i`, and the task that runs on
abbrev pub finish : ℕ → List Slot → ℕ → Bool → ℕ × Taker
finish i slots index clear =
    let r = notify_take_resume slots index clear in
    (if index == i then taken_of clear r.0 else 0, record { slots = r.1; blocked = none })

-- A use, and what it takes of slot `i`. A task that is blocked takes nothing more until it goes on.
unfoldable pub use_slots : ℕ → Taker → Use → Outcome (ℕ × Taker)
use_slots i t (give index) =
    generic_notify t.slots index 0 increment >>= (λ r. ok (0, record t { slots = r.slots }))
use_slots i t (take_counts index clear ticks) = elim t.blocked [
  | none ↦ notify_take t.slots index ticks >>= (λ r.
      if r.0
      then ok (0, record { slots = r.1; blocked = some (index, clear) })
      else ok (finish i r.1 index clear))
  | some _ ↦ ok (0, t)
]
use_slots i t go_on = elim t.blocked [
  | none ↦ ok (0, t)
  | some (index, clear) ↦ ok (finish i t.slots index clear)
]

-- uses in the order in which they come: what they take of slot `i`, and the task in the end
unfoldable pub run : ℕ → Taker → List Use → Outcome (ℕ × Taker)
run i t [] = ok (0, t)
run i t (u ∷ uses) = use_slots i t u >>= (λ r. run i r.1 uses >>= (λ q. ok (r.0 + q.0, q.1)))

-- the gives to slot `i`
unfoldable pub gives : ℕ → List Use → ℕ
gives i [] = 0
gives i (give index ∷ uses) = if index == i then gives i uses + 1 else gives i uses
gives i (take_counts index clear ticks ∷ uses) = gives i uses
gives i (go_on ∷ uses) = gives i uses

abbrev pub IsUse : ℕ → Use → Type 0
IsUse n (give index) = index < n
IsUse n (take_counts index clear ticks) = index < n
IsUse n go_on = Unit

abbrev pub InRange : ℕ → List Use → Type 0
InRange n [] = Unit
InRange n (u ∷ uses) = IsUse n u × InRange n uses

abbrev pub IsBlocked : ℕ → Option (ℕ × Bool) → Type 0
IsBlocked n none = Unit
IsBlocked n (some (index, clear)) = index < n

abbrev pub value_of : Taker → ℕ → ℕ
value_of t i = (slot_at t.slots i).value

value-set :
    (slots : List Slot) (index i : ℕ) (s : Slot)
    → index < length slots
    → (slot_at (set slots index s) i).value
      ≡ (if index == i then s.value else (slot_at slots i).value)
value-set slots index i s h = ground (arith, get_or-set slots index i s no_slot h)

same_slot :
    (slots : List Slot) (index i : ℕ)
    → index ≡ i
    → (slot_at slots index).value ≡ (slot_at slots i).value
same_slot slots index i e = ap (λ k. (slot_at slots k).value) e

-- What one use comes to, of which `given` are gives to slot `i`.
record Conserved (i : ℕ) (t : Taker) (given : ℕ) (r : Outcome (ℕ × Taker)) : Type 0 where
  taken : ℕ
  after : Taker
  result : r ≡ ok (taken, after)
  same_length : length after.slots ≡ length t.slots
  still : IsBlocked (length after.slots) after.blocked
  sum : taken + value_of after i ≡ value_of t i + given

finish_lem :
    (i : ℕ) (t : Taker) (index : ℕ) (clear : Bool)
    → index < length t.slots
    → Conserved i t 0 (ok (finish i t.slots index clear))
unfolding notify_take_resume
finish_lem i t index clear h =
    let count = (slot_at t.slots index).value in
    let s : Slot = record {
      value = if count == 0 then 0 else if clear then 0 else count - 1;
      state = not_waiting_notification;
    } in
    let now = value-set t.slots index i s h in
    let same = same_slot t.slots index i in
    record {
      taken = if index == i then taken_of clear count else 0;
      after = record { slots = set t.slots index s; blocked = none };
      result = refl;
      same_length = length-set t.slots index s;
      still = tt;
      sum = ground arith;
    }

give_lem :
    (i : ℕ) (t : Taker) (index : ℕ)
    → index < length t.slots
    → IsBlocked (length t.slots) t.blocked
    → value_of t i + 1 < word_mod ⊎ (index ≢ i)
    → Conserved i t (if index == i then 1 else 0) (use_slots i t (give index))
unfolding use_slots generic_notify act
give_lem i t index h b small =
    let s = slot_at t.slots index in
    let s' : Slot = record { value = add_word s.value 1; state = notification_received } in
    let now = value-set t.slots index i s' h in
    let same = same_slot t.slots index i in
    let l = length-set t.slots index s' in
    record {
      taken = 0;
      after = record t { slots = set t.slots index s' };
      result = ground arith;
      same_length = l;
      still = subst (λ n. IsBlocked n t.blocked) (sym l) b;
      sum = ground arith;
    }

take_lem :
    (i : ℕ) (slots : List Slot) (blocked : Option (ℕ × Bool)) (index : ℕ) (clear : Bool) (ticks : ℕ)
    → index < length slots
    → IsBlocked (length slots) blocked
    → let t : Taker = record { slots = slots; blocked = blocked } in
      Conserved i t 0 (use_slots i t (take_counts index clear ticks))
unfolding use_slots notify_take
take_lem i slots (some w) index clear ticks h b = record {
  taken = 0;
  after = record { slots = slots; blocked = some w };
  result = refl;
  same_length = refl;
  still = b;
  sum = omega arith;
}
take_lem i slots none index clear ticks h b =
    let t : Taker = record { slots = slots; blocked = none } in
    let s = slot_at slots index in
    elim (Bool-cases ((s.value == 0) && ltb 0 ticks)) [
      | inl waits ↦
          let s' : Slot = record s { state = waiting_notification } in
          let slots' = set slots index s' in
          let now = value-set slots index i s' h in
          let same = same_slot slots index i in
          let l = length-set slots index s' in
          record {
            taken = 0;
            after = record { slots = slots'; blocked = some (index, clear) };
            result = ground arith;
            same_length = l;
            still = omega arith;
            sum = ground arith;
          }
      | inr passes ↦
          subst (Conserved i t 0) {x = ok (finish i slots index clear)} (ground arith)
            (finish_lem i t index clear h)
    ]

go_on_lem :
    (i : ℕ) (slots : List Slot) (blocked : Option (ℕ × Bool))
    → IsBlocked (length slots) blocked
    → let t : Taker = record { slots = slots; blocked = blocked } in
      Conserved i t 0 (use_slots i t go_on)
unfolding use_slots
go_on_lem i slots none b = record {
  taken = 0;
  after = record { slots = slots; blocked = none };
  result = refl;
  same_length = refl;
  still = tt;
  sum = omega arith;
}
go_on_lem i slots (some (index, clear)) b =
    finish_lem i (record { slots = slots; blocked = some (index, clear) }) index clear b

-- one use and the ones behind it
Conserved-run :
    (i : ℕ) (t : Taker) (u : Use) (uses : List Use) (given later : ℕ)
    → Conserved i t given (use_slots i t u)
    → ((t' : Taker)
        → length t'.slots ≡ length t.slots
        → IsBlocked (length t'.slots) t'.blocked
        → value_of t' i ≤ value_of t i + given
        → (taken : ℕ) × (after : Taker) × (run i t' uses ≡ ok (taken, after))
          × (taken + value_of after i ≡ value_of t' i + later))
    → (taken : ℕ) × (after : Taker) × (run i t (u ∷ uses) ≡ ok (taken, after))
      × (taken + value_of after i ≡ value_of t i + (later + given))
unfolding run
Conserved-run i t u uses given later c rest =
    let s = c.sum in
    let (taken, after, e, sum) = rest c.after c.same_length c.still (omega arith) in
    (
      c.taken + taken,
      after,
      ap (λ r. r >>= (λ r. run i r.1 uses >>= (λ q. ok (r.0 + q.0, q.1)))) c.result
          ∙ ap (λ r. r >>= (λ q. ok (c.taken + q.0, q.1))) e,
      omega arith,
    )

gives_nil : (i : ℕ) → gives i [] ≡ 0
unfolding gives
gives_nil i = refl

gives_suc :
    (i : ℕ) (u : Use) (uses : List Use) → gives i (u ∷ uses) ≡ gives i uses + gives i (u ∷ [])
unfolding gives
gives_suc i (give index) uses = ground arith
gives_suc i (take_counts index clear ticks) uses = omega arith
gives_suc i go_on uses = omega arith

use_lem :
    (i : ℕ) (t : Taker) (u : Use)
    → IsUse (length t.slots) u
    → IsBlocked (length t.slots) t.blocked
    → value_of t i + gives i (u ∷ []) < word_mod
    → Conserved i t (gives i (u ∷ [])) (use_slots i t u)
unfolding gives
use_lem i t (give index) h b small =
    subst (λ n. Conserved i t n (use_slots i t (give index))) {x = if index == i then 1 else 0}
      (ground arith)
      (give_lem i t index h b (elim (Bool-cases (index == i)) [
        | inl same ↦ inl (ground arith)
        | inr other ↦ inr (λ e. absurd (ground arith))
      ]))
use_lem i t (take_counts index clear ticks) h b small =
    take_lem i t.slots t.blocked index clear ticks h b
use_lem i t go_on h b small = go_on_lem i t.slots t.blocked b

run-sum :
    (uses : List Use) (i : ℕ) (t : Taker)
    → InRange (length t.slots) uses
    → IsBlocked (length t.slots) t.blocked
    → value_of t i + gives i uses < word_mod
    → (taken : ℕ) × (after : Taker) × (run i t uses ≡ ok (taken, after))
      × (taken + value_of after i ≡ value_of t i + gives i uses)
unfolding run
run-sum [] i t r b small = (0, t, refl, let none_given = gives_nil i in omega arith)
run-sum (u ∷ uses) i t r b small =
    let count = gives_suc i u uses in
    let (taken, after, e, sum) =
      Conserved-run i t u uses (gives i (u ∷ [])) (gives i uses) (use_lem i t u r.0 b (omega arith))
        (λ t' l b' bound.
          run-sum uses i t' (subst (λ n. InRange n uses) (sym l) r.1) b' (omega arith)) in
    (taken, after, e, omega arith)

-- However gives to the slots of a task, its takes, with or without a wait and with or without a clear of the
-- count, and its returns from waits are interleaved, no assertion fails, and the gives of a slot are
-- conserved: those that were taken and those that are left are those that there were at the start and
-- those given since, if these are fewer than 2^32. A take with a clear takes all, one without takes one
-- if there is any. While the task waits it makes no other take.
pub run-conserves :
    (uses : List Use) (i : ℕ) (slots : List Slot)
    → i < length slots
    → InRange (length slots) uses
    → (slot_at slots i).value + gives i uses < word_mod
    → (taken : ℕ) × (after : Taker) × (run i (record { slots = slots; blocked = none }) uses
        ≡ ok (taken, after))
      × (taken + value_of after i ≡ (slot_at slots i).value + gives i uses)
run-conserves uses i slots h r small =
    run-sum uses i (record { slots = slots; blocked = none }) r tt small
