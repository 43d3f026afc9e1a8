-- ===== src/EventGroups/Steps.antt =====
-- Every call keeps a group quiet: no wake-up is lost, whatever is set, cleared, waited for or timed
-- out in between.
use Prim.Native.Nat.{bit_and, bit_or}
use mathlib.Core.Path.{subst}
use freertos_in_rust.Prelude.{
  ℕ, ◌<◌, ◌≡◌, refl, sym, ap, ◌∙◌, ◌⊎◌, inl, inr, Bool, true, false, List, [], ◌∷◌, ◌++◌, arith,
  ◌==◌, set, Outcome, ok, panic, word_mod, and_not, bit_or-lt,
}
use freertos_in_rust.EventGroups.{
  clear_events_on_exit_bit, wait_for_all_bits, Waiter, EventGroup, test_wait_condition, place,
  set_bits, clear_bits, returns, blocks, control_bits, wait_bits, wait_bits_resume, sync,
  sync_resume,
}
use freertos_in_rust.EventGroups.Waiting.{bit_or_assoc}
use freertos_in_rust.EventGroups.Quiet.{matching, Quiet, IsPlain}
use freertos_in_rust.EventGroups.Keeps.{
  matching-append, append-eq-nil, Quiet-IsPlain, and_not-Quiet, set_bits-Quiet, place-Quiet,
  set_bits-bits, test_wait_condition-and_not,
}

-- What can happen to a group. A task whose wait times out is taken off the list by the scheduler.
pub data Step (g : EventGroup) : EventGroup → Type 0 where
  sets :
      {g' : EventGroup} (bits left : ℕ) (woken : List Waiter)
      → bits < word_mod
      → set_bits g bits ≡ ok (left, g', woken)
      → Step g g'
  clears : {g' : EventGroup} (bits old : ℕ) → clear_bits g bits ≡ ok (old, g') → Step g g'
  wait_returns :
      {g' : EventGroup} (suspended : Bool) (task wanted : ℕ) (clear all : Bool) (ticks r : ℕ)
      → wait_bits suspended task g wanted clear all ticks ≡ ok (returns r g')
      → Step g g'
  wait_blocks :
      {g' : EventGroup} (suspended : Bool) (task wanted : ℕ) (clear all : Bool) (ticks : ℕ)
      → wanted < word_mod
      → wait_bits suspended task g wanted clear all ticks ≡ ok (blocks g')
      → Step g g'
  wait_resumes :
      (wanted : ℕ) (clear all : Bool) (value : ℕ)
      → Step g (wait_bits_resume g wanted clear all value).1
  sync_returns :
      {g' : EventGroup} (suspended : Bool) (task bits wanted ticks r : ℕ) (woken : List Waiter)
      → bits < word_mod
      → sync suspended task g bits wanted ticks ≡ ok (returns r g', woken)
      → Step g g'
  sync_blocks :
      {g' : EventGroup} (suspended : Bool) (task bits wanted ticks : ℕ) (woken : List Waiter)
      → bits < word_mod
      → wanted < word_mod
      → sync suspended task g bits wanted ticks ≡ ok (blocks g', woken)
      → Step g g'
  sync_resumes : (wanted value : ℕ) → Step g (sync_resume g wanted value).1
  times_out :
      (before after : List Waiter) (w : Waiter)
      → g.tasks_waiting_for_bits ≡ before ++ (w ∷ after)
      → Step g (record g { tasks_waiting_for_bits = before ++ after })

unmet :
    (wanted current : ℕ)
    → (bit_and current wanted == wanted) ≡ false
    → test_wait_condition current wanted true ≡ false
unfolding test_wait_condition
unmet wanted current e = e

module _ (g g' : EventGroup) (suspended : Bool) (task wanted : ℕ) (q : Quiet g) where
  wait_returns-Quiet :
      (clear all : Bool) (ticks r : ℕ)
      → wait_bits suspended task g wanted clear all ticks ≡ ok (returns r g')
      → Quiet g'
  unfolding wait_bits
  wait_returns-Quiet clear all ticks r e =
      let left : (g' ≡ g) ⊎ (g' ≡ record g { event_bits = and_not g.event_bits wanted }) =
        ground arith in
      elim left [
        | inl same ↦ subst Quiet (sym same) q
        | inr cleared ↦ subst Quiet (sym cleared) (and_not-Quiet wanted q)
      ]

  wait_blocks-Quiet :
      (clear all : Bool) (ticks : ℕ)
      → wanted < word_mod
      → wait_bits suspended task g wanted clear all ticks ≡ ok (blocks g')
      → Quiet g'
  unfolding wait_bits
  wait_blocks-Quiet clear all ticks small e =
      let miss : test_wait_condition g.event_bits wanted all ≡ false = ground arith in
      let plain : IsPlain wanted = record { small = small; plain = ground arith } in
      let placed : g' ≡ place g task (bit_or wanted (control_bits clear all)) = ground arith in
      subst Quiet (sym placed) (place-Quiet task wanted clear all q plain miss)

  module _ (bits ticks : ℕ) (woken : List Waiter) (small : bits < word_mod) where
    sync_returns-Quiet :
        (r : ℕ) → sync suspended task g bits wanted ticks ≡ ok (returns r g', woken) → Quiet g'
    unfolding sync
    sync_returns-Quiet r e = go (set_bits g bits) refl
      where
        go : (s : Outcome (ℕ × EventGroup × List Waiter)) → set_bits g bits ≡ s → Quiet g'
        go panic set = absurd (ground arith)
        go (ok (left, g₁, woken₁)) set =
            let quiet = set_bits-Quiet g bits left woken₁ (Quiet-IsPlain q) small set in
            let after : (g' ≡ g₁) ⊎ (g' ≡ record g₁ { event_bits = and_not g₁.event_bits wanted }) =
              ground arith in
            elim after [
              | inl same ↦ subst Quiet (sym same) quiet
              | inr cleared ↦ subst Quiet (sym cleared) (and_not-Quiet wanted quiet)
            ]

    sync_blocks-Quiet :
        wanted < word_mod
        → sync suspended task g bits wanted ticks ≡ ok (blocks g', woken)
        → Quiet g'
    unfolding sync
    sync_blocks-Quiet sw e = go (set_bits g bits) refl
      where
        go : (s : Outcome (ℕ × EventGroup × List Waiter)) → set_bits g bits ≡ s → Quiet g'
        go panic set = absurd (ground arith)
        go (ok (left, g₁, woken₁)) set =
            let quiet = set_bits-Quiet g bits left woken₁ (Quiet-IsPlain q) small set in
            let (mask, low) = set_bits-bits g bits left woken₁ set in
            let current = bit_or g.event_bits bits in
            let plain : IsPlain wanted = record { small = sw; plain = ground arith } in
            let miss : test_wait_condition current wanted true ≡ false =
              unmet wanted current (ground arith) in
            let still : test_wait_condition g₁.event_bits wanted true ≡ false =
              ap (λ c. test_wait_condition c wanted true) low
              ∙ test_wait_condition-and_not current mask wanted true
                  (bit_or-lt g.event_bits bits q.small small) plain miss in
            let placed : g'
                ≡ place g₁ task
                    (bit_or (bit_or wanted clear_events_on_exit_bit) wait_for_all_bits) =
              ground arith in
            let same =
              ap (place g₁ task) (bit_or_assoc wanted clear_events_on_exit_bit wait_for_all_bits) in
            subst Quiet (sym (placed ∙ same)) (place-Quiet task wanted true true quiet plain still)

-- A task that is taken off the list keeps nobody waiting.
times_out-Quiet :
    (g : EventGroup) (before after : List Waiter) (w : Waiter)
    → Quiet g
    → g.tasks_waiting_for_bits ≡ before ++ (w ∷ after)
    → Quiet (record g { tasks_waiting_for_bits = before ++ after })
unfolding matching
times_out-Quiet g before after w q e =
    let all : matching g.event_bits before ++ matching g.event_bits (w ∷ after) ≡ [] =
      sym (matching-append g.event_bits before (w ∷ after))
      ∙ sym (ap (matching g.event_bits) e)
      ∙ q.waits in
    let (none_before, none_after) =
      append-eq-nil (matching g.event_bits before) (matching g.event_bits (w ∷ after)) all in
    record {
      small = q.small;
      plain = q.plain;
      waits = ground (arith, matching-append g.event_bits before after);
    }

-- No step of a group leaves a task waiting for bits that are set: not a set, a clear, a wait or a
-- rendezvous that returns, blocks or goes on, nor a timeout.
pub Step-Quiet : {g g' : EventGroup} → Quiet g → Step g g' → Quiet g'
unfolding clear_bits wait_bits_resume sync_resume
Step-Quiet {g} q (sets bits left woken small e) =
    set_bits-Quiet g bits left woken (Quiet-IsPlain q) small e
Step-Quiet {g} {g'} q (clears bits old e) =
    let cleared : g' ≡ record g { event_bits = and_not g.event_bits bits } = ground arith in
    subst Quiet (sym cleared) (and_not-Quiet bits q)
Step-Quiet {g} {g'} q (wait_returns suspended task wanted clear all ticks r e) =
    wait_returns-Quiet g g' suspended task wanted q clear all ticks r e
Step-Quiet {g} {g'} q (wait_blocks suspended task wanted clear all ticks small e) =
    wait_blocks-Quiet g g' suspended task wanted q clear all ticks small e
Step-Quiet {g} q (wait_resumes wanted clear all value) =
    ground (arith, and_not-Quiet {g = g} wanted q)
Step-Quiet {g} {g'} q (sync_returns suspended task bits wanted ticks r woken small e) =
    sync_returns-Quiet g g' suspended task wanted q bits ticks woken small r e
Step-Quiet {g} {g'} q (sync_blocks suspended task bits wanted ticks woken small small' e) =
    sync_blocks-Quiet g g' suspended task wanted q bits ticks woken small small' e
Step-Quiet {g} q (sync_resumes wanted value) = ground (arith, and_not-Quiet {g = g} wanted q)
Step-Quiet {g} q (times_out before after w e) = times_out-Quiet g before after w q e

-- the states that a group reaches
pub data Reach (g : EventGroup) : EventGroup → Type 0 where
  here : Reach g g
  next : {h h' : EventGroup} → Reach g h → Step h h' → Reach g h'

-- A group that was created with no bit and no waiter is quiet after any history.
pub Reach-Quiet :
    {g : EventGroup} → Reach (record { event_bits = 0; tasks_waiting_for_bits = [] }) g → Quiet g
unfolding matching
Reach-Quiet here = record { small = omega arith; plain = refl; waits = refl }
Reach-Quiet (next r s) = Step-Quiet (Reach-Quiet r) s
