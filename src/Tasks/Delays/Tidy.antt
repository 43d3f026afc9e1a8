-- ===== src/Tasks/Delays/Tidy.antt =====
-- The invariant of the delayed lists, and that it outlasts the moves of single items.
use mathlib.Core.Path.{subst}
use freertos_in_rust.Prelude.{
  ℕ, ◌≤◌, ◌≡◌, sym, ap, ◌∙◌, ◌≢◌, ◌⊎◌, inl, inr, List, [], ◌∷◌, ◌++◌, arith, ◌==◌, Bool-cases,
  word_max,
}
use freertos_in_rust.Lists.{Items, Store}
use freertos_in_rust.Lists.Members.{Within, Within-insert}
use freertos_in_rust.Lists.Ordered.{Bounded, Ascending, Ascending-kept}
use freertos_in_rust.Lists.World.{World, with_list, Moved, with_self, with_other}
use freertos_in_rust.Lists.World.Inserting.{IsItem}
use freertos_in_rust.Tasks.Ready.{Tcb}

-- Which addresses are lists and which are tasks, and the tasks' blocks.
pub record Setting : Type 1 where
  pub known : ℕ → Type 0
  pub live : ℕ → Type 0
  pub ready : ℕ → ℕ
  pub tcbs : ℕ → Tcb

abbrev pub state_item : Setting → ℕ → ℕ
state_item a t = (a.tcbs t).state_list_item

abbrev pub event_item : Setting → ℕ → ℕ
event_item a t = (a.tcbs t).event_list_item

-- the ready list of the task's priority
abbrev pub ready_list : Setting → ℕ → ℕ
ready_list a t = a.ready (a.tcbs t).priority

-- A list of sleeping tasks: their state items, in the order of their times.
pub record Sleepers (a : Setting) (m : Items) (xs : List ℕ) : Type 0 where
  pub ascending : Ascending m xs
  pub alive : (x : ℕ) → Within x xs → a.live (m x).owner
  pub own : (x : ℕ) → Within x xs → x ≡ state_item a (m x).owner

-- The items of a task: `d` and `o` are the two delayed lists.
pub record IsTask (a : Setting) (d o : ℕ) (m : Items) (t : ℕ) : Type 0 where
  pub state : IsItem a.known (state_item a t)
  pub event : IsItem a.known (event_item a t)
  pub differ : state_item a t ≢ event_item a t
  pub state_owner : (m (state_item a t)).owner ≡ t
  pub event_owner : (m (event_item a t)).owner ≡ t
  pub value : (m (state_item a t)).item_value ≤ word_max
  pub event_value : (m (event_item a t)).item_value ≤ word_max
  pub waits : ((m (event_item a t)).container ≡ 0) ⊎ a.known (m (event_item a t)).container
  pub ready_known : a.known (ready_list a t)
  pub ready_first : ready_list a t ≢ d
  pub ready_second : ready_list a t ≢ o

-- The lists `c` are in order, the tasks in the delayed lists `d` and `o` sleep, and each task has its items.
pub record IsTidy (a : Setting) (d o : ℕ) (s : Store) (c : ℕ → List ℕ) : Type 0 where
  pub world : World a.known s c
  pub apart : d ≢ o
  pub first_known : a.known d
  pub second_known : a.known o
  pub first : Sleepers a s.items (c d)
  pub second : Sleepers a s.items (c o)
  pub tasks : (t : ℕ) → a.live t → IsTask a d o s.items t

-- what the sleepers' conditions read of the items
pub Sleepers-kept :
    (a : Setting) (m m' : Items) (xs : List ℕ)
    → ((r : ℕ) → (m' r).item_value ≡ (m r).item_value)
    → ((r : ℕ) → (m' r).owner ≡ (m r).owner)
    → Sleepers a m xs
    → Sleepers a m' xs
Sleepers-kept a m m' xs values owners h = record {
  ascending = Ascending-kept m m' xs values h.ascending;
  alive = λ x w. subst a.live (sym (owners x)) (h.alive x w);
  own = λ x w. h.own x w ∙ ap (state_item a) (sym (owners x));
}

Bounded-remove :
    (m : Items) (b x : ℕ) (ys zs : List ℕ) → Bounded m b (ys ++ x ∷ zs) → Bounded m b (ys ++ zs)
Bounded-remove m b x [] zs h = h.1
Bounded-remove m b x (y ∷ ys) zs h = (h.0, Bounded-remove m b x ys zs h.1)

Ascending-remove :
    (m : Items) (x : ℕ) (ys zs : List ℕ) → Ascending m (ys ++ x ∷ zs) → Ascending m (ys ++ zs)
Ascending-remove m x [] zs h = h.1
Ascending-remove m x (y ∷ ys) zs h =
    (Bounded-remove m (m y).item_value x ys zs h.0, Ascending-remove m x ys zs h.1)

pub Sleepers-remove :
    (a : Setting) (m : Items) (x : ℕ) (ys zs : List ℕ)
    → Sleepers a m (ys ++ x ∷ zs)
    → Sleepers a m (ys ++ zs)
Sleepers-remove a m x ys zs h = record {
  ascending = Ascending-remove m x ys zs h.ascending;
  alive = λ r w. h.alive r (Within-insert r x ys zs w);
  own = λ r w. h.own r (Within-insert r x ys zs w);
}

-- A task keeps its items when one item goes to a known list or to none.
pub IsTask-Moved :
    (a : Setting) (d o : ℕ) (s s' : Store) (x l t : ℕ)
    → Moved s s' x l
    → (l ≡ 0) ⊎ a.known l
    → IsTask a d o s.items t
    → IsTask a d o s'.items t
IsTask-Moved a d o s s' x l t m to h = record {
  state = h.state;
  event = h.event;
  differ = h.differ;
  state_owner = m.owners (state_item a t) ∙ h.state_owner;
  event_owner = m.owners (event_item a t) ∙ h.event_owner;
  value = let e = m.values (state_item a t) in let v = h.value in omega arith;
  event_value = let e = m.values (event_item a t) in let v = h.event_value in omega arith;
  waits = elim (Bool-cases (event_item a t == x)) [
    | inl same ↦
        let e : (s'.items (event_item a t)).container ≡ l =
          ap (λ r. (s'.items r).container) {x = event_item a t} {y = x} (ground arith) ∙ m.to in
        subst (λ q. (q ≡ 0) ⊎ a.known q) (sym e) to
    | inr other ↦
        subst (λ q. (q ≡ 0) ⊎ a.known q)
          (sym (m.stay (event_item a t) (λ e. absurd (ground arith)))) h.waits
  ];
  ready_known = h.ready_known;
  ready_first = h.ready_first;
  ready_second = h.ready_second;
}

-- a property of the delayed lists when one list has changed
pub either_list :
    (c : ℕ → List ℕ) (l q : ℕ) (xs : List ℕ) (P : List ℕ → Type 0)
    → (q ≡ l → P xs)
    → (q ≢ l → P (c q))
    → P (with_list c l xs q)
either_list c l q xs P here there = elim (Bool-cases (q == l)) [
  | inl same ↦
      let e : q ≡ l = ground arith in
      subst (λ y. P (with_list c l xs y)) (sym e) (subst P (sym (with_self c l xs)) (here e))
  | inr other ↦
      let n : q ≢ l = λ e. absurd (ground arith) in subst P (sym (with_other c l xs q n)) (there n)
]
