-- ===== src/Lists/Tests.antt =====
-- Lists of two and three items, and what the theorems say of them.
use freertos_in_rust.Prelude.{◌+◌, ◌≡◌, refl, none, some, [], ◌∷◌, ◌++◌, arith, ◌==◌, if◌then◌else◌}
use freertos_in_rust.Lists.{
  Store, initialise, insert_end, find_place, insert_behind, insert, remove, get_owner_of_next_entry,
}
use freertos_in_rust.Lists.Shape.{IsList}
use freertos_in_rust.Lists.Ordered.{before, after, Ascending}
use freertos_in_rust.Lists.Insertion.{insert_refines}
use freertos_in_rust.Lists.Removal.{remove_refines}
use freertos_in_rust.Lists.Rotation.{next_owners, owners, round_robin}

-- items at 100, 200 and 300 with values of 5, 7 and 5, each owned by the address behind it
abbrev blank : Store
blank = record {
  items = λ q. record {
    item_value = if q == 200 then 7 else 5;
    next = 0;
    previous = 0;
    owner = q + 1;
    container = 0;
  };
  lists = λ q. record { number_of_items = 0; index = 0 };
}

-- the list at 1000 with the items at 100 and 200
abbrev pair : Store
pair = insert_end 1000 200 (insert_end 1000 100 (initialise 1000 blank))

pair-IsList : IsList pair 1000 (100 ∷ 200 ∷ [])
unfolding insert_end initialise
pair-IsList = record {
  ring = (refl, refl, (refl, refl, (refl, refl)));
  distinct = (
    (λ e. absurd (omega arith), (λ e. absurd (omega arith), tt)),
    ((λ e. absurd (omega arith), tt), (tt, tt)),
  );
  marker = refl;
  held = (refl, omega arith, (refl, omega arith, tt));
  count = refl;
  fits = omega arith;
}

values :
    ((pair.items 100).item_value ≡ 5)
    × ((pair.items 200).item_value ≡ 7)
    × ((pair.items 300).item_value ≡ 5)
    × ((pair.lists 1000).index ≡ 1008)
unfolding insert_end initialise
values = (refl, refl, refl, refl)

pair-Ascending : Ascending pair.items (100 ∷ 200 ∷ [])
unfolding insert_end initialise
pair-Ascending = ((omega arith, tt), (tt, tt))

-- The item at 300 comes behind the one at 100, which has the same value.
insert_run :
    elim (insert 1000 300 pair) [ none ↦ [] | some s ↦ next_owners 3 1000 s ] ≡ 101 ∷ 301 ∷ 201 ∷ []
unfolding insert insert_behind find_place insert_end initialise get_owner_of_next_entry
insert_run = refl

insert_refines_example :
    (s : Store) × (insert 1000 300 pair ≡ some s)
    × IsList s 1000 (
        before pair.items (pair.items 300).item_value (100 ∷ 200 ∷ [])
        ++ 300 ∷ after pair.items (pair.items 300).item_value (100 ∷ 200 ∷ []))
    × Ascending s.items (
        before pair.items (pair.items 300).item_value (100 ∷ 200 ∷ [])
        ++ 300 ∷ after pair.items (pair.items 300).item_value (100 ∷ 200 ∷ []))
    × ((s.items 300).container ≡ 1000)
    × ((s.lists 1000).index ≡ (pair.lists 1000).index)
insert_refines_example =
    insert_refines 1000 300 pair (100 ∷ 200 ∷ []) pair-IsList pair-Ascending
      (λ e. absurd (omega arith)) (λ e. absurd (omega arith), (λ e. absurd (omega arith), tt))
      (omega (arith, values.2)) (omega arith)

remove_refines_example :
    ((remove 100 pair).0 ≡ 1)
    × IsList (remove 100 pair).1 1000 (200 ∷ [])
    × (((remove 100 pair).1.items 100).container ≡ 0)
    × (((remove 100 pair).1.lists 1000).index
        ≡ (if (pair.lists 1000).index == 100 then 1008 else (pair.lists 1000).index))
remove_refines_example = remove_refines pair 1000 100 [] (200 ∷ []) pair-IsList

round_robin_example : next_owners 2 1000 pair ≡ owners pair.items (100 ∷ 200 ∷ [])
round_robin_example = round_robin 1000 pair [] (100 ∷ 200 ∷ []) pair-IsList values.3
