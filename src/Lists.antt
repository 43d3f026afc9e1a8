-- ===== src/Lists.antt =====
-- kernel/list.rs: the doubly linked lists that the scheduler, the timers and all waiting tasks are kept
-- in, without the integrity check values. Items and lists are stores by address; the end marker of a list
-- is an item inside of it. The search for the place of an item has as many rounds as the list has items
-- and one more, and gives `none` if they are used up.
pub mod Segments
pub mod Splicing
pub mod Shape
pub mod Ordered
pub mod Insertion
pub mod Rotation
pub mod Members
pub mod World
pub mod Removal
mod Tests
use freertos_in_rust.Prelude.{
  ℕ, zero, suc, ◌+◌, true, false, Option, none, some, leb, ◌==◌, if◌then◌else◌, add_word, sub_word,
  word_max,
}

-- `ListItem_t`
pub record ListItem : Type 0 where
  pub item_value : ℕ
  pub next : ℕ
  pub previous : ℕ
  pub owner : ℕ
  pub container : ℕ

-- `List_t` without its end marker
pub record ListHead : Type 0 where
  pub number_of_items : ℕ
  pub index : ℕ

abbrev pub Items : Type 0
Items = ℕ → ListItem

pub record Store : Type 0 where
  pub items : Items
  pub lists : ℕ → ListHead

-- the address of `xListEnd`
abbrev pub list_end : ℕ → ℕ
list_end l = l + 8

abbrev pub set_next : Items → ℕ → ℕ → Items
set_next m q v r = if r == q then record (m q) { next = v } else m r

abbrev pub set_previous : Items → ℕ → ℕ → Items
set_previous m q v r = if r == q then record (m q) { previous = v } else m r

abbrev pub set_container : Items → ℕ → ℕ → Items
set_container m q v r = if r == q then record (m q) { container = v } else m r

abbrev pub set_head : (ℕ → ListHead) → ℕ → ListHead → ℕ → ListHead
set_head lists l h r = if r == l then h else lists r

-- `vListInitialise`
unfoldable pub initialise : ℕ → Store → Store
initialise l s =
    let end = list_end l in
    record {
      items = λ r.
          if r == end
          then record {
            item_value = word_max;
            next = end;
            previous = end;
            owner = 0;
            container = 0;
          }
          else s.items r;
      lists = set_head s.lists l (record { number_of_items = 0; index = end });
    }

-- `vListInitialiseItem`
abbrev pub initialise_item : ℕ → Store → Store
initialise_item item s = record s { items = set_container s.items item 0 }

abbrev pub count_in : ℕ → Store → ℕ → ListHead
count_in l s =
    set_head s.lists l
      (record (s.lists l) { number_of_items = add_word (s.lists l).number_of_items 1 })

-- `vListInsertEnd`
unfoldable pub insert_end : ℕ → ℕ → Store → Store
insert_end l item s =
    let index = (s.lists l).index in
    let m = set_next s.items item index in
    let m = set_previous m item (m index).previous in
    let m = set_next m (m index).previous item in
    let m = set_previous m index item in
    record { items = set_container m item l; lists = count_in l s }

-- the loop of `vListInsert`
unfoldable pub find_place : ℕ → Items → ℕ → ℕ → Option ℕ
find_place zero m iterator value = none
find_place (suc rounds) m iterator value = elim (leb (m (m iterator).next).item_value value) [
  | true ↦ find_place rounds m (m iterator).next value
  | false ↦ some iterator
]

-- the rest of `vListInsert`
unfoldable pub insert_behind : ℕ → ℕ → ℕ → Store → Store
insert_behind l item iterator s =
    let m = set_next s.items item (s.items iterator).next in
    let m = set_previous m (m item).next item in
    let m = set_previous m item iterator in
    let m = set_next m iterator item in
    record { items = set_container m item l; lists = count_in l s }

-- `vListInsert`
unfoldable pub insert : ℕ → ℕ → Store → Option Store
insert l item s =
    let value = (s.items item).item_value in
    let found = find_place (suc (s.lists l).number_of_items) s.items (list_end l) value in
    if value == word_max
    then some (insert_behind l item (s.items (list_end l)).previous s)
    else elim found [ none ↦ none | some iterator ↦ some (insert_behind l item iterator s) ]

-- `uxListRemove`: how many items remain, and the store
unfoldable pub remove : ℕ → Store → ℕ × Store
remove item s =
    let l = (s.items item).container in
    let h = s.lists l in
    let m = set_previous s.items (s.items item).next (s.items item).previous in
    let m = set_next m (m item).previous (m item).next in
    let number = sub_word h.number_of_items 1 in
    (
      number,
      record {
        items = set_container m item 0;
        lists = set_head s.lists l (record {
          number_of_items = number;
          index = if h.index == item then (m item).previous else h.index;
        });
      },
    )

-- `listGET_OWNER_OF_NEXT_ENTRY`: the owner, and the store
unfoldable pub get_owner_of_next_entry : ℕ → Store → ℕ × Store
get_owner_of_next_entry l s =
    let h = s.lists l in
    let after = (s.items h.index).next in
    let index = if after == list_end l then (s.items (list_end l)).next else after in
    ((s.items index).owner, record s { lists = set_head s.lists l (record h { index = index }) })
