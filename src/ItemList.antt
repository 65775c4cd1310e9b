-- ===== src/ItemList.antt =====
-- src/libfrozen/core/list.c: a growable array of pointers that ends with LIST_END and keeps freed
-- cells as LIST_FREE_ITEM. The lock is left out: each operation is one critical section.
pub mod View
pub mod Add
pub mod Remove
pub mod Walk
pub mod Count
pub mod Flatten
pub mod FreeItem
mod Tests
use frozen.Base.{
  ℕ, suc, ◌+◌, Bool, true, false, Option, none, some, List, [], ◌∷◌, ◌++◌, ◌==◌, if◌then◌else◌, ltb,
  set, take, drop, replicate,
}

-- One word of the array: LIST_END, LIST_FREE_ITEM or the address of an item.
pub data Cell : Type 0 where
  list_end free_item : Cell
  item : ℕ → Cell

-- `struct list`; `none` is the NULL of `items`.
pub record ItemList : Type 0 where
  pub items : Option (List Cell)

-- Where a walk stops: at a free cell or at the end.
pub data Stop : Type 0 where
  at_free at_end : ℕ → Stop

abbrev pub next_stop : Stop → Stop
next_stop (at_free i) = at_free (suc i)
next_stop (at_end i) = at_end (suc i)

-- `==` on two words.
abbrev pub same : Cell → Cell → Bool
same list_end list_end = true
same free_item free_item = true
same (item p) (item q) = p == q
same _ _ = false

-- `realloc` of an array to `n` words, which is taken to succeed, as the source does not test it: the
-- old words stay, a new one holds any value.
unfoldable pub realloc_cells : Cell → List Cell → ℕ → List Cell
realloc_cells junk cells n = take n (cells ++ replicate n junk)

-- The loop of `list_add` and `list_push`: the first free cell, else the end. `none` is a walk
-- that leaves the array.
unfoldable pub find_slot : List Cell → Option Stop
find_slot [] = none
find_slot (list_end ∷ cells) = some (at_end 0)
find_slot (free_item ∷ cells) = some (at_free 0)
find_slot (item p ∷ cells) = elim (find_slot cells) [ none ↦ none | some s ↦ some (next_stop s) ]

abbrev pub cells_of : ItemList → List Cell
cells_of l = elim l.items [ none ↦ [] | some cells ↦ cells ]

abbrev pub of_cells : List Cell → ItemList
of_cells cells = record { items = some cells }

-- `list_init`.
unfoldable pub list_init : ItemList
list_init = record { items = none }

-- `list_destroy` frees the array.
unfoldable pub list_destroy : ItemList → ItemList
list_destroy l = record l { items = none }

-- `list_add` and `list_push` from the `realloc` on, with `lsz` cells before the end.
unfoldable pub add_at_end : Cell → List Cell → ℕ → Cell → List Cell
unfolding realloc_cells
add_at_end junk cells lsz x =
    let list = realloc_cells junk cells (suc (suc lsz)) in set (set list (suc lsz) list_end) lsz x

-- `memmove(list + 1, list, n)`.
unfoldable pub move_up : List Cell → ℕ → List Cell
move_up [] n = []
move_up (c ∷ list) n = c ∷ take n (c ∷ list) ++ drop n list

unfoldable pub push_at_end : Cell → List Cell → ℕ → Cell → List Cell
unfolding realloc_cells move_up
push_at_end junk cells lsz x =
    let list = realloc_cells junk cells (suc (suc lsz)) in
    set (set (move_up list (suc lsz)) (suc lsz) list_end) 0 x

-- `list_add`: the item goes to the first free cell, or behind the last one.
unfoldable pub list_add : Cell → ItemList → Cell → Option ItemList
unfolding find_slot add_at_end
list_add junk l x = elim l.items [
  | none ↦ some (of_cells (add_at_end junk [] 0 x))
  | some cells ↦ elim (find_slot cells) [
    | none ↦ none
    | some (at_free i) ↦ some (of_cells (set cells i x))
    | some (at_end i) ↦ some (of_cells (add_at_end junk cells i x))
  ]
]

-- `list_push`: the item goes to the first free cell, or in front of the first one.
unfoldable pub list_push : Cell → ItemList → Cell → Option ItemList
unfolding find_slot push_at_end
list_push junk l x = elim l.items [
  | none ↦ some (of_cells (push_at_end junk [] 0 x))
  | some cells ↦ elim (find_slot cells) [
    | none ↦ none
    | some (at_free i) ↦ some (of_cells (set cells i x))
    | some (at_end i) ↦ some (of_cells (push_at_end junk cells i x))
  ]
]

-- The loop of `list_delete`: frees the first cell that holds the item.
unfoldable pub delete_cells : List Cell → Cell → Option (List Cell)
delete_cells [] x = none
delete_cells (list_end ∷ cells) x = some (list_end ∷ cells)
delete_cells (c ∷ cells) x =
    let rest = delete_cells cells x in
    if same c x
    then some (free_item ∷ cells)
    else elim rest [ none ↦ none | some cells' ↦ some (c ∷ cells') ]

unfoldable pub list_delete : ItemList → Cell → Option ItemList
unfolding delete_cells
list_delete l x = elim l.items [
  | none ↦ some l
  | some cells ↦ elim (delete_cells cells x) [ none ↦ none | some cells' ↦ some (of_cells cells') ]
]

-- `list_is_empty`.
unfoldable pub no_item : List Cell → Option Bool
no_item [] = none
no_item (list_end ∷ cells) = some true
no_item (free_item ∷ cells) = no_item cells
no_item (item p ∷ cells) = some false

unfoldable pub list_is_empty : ItemList → Option Bool
unfolding no_item
list_is_empty l = elim l.items [ none ↦ some true | some cells ↦ no_item cells ]

-- `list_count`.
unfoldable pub count_cells : List Cell → ℕ → Option ℕ
count_cells [] size = none
count_cells (list_end ∷ cells) size = some size
count_cells (free_item ∷ cells) size = count_cells cells size
count_cells (item p ∷ cells) size = count_cells cells (suc size)

unfoldable pub list_count : ItemList → Option ℕ
unfolding count_cells
list_count l = elim l.items [ none ↦ some 0 | some cells ↦ count_cells cells 0 ]

-- The loop of `list_flatten`, which fills `memory` from index `i` on, `items` items at most.
unfoldable pub flatten_cells : List Cell → List ℕ → ℕ → ℕ → Option (List ℕ)
flatten_cells [] memory i items = none
flatten_cells (list_end ∷ cells) memory i items = some memory
flatten_cells (free_item ∷ cells) memory i items =
    let rest = flatten_cells cells memory i items in if ltb i items then rest else some memory
flatten_cells (item p ∷ cells) memory i items =
    let rest = flatten_cells cells (set memory i p) (suc i) items in
    if ltb i items then rest else some memory

-- `list_flatten`, which reads the array without a test for NULL.
unfoldable pub list_flatten : ItemList → List ℕ → ℕ → Option (List ℕ)
unfolding flatten_cells
list_flatten l memory items = elim l.items [
  | none ↦ none
  | some cells ↦ flatten_cells cells memory 0 items
]

-- The loop of `list_iter_next`: the next item and the cells behind it.
unfoldable pub next_item : List Cell → Option (Option (ℕ × List Cell))
next_item [] = none
next_item (list_end ∷ cells) = some none
next_item (free_item ∷ cells) = next_item cells
next_item (item p ∷ cells) = some (some (p, cells))

abbrev pub iter_start : ItemList → Option (List Cell) → Option (List Cell)
iter_start l none = l.items
iter_start l (some cells) = some cells

-- `list_iter_next`: `iter` points at the cells that are left, and is NULL before the first call.
unfoldable pub list_iter_next :
    ItemList → Option (List Cell) → Option (Option ℕ × Option (List Cell))
unfolding next_item
list_iter_next l iter = elim (iter_start l iter) [
  | none ↦ some (none, iter)
  | some list ↦ elim (next_item list) [
    | none ↦ none
    | some none ↦ some (none, iter)
    | some (some (p, rest)) ↦ some (some p, some rest)
  ]
]

-- The loop of `list_pop`: takes the first item and frees its cell.
unfoldable pub pop_cells : List Cell → Option (Option ℕ × List Cell)
pop_cells [] = none
pop_cells (list_end ∷ cells) = some (none, list_end ∷ cells)
pop_cells (free_item ∷ cells) = elim (pop_cells cells) [
  | none ↦ none
  | some (r, cells') ↦ some (r, free_item ∷ cells')
]
pop_cells (item p ∷ cells) = some (some p, free_item ∷ cells)

unfoldable pub list_pop : ItemList → Option (Option ℕ × ItemList)
unfolding pop_cells
list_pop l = elim l.items [
  | none ↦ some (none, l)
  | some cells ↦ elim (pop_cells cells) [
    | none ↦ none
    | some (r, cells') ↦ some (r, of_cells cells')
  ]
]
