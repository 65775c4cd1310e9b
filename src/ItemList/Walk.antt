-- ===== src/ItemList/Walk.antt =====
-- The walks of list.c that change nothing: count, emptiness, the copy to memory, the iterator.
use mathlib.Core.List.{append_assoc, append-nil}
use frozen.Base.{
  take_all, drop_all, length-replicate, replicate, take-nil, length-append, length-take, ◌⊎◌, ℕ,
  zero, suc, ◌+◌, ◌≤◌, ◌<◌, ◌≡◌, refl, ap, ◌∙◌, Bool, true, false, Option, none, some, List, [],
  ◌∷◌, ◌++◌, arith, length, set, take, drop, inl, inr, lt→ltb,
}
use frozen.ItemList.{
  Cell, list_end, free_item, item, ItemList, of_cells, no_item, list_is_empty, count_cells,
  list_count, flatten_cells, list_flatten, next_item, iter_start, list_iter_next,
}
use frozen.ItemList.View.{live, IsEnded, IsList, view}

abbrev pub null : List ℕ → Bool
null [] = true
null (p ∷ ps) = false

count_cells_lem :
    (cells : List Cell) (size : ℕ)
    → IsEnded cells
    → count_cells cells size ≡ some (size + length (live cells))
unfolding count_cells
count_cells_lem [] size e = absurd e
count_cells_lem (list_end ∷ cells) size e = ap some (omega arith)
count_cells_lem (free_item ∷ cells) size e = count_cells_lem cells size e
count_cells_lem (item p ∷ cells) size e =
    count_cells_lem cells (suc size) e
    ∙ ap some (
        let s : suc size + length (live cells) ≡ size + suc (length (live cells)) = omega arith in
        s)

no_item_lem : (cells : List Cell) → IsEnded cells → no_item cells ≡ some (null (live cells))
unfolding no_item
no_item_lem [] e = absurd e
no_item_lem (list_end ∷ cells) e = refl
no_item_lem (free_item ∷ cells) e = no_item_lem cells e
no_item_lem (item p ∷ cells) e = refl

-- On a list that is NULL or ended, `list_count` is the number of its items, and `list_is_empty` says
-- whether that is zero.
pub list_count-length :
    (l : ItemList)
    → IsList l
    → (list_count l ≡ some (length (view l))) × (list_is_empty l ≡ some (null (view l)))
unfolding list_count list_is_empty
list_count-length l = go l.items
  where
    go :
        (items : Option (List Cell))
        → let l : ItemList = record { items = items } in
          IsList l
          → (list_count l ≡ some (length (view l))) × (list_is_empty l ≡ some (null (view l)))
    go none h = (refl, refl)
    go (some cells) h = (count_cells_lem cells 0 h ∙ ap some (omega arith), no_item_lem cells h)

-- `memory` with the list written over it from `i` on.
abbrev pub write_at : List ℕ → ℕ → List ℕ → List ℕ
write_at memory i [] = memory
write_at memory i (p ∷ ps) = write_at (set memory i p) (suc i) ps

flatten_cells_lem :
    (k : ℕ) (cells : List Cell) (memory : List ℕ) (i items : ℕ)
    → IsEnded cells
    → i + k ≡ items
    → flatten_cells cells memory i items ≡ some (write_at memory i (take k (live cells)))
unfolding flatten_cells
flatten_cells_lem k [] memory i items e h = absurd e
flatten_cells_lem k (list_end ∷ cells) memory i items e h = rw (take-nil k)
flatten_cells_lem zero (free_item ∷ cells) memory i items e h = ground arith
flatten_cells_lem (suc k) (free_item ∷ cells) memory i items e h =
    rw (lt→ltb i items (omega arith)) (flatten_cells_lem (suc k) cells memory i items e h)
flatten_cells_lem zero (item p ∷ cells) memory i items e h = ground arith
flatten_cells_lem (suc k) (item p ∷ cells) memory i items e h =
    rw (lt→ltb i items (omega arith))
      (flatten_cells_lem k cells (set memory i p) (suc i) items e (omega arith))

set-append :
    (front : List ℕ) (m p : ℕ) (ms : List ℕ)
    → set (front ++ (m ∷ ms)) (length front) p ≡ (front ++ (p ∷ [])) ++ ms
set-append [] m p ms = refl
set-append (f ∷ front) m p ms = ap (λ t. f ∷ t) (set-append front m p ms)

write_at-append :
    (ps front memory : List ℕ)
    → length ps ≤ length memory
    → write_at (front ++ memory) (length front) ps ≡ front ++ (ps ++ drop (length ps) memory)
write_at-append [] front memory h = refl
write_at-append (p ∷ ps) front [] h = absurd (omega arith)
write_at-append (p ∷ ps) front (m ∷ ms) h =
    let n : suc (length front) ≡ length (front ++ (p ∷ [])) =
      omega (arith, length-append front (p ∷ [])) in
    rw (set-append front m p ms, n)
      (write_at-append ps (front ++ (p ∷ [])) ms (omega arith) ∙ append_assoc front (p ∷ []) _)

-- On an ended array, `list_flatten` writes the first `n` items to the front of the memory, and
-- leaves the rest of the memory, if the memory has room for `n`.
pub list_flatten-take :
    (n : ℕ) (cells : List Cell) (memory : List ℕ)
    → IsEnded cells
    → n ≤ length memory
    → list_flatten (of_cells cells) memory n
      ≡ some (take n (live cells) ++ drop (length (take n (live cells))) memory)
unfolding list_flatten
list_flatten-take n cells memory e room =
    flatten_cells_lem n cells memory 0 n e (omega arith)
    ∙ ap some (
        write_at-append (take n (live cells)) [] memory (omega (arith, length-take n (live cells))))

-- On an ended array of `n` items, `list_flatten` of them gives the items.
pub list_flatten-all :
    (n : ℕ) (cells : List Cell)
    → IsEnded cells
    → length (live cells) ≡ n
    → list_flatten (of_cells cells) (replicate n 0) n ≡ some (live cells)
list_flatten-all n cells ended len =
    let room = length-replicate {A = ℕ} n 0 in
    let whole : take n (live cells) ≡ live cells = take_all n (live cells) (omega (arith, len)) in
    let none_left : drop (length (live cells)) (replicate {A = ℕ} n 0) ≡ [] =
      drop_all (length (live cells)) (replicate n 0) (omega (arith, len, room)) in
    list_flatten-take n cells (replicate n 0) ended (omega (arith, room))
    ∙ ap (λ xs. some (xs ++ drop (length xs) (replicate n 0))) whole
    ∙ ap (λ xs. some (live cells ++ xs)) none_left
    ∙ ap some (append-nil (live cells))

-- The loop `while((curr = list_iter_next(clist, &iter)) != NULL)` of the callers, on fuel: the items
-- that it sees.
pub iterate : ℕ → ItemList → Option (List Cell) → Option (List ℕ)
iterate zero l iter = none
iterate (suc fuel) l iter = elim (list_iter_next l iter) [
  | none ↦ none
  | some (none, iter') ↦ some []
  | some (some p, iter') ↦ elim (iterate fuel l iter') [ none ↦ none | some ps ↦ some (p ∷ ps) ]
]

next_item_lem :
    (cells : List Cell)
    → IsEnded cells
    → ((next_item cells ≡ some none) × (live cells ≡ []))
      ⊎ ((p : ℕ) × (rest : List Cell) × (next_item cells ≡ some (some (p, rest)))
          × IsEnded rest
          × (live cells ≡ p ∷ live rest))
unfolding next_item
next_item_lem [] e = absurd e
next_item_lem (list_end ∷ cells) e = inl (refl, refl)
next_item_lem (free_item ∷ cells) e = next_item_lem cells e
next_item_lem (item p ∷ cells) e = inr (p, cells, refl, e, refl)

pub iter_next_lem :
    (l : ItemList) (iter : Option (List Cell)) (cells : List Cell)
    → iter_start l iter ≡ some cells
    → IsEnded cells
    → ((list_iter_next l iter ≡ some (none, iter)) × (live cells ≡ []))
      ⊎ ((p : ℕ) × (rest : List Cell) × (list_iter_next l iter ≡ some (some p, some rest))
          × IsEnded rest
          × (live cells ≡ p ∷ live rest))
unfolding list_iter_next
iter_next_lem l iter cells start e = elim (next_item_lem cells e) [
  | inl (eq, lv) ↦ inl (rw (start, eq, list_iter_next), lv)
  | inr (p, rest, eq, ended, lv) ↦ inr (p, rest, rw (start, eq, list_iter_next), ended, lv)
]

iterate_cells :
    (fuel : ℕ) (l : ItemList) (iter : Option (List Cell)) (cells : List Cell)
    → iter_start l iter ≡ some cells
    → IsEnded cells
    → length (live cells) < fuel
    → iterate fuel l iter ≡ some (live cells)
unfolding iterate
iterate_cells zero l iter cells start e h = absurd (omega arith)
iterate_cells (suc fuel) l iter cells start e h = elim (iter_next_lem l iter cells start e) [
  | inl (eq, lv) ↦ rw (eq, lv, iterate)
  | inr (p, rest, eq, ended, lv) ↦
      let n : length (live rest) < fuel = omega (arith, ap (length {A = ℕ}) lv) in
      rw (eq, lv, iterate) (rw (iterate_cells fuel l (some rest) rest refl ended n))
]

-- On a list that is NULL or ended, a loop over `list_iter_next` from NULL ends, and sees each item
-- once, in order.
pub iterate-view :
    (fuel : ℕ) (l : ItemList)
    → IsList l
    → length (view l) < fuel
    → iterate fuel l none ≡ some (view l)
unfolding iterate list_iter_next
iterate-view fuel l = go fuel l.items
  where
    go :
        (fuel : ℕ) (items : Option (List Cell))
        → let l : ItemList = record { items = items } in
          IsList l → length (view l) < fuel → iterate fuel l none ≡ some (view l)
    go zero items h n = absurd (omega arith)
    go (suc fuel) none h n = refl
    go (suc fuel) (some cells) h n = iterate_cells (suc fuel) _ none cells refl h n
