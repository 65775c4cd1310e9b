-- ===== src/ItemList/Remove.antt =====
-- `list_delete` and `list_pop` of list.c: which item goes.
use frozen.Base.{
  ℕ, ◌≡◌, refl, ap, Option, none, some, List, [], ◌∷◌, ◌==◌, if◌then◌else◌, Bool-cases, inl, inr,
}
use frozen.ItemList.{
  Cell, list_end, free_item, item, ItemList, of_cells, delete_cells, list_delete, pop_cells,
  list_pop,
}
use frozen.ItemList.View.{live, IsEnded, IsList, view}

-- Drops the first `p`.
abbrev pub erase : ℕ → List ℕ → List ℕ
erase p [] = []
erase p (q ∷ qs) = if q == p then qs else q ∷ erase p qs

delete_cells_lem :
    (p : ℕ) (cells : List Cell)
    → IsEnded cells
    → (cells' : List Cell) × (delete_cells cells (item p) ≡ some cells')
      × IsEnded cells'
      × (live cells' ≡ erase p (live cells))
unfolding delete_cells
delete_cells_lem p [] e = absurd e
delete_cells_lem p (list_end ∷ cells) e = (list_end ∷ cells, refl, tt, refl)
delete_cells_lem p (free_item ∷ cells) e =
    let (cells', eq, ended, lv) = delete_cells_lem p cells e in
    (free_item ∷ cells', rw eq, ended, lv)
delete_cells_lem p (item q ∷ cells) e = elim (Bool-cases (q == p)) [
  | inl hit ↦ (free_item ∷ cells, rw hit, e, rw hit)
  | inr miss ↦
      let (cells', eq, ended, lv) = delete_cells_lem p cells e in
      (item q ∷ cells', rw (miss, eq), ended, rw miss (ap (λ t. q ∷ t) lv))
]

-- On a list that is NULL or ended, `list_delete` of an item succeeds, keeps the list ended, and drops
-- the first occurrence of the item and nothing else.
pub list_delete-erase :
    (p : ℕ) (l : ItemList)
    → IsList l
    → (l' : ItemList) × (list_delete l (item p) ≡ some l')
      × IsList l'
      × (view l' ≡ erase p (view l))
unfolding list_delete
list_delete-erase p l = go l.items
  where
    go :
        (items : Option (List Cell))
        → let l : ItemList = record { items = items } in
          IsList l
          → (l' : ItemList) × (list_delete l (item p) ≡ some l')
            × IsList l'
            × (view l' ≡ erase p (view l))
    go none h = (_, refl, tt, refl)
    go (some cells) h =
        let (cells', eq, ended, lv) = delete_cells_lem p cells h in
        (of_cells cells', rw (eq, list_delete), ended, lv)

abbrev pub head_of : List ℕ → Option ℕ
head_of [] = none
head_of (p ∷ ps) = some p

abbrev pub tail_of : List ℕ → List ℕ
tail_of [] = []
tail_of (p ∷ ps) = ps

pop_cells_lem :
    (cells : List Cell)
    → IsEnded cells
    → (cells' : List Cell) × (pop_cells cells ≡ some (head_of (live cells), cells'))
      × IsEnded cells'
      × (live cells' ≡ tail_of (live cells))
unfolding pop_cells
pop_cells_lem [] e = absurd e
pop_cells_lem (list_end ∷ cells) e = (list_end ∷ cells, refl, tt, refl)
pop_cells_lem (free_item ∷ cells) e =
    let (cells', eq, ended, lv) = pop_cells_lem cells e in (free_item ∷ cells', rw eq, ended, lv)
pop_cells_lem (item q ∷ cells) e = (free_item ∷ cells, refl, e, refl)

-- On a list that is NULL or ended, `list_pop` returns the first item, or NULL if there is none, keeps
-- the list ended, and leaves the other items in order.
pub list_pop-head :
    (l : ItemList)
    → IsList l
    → (l' : ItemList) × (list_pop l ≡ some (head_of (view l), l'))
      × IsList l'
      × (view l' ≡ tail_of (view l))
unfolding list_pop
list_pop-head l = go l.items
  where
    go :
        (items : Option (List Cell))
        → let l : ItemList = record { items = items } in
          IsList l
          → (l' : ItemList) × (list_pop l ≡ some (head_of (view l), l'))
            × IsList l'
            × (view l' ≡ tail_of (view l))
    go none h = (_, refl, tt, refl)
    go (some cells) h =
        let (cells', eq, ended, lv) = pop_cells_lem cells h in
        (of_cells cells', rw (eq, list_pop), ended, lv)
