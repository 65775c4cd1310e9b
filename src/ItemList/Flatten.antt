-- ===== src/ItemList/Flatten.antt =====
-- `list_count` and `list_flatten` of list.c, as the callers use them: a copy of all the items.
use frozen.Base.{
  ℕ, zero, suc, ◌≡◌, refl, sym, ap, ◌∙◌, Option, none, some, List, [], ◌∷◌, arith, length,
  replicate,
}
use frozen.ItemList.{Cell, ItemList, of_cells, list_count, list_flatten}
use frozen.ItemList.View.{IsList, IsEnded, live, view}
use frozen.ItemList.Walk.{list_count-length, list_flatten-all}

-- What `list_count` and then `list_flatten` of so many items give.
pub data Flattened (l : ItemList) : Type 0 where
  no_items : list_count l ≡ some 0 → view l ≡ [] → Flattened l
  all_items :
      (n : ℕ)
      → list_count l ≡ some (suc n)
      → list_flatten l (replicate (suc n) 0) (suc n) ≡ some (view l)
      → Flattened l

no_items_left : (xs : List ℕ) → length xs ≡ 0 → xs ≡ []
no_items_left [] e = refl
no_items_left (x ∷ xs) e = absurd (omega (arith, e))

cells-Flattened :
    (cells : List Cell)
    → IsEnded cells
    → (n : ℕ) → n ≡ length (live cells)
    → Flattened (of_cells cells)
cells-Flattened cells ended zero len =
    no_items ((list_count-length (of_cells cells) ended).0 ∙ ap some (sym len))
      (no_items_left (live cells) (sym len))
cells-Flattened cells ended (suc n) len =
    all_items n ((list_count-length (of_cells cells) ended).0 ∙ ap some (sym len))
      (list_flatten-all (suc n) cells ended (sym len))

pub flatten-Flattened : (l : ItemList) → IsList l → Flattened l
unfolding list_count
flatten-Flattened l h = go l.items h
  where
    go :
        (items : Option (List Cell))
        → let l : ItemList = record { items = items } in IsList l → Flattened l
    go none h = no_items refl refl
    go (some cells) h = cells-Flattened cells h (length (live cells)) refl
