-- ===== src/ItemList/FreeItem.antt =====
-- `list_add` and `list_delete` of list.c with LIST_FREE_ITEM in place of an item.
use frozen.Base.{◌≡◌, refl, sym, ap, ◌∙◌, Option, none, some, List, [], ◌∷◌, ◌++◌, length, set}
use frozen.ItemList.{
  Cell, list_end, free_item, item, ItemList, of_cells, add_at_end, list_add, delete_cells,
  list_delete,
}
use frozen.ItemList.View.{
  live, IsEnded, IsList, view, items_of, live-items_of, IsEnded-items_of, Slot, Slot-of, free_slot,
  end_slot,
}
use frozen.ItemList.Add.{set-items, add_at_end-items}

add-Slot :
    (junk : Cell) (cells : List Cell)
    → Slot cells
    → (l' : ItemList) × (list_add junk (of_cells cells) free_item ≡ some l')
      × IsList l'
      × (view l' ≡ live cells)
unfolding list_add
add-Slot junk cells (free_slot ps rest e ended f) =
    let now : set cells (length ps) free_item ≡ items_of ps ++ (free_item ∷ rest) =
      ap (λ t. set t (length ps) free_item) e ∙ set-items free_item free_item rest ps in
    (
      of_cells (items_of ps ++ (free_item ∷ rest)),
      rw (list_add, f, now),
      IsEnded-items_of ps (free_item ∷ rest) ended,
      ap live (sym e),
    )
add-Slot junk cells (end_slot ps rest e f) =
    let now : add_at_end junk cells (length ps) free_item
        ≡ items_of ps ++ (free_item ∷ list_end ∷ []) =
      ap (λ t. add_at_end junk t (length ps) free_item) e
      ∙ add_at_end-items junk ps rest free_item in
    (
      of_cells (items_of ps ++ (free_item ∷ list_end ∷ [])),
      rw (list_add, f, now),
      IsEnded-items_of ps (free_item ∷ list_end ∷ []) tt,
      live-items_of ps (free_item ∷ list_end ∷ [])
          ∙ sym (ap live e ∙ live-items_of ps (list_end ∷ rest)),
    )

-- `list_add` of LIST_FREE_ITEM adds no item.
pub list_add-free :
    (junk : Cell) (l : ItemList)
    → IsList l
    → (l' : ItemList) × (list_add junk l free_item ≡ some l') × IsList l' × (view l' ≡ view l)
unfolding list_add
list_add-free junk l = go l.items
  where
    go :
        (items : Option (List Cell))
        → let l : ItemList = record { items = items } in
          IsList l
          → (l' : ItemList) × (list_add junk l free_item ≡ some l') × IsList l' × (view l' ≡ view l)
    go none h = (_, refl, tt, refl)
    go (some cells) h = add-Slot junk cells (Slot-of cells h)

delete_free :
    (cells : List Cell)
    → IsEnded cells
    → (cells' : List Cell) × (delete_cells cells free_item ≡ some cells')
      × IsEnded cells'
      × (live cells' ≡ live cells)
unfolding delete_cells
delete_free [] e = absurd e
delete_free (list_end ∷ cells) e = (_, refl, tt, refl)
delete_free (free_item ∷ cells) e = (_, refl, e, refl)
delete_free (item p ∷ cells) e =
    let (cells', eq, ended, lv) = delete_free cells e in
    (item p ∷ cells', rw eq, ended, ap (λ t. p ∷ t) lv)

-- `list_delete` of LIST_FREE_ITEM deletes no item.
pub list_delete-free :
    (l : ItemList)
    → IsList l
    → (l' : ItemList) × (list_delete l free_item ≡ some l') × IsList l' × (view l' ≡ view l)
unfolding list_delete
list_delete-free l = go l.items
  where
    go :
        (items : Option (List Cell))
        → let l : ItemList = record { items = items } in
          IsList l
          → (l' : ItemList) × (list_delete l free_item ≡ some l') × IsList l' × (view l' ≡ view l)
    go none h = (_, refl, tt, refl)
    go (some cells) h =
        let (cells', eq, ended, lv) = delete_free cells h in
        (of_cells cells', rw (list_delete, eq), ended, lv)
