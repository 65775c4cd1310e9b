-- ===== src/ItemList/Tests.antt =====
-- The list on small arrays.
use frozen.Base.{◌≡◌, refl, none, some, [], ◌∷◌, ◌++◌, arith}
use frozen.ItemList.{
  list_end, free_item, item, ItemList, list_init, list_destroy, list_add, list_push, list_delete,
  list_pop, of_cells,
}
use frozen.ItemList.View.{view, IsList}
use frozen.ItemList.Add.{list_add-Added, list_push-Added, Added}
use frozen.ItemList.Remove.{erase, list_delete-erase, list_pop-head, head_of, tail_of}
use frozen.ItemList.Walk.{iterate, iterate-view}

abbrev two_items : ItemList
two_items = of_cells (item 7 ∷ free_item ∷ item 9 ∷ list_end ∷ [])

abbrev full : ItemList
full = of_cells (item 7 ∷ item 9 ∷ list_end ∷ [])

test_reuse :
    list_add list_end two_items (item 5)
    ≡ some (of_cells (item 7 ∷ item 5 ∷ item 9 ∷ list_end ∷ []))
unfolding list_add
test_reuse = refl

test_push_full :
    list_push list_end full (item 5) ≡ some (of_cells (item 5 ∷ item 7 ∷ item 9 ∷ list_end ∷ []))
unfolding list_push
test_push_full = refl

test_init : list_pop (list_destroy list_init) ≡ some (none, list_init)
unfolding list_pop list_destroy list_init
test_init = refl

list_add-Added_example :
    (l' : ItemList) × (list_add free_item full (item 5) ≡ some l')
    × Added (view full ++ (5 ∷ [])) 5 full l'
list_add-Added_example = list_add-Added free_item 5 full tt

list_push-Added_example :
    (l' : ItemList) × (list_push free_item full (item 5) ≡ some l')
    × Added (5 ∷ view full) 5 full l'
list_push-Added_example = list_push-Added free_item 5 full tt

list_delete-erase_example :
    (l' : ItemList) × (list_delete two_items (item 9) ≡ some l')
    × IsList l'
    × (view l' ≡ erase 9 (view two_items))
list_delete-erase_example = list_delete-erase 9 two_items tt

list_pop-head_example :
    (l' : ItemList) × (list_pop two_items ≡ some (head_of (view two_items), l'))
    × IsList l'
    × (view l' ≡ tail_of (view two_items))
list_pop-head_example = list_pop-head two_items tt

iterate-view_example : iterate 3 two_items none ≡ some (view two_items)
iterate-view_example = iterate-view 3 two_items tt (omega arith)
