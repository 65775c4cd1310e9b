-- ===== src/Backend.antt =====
-- src/libfrozen/core/backend.c: the graph of backends. A backend is an address; the fields of
-- `backend_t` are maps from addresses, and `live` says which addresses hold a backend that is not
-- freed. An access to any other address is a fault, `none`, and so is a loop that its fuel does not
-- end. A backend's own `func_destroy` is taken to leave the graph as it is, and allocations to succeed.
pub mod Linked
pub mod Edges
pub mod Connect
pub mod Upto
pub mod Free
pub mod Lifetime
pub mod Drop
pub mod Reach
pub mod Reference
pub mod Teardown
pub mod Childs
pub mod Destroy
pub mod Registry
pub mod Find
pub mod Build
pub mod Fork
pub mod Chains
pub mod Make
pub mod Request
pub mod Answers
pub mod Broadcast
mod Tests
mod ChainTests
use frozen.Base.{
  ℕ, zero, suc, ◌+◌, ◌-◌, Bool, true, false, Option, none, some, List, [], ◌∷◌, ◌==◌, ◌&&◌,
  if◌then◌else◌, add64, sub64,
}
use frozen.ItemList.{
  Cell, free_item, item, ItemList, list_init, list_destroy, list_add, list_delete, list_is_empty,
  list_pop,
}

pub record Graph : Type 0 where
  pub live : ℕ → Bool
  pub name : ℕ → Option (List ℕ)
  pub refs : ℕ → ℕ
  pub parents : ℕ → ItemList
  pub childs : ℕ → ItemList
  pub backends_top : ItemList
  pub backends_names : ItemList

-- `backend->name` is not NULL.
abbrev pub is_some : Option (List ℕ) → Bool
is_some none = false
is_some (some s) = true

abbrev pub named : Graph → ℕ → Bool
named g b = is_some (g.name b)

abbrev pub upd {ℓ} : {A : Type ℓ} → (ℕ → A) → ℕ → A → ℕ → A
upd f b v x = if b == x then v else f x

abbrev pub Op : Type 0
Op = Graph → Option Graph

infixl 5 ◌>>◌
abbrev pub ◌>>◌ : Op → Op → Op
◌>>◌ f k g = elim (f g) [ none ↦ none | some g' ↦ k g' ]

abbrev pub skip : Op
skip g = some g

-- A call of a list operation on one of the lists.
abbrev pub on_top : (ItemList → Option ItemList) → Op
on_top f g = elim (f g.backends_top) [ none ↦ none | some l ↦ some (record g { backends_top = l }) ]

abbrev pub on_names : (ItemList → Option ItemList) → Op
on_names f g = elim (f g.backends_names) [
  | none ↦ none
  | some l ↦ some (record g { backends_names = l })
]

abbrev pub on_childs : ℕ → (ItemList → Option ItemList) → Op
on_childs b f g =
    if g.live b
    then elim (f (g.childs b)) [
      | none ↦ none
      | some l ↦ some (record g { childs = upd g.childs b l })
    ]
    else none

abbrev pub on_parents : ℕ → (ItemList → Option ItemList) → Op
on_parents b f g =
    if g.live b
    then elim (f (g.parents b)) [
      | none ↦ none
      | some l ↦ some (record g { parents = upd g.parents b l })
    ]
    else none

-- What LIST_FREE_ITEM or the address of a backend is as an item; `none` is LIST_FREE_ITEM.
abbrev pub cell_of : Option ℕ → Cell
cell_of none = free_item
cell_of (some b) = item b

unfoldable pub backend_ref_inc : ℕ → Op
backend_ref_inc b g =
    if g.live b then some (record g { refs = upd g.refs b (add64 (g.refs b) 1) }) else none

unfoldable pub backend_untop : ℕ → Op
backend_untop b = on_top (λ l. list_delete l (item b))

-- `backend_free_skeleton`.
unfoldable pub backend_free_skeleton : ℕ → Op
unfolding backend_untop list_destroy
backend_free_skeleton b =
    backend_untop b
    >> (λ g. if g.live b then some g else none)
    >> (λ g. if named g b then on_names (λ l. list_delete l (item b)) g else some g)
    >> (λ g. some (record g {
      live = upd g.live b false;
      childs = upd g.childs b (list_destroy (g.childs b));
      parents = upd g.parents b (list_destroy (g.parents b));
    }))

-- `realloc` in the list operations fills new words with `junk`.
module _ (junk : Cell) where
  unfoldable pub backend_top : ℕ → Op
  unfolding backend_untop
  backend_top b g =
      if g.live b
      then elim (list_is_empty (g.parents b)) [
        | none ↦ none
        | some false ↦ some g
        | some true ↦ (backend_untop b >> on_top (λ l. list_add junk l (item b))) g
      ]
      else none

  -- `backend_clone`, at the address that `malloc` returns, with the name that it copies.
  unfoldable pub backend_clone : ℕ → Option (List ℕ) → Op
  unfolding list_init
  backend_clone b name g = some (record g {
    live = upd g.live b true;
    name = upd g.name b name;
    refs = upd g.refs b 1;
    parents = upd g.parents b list_init;
    childs = upd g.childs b list_init;
  })

  -- `backend_new_skeleton`, where the class is found.
  unfoldable pub backend_new_skeleton : ℕ → Option (List ℕ) → Op
  unfolding backend_clone
  backend_new_skeleton b name =
      backend_clone b name
      >> (λ g. if is_some name then on_names (λ l. list_add junk l (item b)) g else some g)

  unfoldable pub backend_connect : ℕ → Option ℕ → Op
  unfolding backend_top backend_untop
  backend_connect parent child =
      on_childs parent (λ l. list_add junk l (cell_of child)) >> backend_top parent >> elim child [
        | none ↦ skip
        | some c ↦ backend_untop c >> on_parents c (λ l. list_add junk l (item parent))
      ]

  unfoldable pub backend_disconnect : ℕ → Option ℕ → Op
  unfolding backend_top backend_untop
  backend_disconnect parent child =
      backend_untop parent >> on_childs parent (λ l. list_delete l (cell_of child)) >> elim child [
        | none ↦ skip
        | some c ↦ on_parents c (λ l. list_delete l (item parent)) >> backend_top c
      ]

  -- `while( (curr = list_pop(&backend->parents)) != NULL) backend_disconnect(curr, backend);`.
  unfoldable pub drop_parents : ℕ → ℕ → Op
  unfolding backend_disconnect
  drop_parents zero b g = none
  drop_parents (suc fuel) b g =
      if g.live b
      then elim (list_pop (g.parents b)) [
        | none ↦ none
        | some (curr, l) ↦
            let g' = record g { parents = upd g.parents b l } in
            elim curr [
              | none ↦ some g'
              | some p ↦ (backend_disconnect p (some b) >> drop_parents fuel b) g'
            ]
      ]
      else none

  -- `while( (child = list_pop(&parent->childs)) != NULL) backend_disconnect(parent, child);`.
  unfoldable pub drop_childs : ℕ → ℕ → Op
  unfolding backend_disconnect
  drop_childs zero b g = none
  drop_childs (suc fuel) b g =
      if g.live b
      then elim (list_pop (g.childs b)) [
        | none ↦ none
        | some (curr, l) ↦
            let g' = record g { childs = upd g.childs b l } in
            elim curr [
              | none ↦ some g'
              | some c ↦ (backend_disconnect b (some c) >> drop_childs fuel b) g'
            ]
      ]
      else none

  -- `backend_destroy` with its loop over the childs, on fuel.
  unfoldable mutual
    unfolding drop_parents backend_free_skeleton

    pub backend_destroy : ℕ → ℕ → Op
    backend_destroy zero b g = none
    backend_destroy (suc fuel) b g =
        if g.live b
        then (let refs = sub64 (g.refs b) 1 in
            let g' = record g { refs = upd g.refs b refs } in
            if refs == 0
            then (destroy_childs fuel b >> drop_parents fuel b >> backend_free_skeleton b) g'
            else some g')
        else none

    pub destroy_childs : ℕ → ℕ → Op
    destroy_childs zero b g = none
    destroy_childs (suc fuel) b g =
        if g.live b
        then elim (list_pop (g.childs b)) [
          | none ↦ none
          | some (curr, l) ↦
              let g' = record g { childs = upd g.childs b l } in
              elim curr [
                | none ↦ some g'
                | some c ↦ (backend_destroy fuel c >> destroy_childs fuel b) g'
              ]
        ]
        else none

  -- `backend_destroy_all`.
  unfoldable pub destroy_tops : ℕ → Op
  unfolding backend_destroy
  destroy_tops zero g = none
  destroy_tops (suc fuel) g = elim (list_pop g.backends_top) [
    | none ↦ none
    | some (curr, l) ↦
        let g' = record g { backends_top = l } in
        elim curr [ none ↦ some g' | some b ↦ (backend_destroy fuel b >> destroy_tops fuel) g' ]
  ]

  unfoldable pub backend_destroy_all : ℕ → Op
  unfolding destroy_tops list_destroy
  backend_destroy_all fuel =
      destroy_tops fuel
      >> on_top (λ l. some (list_destroy l))
      >> on_names (λ l. some (list_destroy l))
