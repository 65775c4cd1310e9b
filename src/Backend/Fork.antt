-- ===== src/Backend/Fork.antt =====
-- src/libfrozen/core/backend.c: `backend_insert`, which puts a chain between a backend and its childs, and
-- `backend_fork`, which copies a backend with all that is below it. Recursion and loops are on fuel.
use frozen.Base.{ℕ, zero, suc, Bool, Option, none, some, List, [], ◌∷◌, if◌then◌else◌, replicate}
use frozen.ItemList.{Cell, ItemList, list_count, list_flatten, list_iter_next}
use frozen.Backend.{
  Graph, Op, ◌>>◌, backend_connect, backend_disconnect, drop_childs, backend_clone,
  backend_free_skeleton, backend_destroy,
}

-- For each backend of an array.
unfoldable pub each : (ℕ → Op) → List ℕ → Op
each f [] g = some g
each f (b ∷ bs) g = (f b >> each f bs) g

-- The copies in the order that they were made.
abbrev pub in_order : List ℕ → List ℕ → List ℕ
in_order [] copies = copies
in_order (c ∷ done) copies = in_order done (c ∷ copies)

-- What is left of a list after a step of `list_iter_next`, and the item.
abbrev pub next_of : ItemList → Option (List Cell) → Option (Option (ℕ × Option (List Cell)))
next_of l iter = elim (list_iter_next l iter) [
  | none ↦ none
  | some (none, iter') ↦ some none
  | some (some b, iter') ↦ some (some (b, iter'))
]

module _ (junk : Cell) where
  -- The loop over `new_childs`, the childs of `parent`.
  unfoldable pub connect_each : ℕ → ℕ → ℕ → Option (List Cell) → Op
  unfolding backend_connect list_iter_next
  connect_each zero backend parent iter g = none
  connect_each (suc fuel) backend parent iter g =
      if g.live parent
      then elim (next_of (g.childs parent) iter) [
        | none ↦ none
        | some none ↦ some g
        | some (some (child, iter')) ↦
            (backend_connect junk backend (some child) >> connect_each fuel backend parent iter') g
      ]
      else none

  -- `backend_add_terminators` of `backend`, with the childs of `parent`, and its loop over the childs.
  unfoldable mutual
    unfolding connect_each list_count list_iter_next

    pub backend_add_terminators : ℕ → ℕ → ℕ → Op
    backend_add_terminators zero backend parent g = none
    backend_add_terminators (suc fuel) backend parent g =
        if g.live backend
        then elim (list_count (g.childs backend)) [
          | none ↦ none
          | some zero ↦ connect_each fuel backend parent none g
          | some (suc n) ↦ add_each fuel backend parent none g
        ]
        else none

    pub add_each : ℕ → ℕ → ℕ → Option (List Cell) → Op
    add_each zero backend parent iter g = none
    add_each (suc fuel) backend parent iter g =
        if g.live backend
        then elim (next_of (g.childs backend) iter) [
          | none ↦ none
          | some none ↦ some g
          | some (some (child, iter')) ↦
              (backend_add_terminators fuel child parent >> add_each fuel backend parent iter') g
        ]
        else none

  unfoldable pub backend_insert : ℕ → ℕ → ℕ → Op
  unfolding backend_add_terminators drop_childs backend_connect
  backend_insert fuel parent new_child =
      backend_add_terminators fuel new_child parent
      >> drop_childs junk fuel parent
      >> backend_connect junk parent (some new_child)

  -- From `error_init` on.
  unfoldable pub unfork : ℕ → List ℕ → Graph → Option (Option ℕ × Graph)
  unfolding each backend_disconnect backend_free_skeleton
  unfork backend_curr childs_list g =
      elim ((each (λ c. backend_disconnect junk backend_curr (some c)) childs_list
          >> backend_free_skeleton backend_curr)
        g) [ none ↦ none | some g' ↦ some (none, g') ]

  -- `malloc` gives the address of the next backend, `func_init` says whether that of a backend returns 0
  -- (or is NULL), and `func_fork` whether that of a copy of a backend does, or else `func_configure`.
  module _ (malloc : Graph → ℕ) (func_init : ℕ → Bool) (func_fork : ℕ → ℕ → Bool) where
    -- `backend_fork_rec` with its first loop, over the childs that are left; `done` are those copied,
    -- the last one first. `none` in the result is NULL.
    unfoldable mutual
      unfolding unfork each backend_clone backend_connect backend_disconnect backend_free_skeleton
          backend_destroy list_count list_flatten

      pub backend_fork_rec : ℕ → ℕ → Graph → Option (Option ℕ × Graph)
      backend_fork_rec zero backend g = none
      backend_fork_rec (suc fuel) backend g =
          if g.live backend
          then elim (list_count (g.childs backend)) [
            | none ↦ none
            | some zero ↦ fork_childs fuel backend [] [] g
            | some (suc n) ↦ elim (list_flatten (g.childs backend) (replicate (suc n) 0) (suc n)) [
              | none ↦ none
              | some childs_list ↦ fork_childs fuel backend childs_list [] g
            ]
          ]
          else none

      pub fork_childs : ℕ → ℕ → List ℕ → List ℕ → Graph → Option (Option ℕ × Graph)
      fork_childs zero backend childs done g = none
      fork_childs (suc fuel) backend (child ∷ childs) done g =
          elim (backend_fork_rec fuel child g) [
            | none ↦ none
            | some (none, g') ↦ elim (each (backend_destroy junk fuel) done g') [
              | none ↦ none
              | some g'' ↦ some (none, g'')
            ]
            | some (some copy, g') ↦ fork_childs fuel backend childs (copy ∷ done) g'
          ]
      fork_childs (suc fuel) backend [] done g =
          let backend_curr = malloc g in
          let childs_list = in_order done [] in
          elim ((backend_clone junk backend_curr none
              >> each (λ c. backend_connect junk backend_curr (some c)) childs_list)
            g) [
              | none ↦ none
              | some g' ↦
                  if func_init backend_curr
                  then (if func_fork backend_curr backend
                      then some (some backend_curr, g')
                      else unfork backend_curr childs_list g')
                  else unfork backend_curr childs_list g'
            ]
