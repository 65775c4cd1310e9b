-- ===== src/Backend/ChainTests.antt =====
-- Concrete chains of backends: made from a configuration, found by name, inserted and forked.
use frozen.Base.{
  subst, ℕ, ◌<◌, ◌≡◌, refl, true, false, Option, none, some, List, [], ◌∷◌, ◌==◌, ◌&&◌,
  if◌then◌else◌, arith, length,
}
use frozen.ItemList.{
  free_item, list_init, list_add, list_delete, list_pop, list_is_empty, list_iter_next, list_count,
  list_flatten,
}
use frozen.ItemList.View.{view}
use frozen.Hash.{HashRef, item, end, null, ref}
use frozen.Backend.{Graph, backend_new_skeleton, backend_connect}
use frozen.Backend.Linked.{IsLinked}
use frozen.Backend.Registry.{class_strcmp, backend_find}
use frozen.Backend.Find.{IsNamed, backend_find-IsNamed}
use frozen.Backend.Build.{NewCtx, new_backend, backend_new}
use frozen.Backend.Fork.{backend_insert, backend_fork_rec}
use frozen.Backend.Make.{Stepped, new_backend-Stepped}
use frozen.Backend.Reach.{empty_graph}
use frozen.Backend.Tests.{linked_12, linked_12-IsLinked, live_2}

-- Addresses from 1 on.
abbrev next_free : Graph → ℕ
next_free g =
    if g.live 1
    then (if g.live 2 then (if g.live 3 then (if g.live 4 then 5 else 4) else 3) else 2)
    else 1

test_class : class_strcmp (97 ∷ 47 ∷ 98 ∷ []) (98 ∷ []) ≡ true
unfolding class_strcmp
test_class = refl

names_12 : length (view (linked_12.backends_names)) < 2
unfolding linked_12 empty_graph backend_new_skeleton backend_connect list_add list_is_empty
    list_delete list_init
names_12 = omega arith

backend_find-IsNamed_example :
    (r : Option ℕ) × (backend_find 2 (some (97 ∷ [])) linked_12 ≡ some r)
    × IsNamed linked_12 (97 ∷ []) r
backend_find-IsNamed_example =
    backend_find-IsNamed 2 (97 ∷ []) linked_12 linked_12-IsLinked names_12

abbrev ctx_12 : NewCtx
ctx_12 = record { graph = linked_12; backends = record { items = none }; backend_prev = some 2 }

free_12 : linked_12.live (next_free linked_12) ≡ false
unfolding linked_12 empty_graph backend_new_skeleton backend_connect list_add list_is_empty
    list_delete list_init
free_12 = refl

prev_12 : (c : ℕ) → some 2 ≡ some c → linked_12.live c ≡ true
prev_12 c e = let same : 2 ≡ c = cc in subst (λ t. linked_12.live t ≡ true) same live_2

new_backend-Stepped_example :
    (r : Option ℕ) × (ctx' : NewCtx) × (new_backend free_item next_free
        (λ b. true)
        (λ b. false)
        none
        ctx_12
      ≡ some (r, ctx'))
    × IsLinked ctx'.graph
    × Stepped (next_free linked_12) ctx_12 ctx' (true && false) r
new_backend-Stepped_example =
    new_backend-Stepped free_item next_free (λ b. true) (λ b. false) none ctx_12 linked_12-IsLinked
      tt free_12 prev_12

-- A configuration of some items with a class, for which all but backend 3 can be configured.
abbrev config_of : ℕ → HashRef
config_of n =
    let rest = if n == 3 then item 1 (record { type = 9; ptr = 3 }) (end null) else end null in
    ref (item 1 (record { type = 9; ptr = 1 }) (item 1 (record { type = 9; ptr = 2 }) rest))

abbrev class_only : HashRef → ℕ → Option (List ℕ)
class_only h key = if key == 8 then some (97 ∷ []) else none

abbrev new_from : HashRef → Option (Option ℕ × Graph)
new_from config =
    backend_new free_item next_free (λ b. true) (λ b. if b == 3 then false else true) 9 (λ p. null)
      class_only 7 8 (λ p. some (97 ∷ [])) (50 ∷ []) (record { items = none }) 9 config empty_graph

abbrev made : Option (Option ℕ × Graph) → Option (Option ℕ × List ℕ)
made r = elim r [ none ↦ none | some (b, g) ↦ some (b, view (g.childs 2)) ]

test_new : made (new_from (config_of 2)) ≡ some (some 2, 1 ∷ [])
unfolding backend_new empty_graph list_add list_is_empty list_delete list_pop
test_new = refl

-- The third backend fails: the first one is freed while the second one has it as a child, and is then
-- disconnected from it.
test_new_fault : made (new_from (config_of 3)) ≡ none
unfolding backend_new empty_graph list_add list_is_empty list_delete list_pop
test_new_fault = refl

abbrev childs_after : Option Graph → ℕ → List ℕ
childs_after r b = elim r [ none ↦ [] | some g ↦ view (g.childs b) ]

test_insert : childs_after (backend_insert free_item 9 1 3 linked_12) 3 ≡ 2 ∷ []
unfolding backend_insert linked_12 empty_graph backend_new_skeleton backend_connect list_add
    list_is_empty list_delete list_init list_count list_iter_next list_pop
test_insert = refl

abbrev forked : Option (Option ℕ × Graph) → Option (Option ℕ × List ℕ)
forked r = elim r [ none ↦ none | some (b, g) ↦ some (b, view (g.childs 5)) ]

test_fork :
    forked (backend_fork_rec free_item next_free (λ b. true) (λ c b. true) 9 1 linked_12)
    ≡ some (some 5, 4 ∷ [])
unfolding backend_fork_rec linked_12 empty_graph backend_new_skeleton backend_connect list_add
    list_is_empty list_delete list_init list_count list_flatten
test_fork = refl
