-- ===== src/Backend/Build.antt =====
-- src/libfrozen/core/backend.c: chains of backends, made from a configuration, inserted and forked.
-- `malloc` gives the address of the next backend, `func_init` and `func_configure` say whether those of
-- a backend return 0 (or are NULL); they and `func_destroy` leave the graph as it is.
use frozen.Base.{ℕ, zero, suc, Bool, true, false, Option, none, some, List, ◌==◌, if◌then◌else◌}
use frozen.ItemList.{Cell, item, ItemList, list_init, list_add, list_pop}
use frozen.Hash.{
  HashT, HashRef, item, end, inline, key_null, Iter, iter_ok, iter_break, iter_continue, hash_iter,
}
use frozen.Backend.{
  Graph, Op, ◌>>◌, backend_connect, backend_disconnect, drop_childs, backend_new_skeleton,
  backend_free_skeleton,
}
use frozen.Backend.Registry.{class_find, backend_find}

-- `backend_new_ctx`; `none` is LIST_FREE_ITEM.
pub record NewCtx : Type 0 where
  pub graph : Graph
  pub backends : ItemList
  pub backend_prev : Option ℕ

-- Goes on with the new graph.
abbrev pub with_graph {ℓ} : {A : Type ℓ} → Option Graph → (Graph → Option A) → Option A
with_graph none k = none
with_graph (some g) k = k g

module _ (junk : Cell) (malloc : Graph → ℕ) (func_init func_configure : ℕ → Bool) where
  -- The branch of `backend_new_iterator` with a class that is found, up to `ctx->backend_prev`: the
  -- backend, or `none` after `error_init`.
  unfoldable pub new_backend : Option (List ℕ) → NewCtx → Option (Option ℕ × NewCtx)
  unfolding backend_new_skeleton backend_connect backend_disconnect backend_free_skeleton
  new_backend name ctx =
      let backend = malloc ctx.graph in
      with_graph
        ((backend_new_skeleton junk backend name >> backend_connect junk backend ctx.backend_prev)
          ctx.graph)
        (λ g.
          if func_init backend
          then if func_configure backend
            then elim (list_add junk ctx.backends (item backend)) [
              | none ↦ none
              | some l ↦ some (some backend, record ctx { graph = g; backends = l })
            ]
            else with_graph
                ((backend_disconnect junk backend ctx.backend_prev >> backend_free_skeleton backend)
                  g)
                (λ g'. some (none, record ctx { graph = g' }))
          else with_graph
              ((backend_disconnect junk backend ctx.backend_prev >> backend_free_skeleton backend)
                g)
              (λ g'. some (none, record ctx { graph = g' })))

  -- What a configuration is read through: the hash that a holder of TYPE_HASHT points at, and what
  -- `hash_data_copy` of TYPE_STRINGT gives.
  module _ (type_hasht : ℕ) (hash_at : ℕ → HashRef) (get_string : HashRef → ℕ → Option (List ℕ))
      (name_key class_key : ℕ) (class_of : ℕ → Option (List ℕ)) (backend_protos : List ℕ)
      (classes : ItemList) (fuel : ℕ) where
    -- `backend_new_iterator`, with the name and the class read: the backend, or `none` for
    -- `error_inval` and `error_init`.
    unfoldable pub new_item :
        Option (List ℕ) → Option (List ℕ) → NewCtx → Option (Option ℕ × NewCtx)
    unfolding new_backend class_find backend_find
    new_item none none ctx = some (none, ctx)
    new_item (some name) none ctx = elim (backend_find fuel (some name) ctx.graph) [
      | none ↦ none
      | some none ↦ some (none, ctx)
      | some (some backend) ↦
          with_graph (backend_connect junk backend ctx.backend_prev ctx.graph)
            (λ g. some (some backend, record ctx { graph = g }))
    ]
    new_item name (some class) ctx = elim (class_find class_of backend_protos classes fuel class) [
      | none ↦ none
      | some none ↦ some (none, ctx)
      | some (some proto) ↦ new_backend name ctx
    ]

    -- The end of `backend_new_iterator`; a fault ends the walk.
    unfoldable pub iterated : Option (Option ℕ × NewCtx) → Iter × Option NewCtx
    iterated none = (iter_break, none)
    iterated (some (none, ctx)) = (iter_break, some ctx)
    iterated (some (some backend, ctx)) =
        (iter_continue, some (record ctx { backend_prev = some backend }))

    unfoldable pub backend_new_iterator : HashT → Option NewCtx → Iter × Option NewCtx
    unfolding new_item iterated
    backend_new_iterator h none = (iter_break, none)
    backend_new_iterator (item key d rest) (some ctx) =
        if key == key_null
        then (iter_continue, some (record ctx { backend_prev = none }))
        else if d.type == type_hasht
        then (let cfg = hash_at d.ptr in
            iterated (new_item (get_string cfg name_key) (get_string cfg class_key) ctx))
        else (iter_continue, some ctx)
    backend_new_iterator (inline h rest) (some ctx) = (iter_continue, some ctx)
    backend_new_iterator (end next) (some ctx) = (iter_continue, some ctx)

    -- The loop of `backend_new` that takes back the backends that were made.
    unfoldable pub take_back : ℕ → ItemList → Op
    unfolding drop_childs backend_free_skeleton
    take_back zero backends g = none
    take_back (suc n) backends g = elim (list_pop backends) [
      | none ↦ none
      | some (none, backends') ↦ some g
      | some (some backend, backends') ↦
          (drop_childs junk fuel backend >> backend_free_skeleton backend >> take_back n backends')
            g
    ]

    -- `backend_new`: the last backend, or NULL.
    unfoldable pub backend_new : HashRef → Graph → Option (Option ℕ × Graph)
    unfolding backend_new_iterator hash_iter take_back list_init
    backend_new config g =
        let start : NewCtx = record { graph = g; backends = list_init; backend_prev = none } in
        let (r, ctx) =
          hash_iter backend_new_iterator
            (record { with_null = true; with_end = false; with_inline = false }) config
            (some start) in
        elim ctx [
          | none ↦ none
          | some ctx ↦ elim r [
            | iter_ok ↦ some (ctx.backend_prev, ctx.graph)
            | iter_break ↦
                with_graph (take_back fuel ctx.backends ctx.graph) (λ g'. some (none, g'))
            | iter_continue ↦
                with_graph (take_back fuel ctx.backends ctx.graph) (λ g'. some (none, g'))
          ]
        ]
