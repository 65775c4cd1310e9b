-- ===== src/Backend/Request.antt =====
-- src/libfrozen/core/backend.c: `backend_query` and `backend_pass`, which send a request through the
-- graph. The handlers of the backends, which leave the graph as it is, and those of the data types, by
-- which the values of the request are read and written, are parameters.
use frozen.Base.{
  ℕ, zero, suc, Bool, Option, none, some, List, [], ◌∷◌, ◌==◌, if◌then◌else◌, replicate, Result, ok,
  err, fault, einval, enosys, ebadf, eexist,
}
use frozen.ItemList.{list_count, list_flatten}
use frozen.Hash.{HashRef, Data, hash_data_find}
use frozen.Backend.{Graph}

-- `data_functions`, as far as a request can name them.
abbrev pub action_create : ℕ
action_create = 0

abbrev pub action_delete : ℕ
action_delete = 1

abbrev pub action_move : ℕ
action_move = 2

abbrev pub action_count : ℕ
action_count = 3

abbrev pub action_custom : ℕ
action_custom = 4

abbrev pub action_read : ℕ
action_read = 19

abbrev pub action_write : ℕ
action_write = 20

-- The apis of a backend and its handlers; `none` is NULL.
pub record Api (F : Type 0) : Type 0 where
  pub api_hash : Bool
  pub api_crwd : Bool
  pub func_handler : Option F
  pub func_create : Option F
  pub func_set : Option F
  pub func_get : Option F
  pub func_delete : Option F
  pub func_move : Option F
  pub func_count : Option F
  pub func_custom : Option F

-- The `switch` on the action.
unfoldable pub crwd_func : {F : Type 0} → Api F → ℕ → Result (Option F)
crwd_func api action =
    if action == action_create
    then ok api.func_create
    else if action == action_read
    then ok api.func_get
    else if action == action_write
    then ok api.func_set
    else if action == action_delete
    then ok api.func_delete
    else if action == action_move
    then ok api.func_move
    else if action == action_count
    then ok api.func_count
    else if action == action_custom
    then ok api.func_custom
    else err einval

-- `M` is the memory, `call f b` what the handler `f` of `b` returns and leaves, `get_uint32` what
-- `data_get` reads, `transfer` what `data_query` of ACTION_TRANSFER leaves for a return value.
module _ {F M : Type 0} (g : Graph) (api : ℕ → Api F) (action_key ret_key : ℕ)
    (call : F → ℕ → HashRef → M → Result ℕ × M) (get_uint32 : Data → M → Option ℕ)
    (transfer : Result ℕ → Option Data → M → M) where
  -- The first part of `backend_query`: the handler, if there is one.
  unfoldable pub query_func : ℕ → HashRef → M → Result (Option F)
  unfolding crwd_func hash_data_find
  query_func b request m =
      if (api b).api_hash
      then ok (api b).func_handler
      else if (api b).api_crwd
      then elim (hash_data_find request action_key) [
        | none ↦ err enosys
        | some d ↦ elim (get_uint32 d m) [
          | none ↦ err enosys
          | some r_action ↦ crwd_func (api b) r_action
        ]
      ]
      else ok none

  -- The `switch` on what the handler returned.
  unfoldable pub answer : HashRef → Result ℕ × M → Result ℕ × M
  unfolding hash_data_find
  answer request (err ebadf, m) = (err ebadf, m)
  answer request (err eexist, m) = (ok 0, m)
  answer request (fault, m) = (fault, m)
  answer request (ret, m) = (ok 0, transfer ret (hash_data_find request ret_key) m)

  -- The loop of `backend_pass`, given what a query does; `ret` is the last error so far.
  unfoldable pub pass_each :
      (ℕ → M → Option (Result ℕ × M)) → List ℕ → Result ℕ → M → Option (Result ℕ × M)
  pass_each query [] ret m = some (ret, m)
  pass_each query (child ∷ childs) ret m = elim (query child m) [
    | none ↦ none
    | some (fault, m') ↦ some (fault, m')
    | some (err e, m') ↦ pass_each query childs (err e) m'
    | some (ok n, m') ↦ pass_each query childs ret m'
  ]

  -- `backend_pass`, given what a query does; the array on the stack holds any words, here zeros, before
  -- it is filled.
  unfoldable pub pass_with : (ℕ → M → Option (Result ℕ × M)) → ℕ → M → Option (Result ℕ × M)
  unfolding pass_each
  pass_with query b m =
      if g.live b
      then elim (list_count (g.childs b)) [
        | none ↦ some (fault, m)
        | some zero ↦ some (err enosys, m)
        | some (suc n) ↦ elim (list_flatten (g.childs b) (replicate (suc n) 0) (suc n)) [
          | none ↦ some (fault, m)
          | some childs_list ↦ pass_each query childs_list (ok 0) m
        ]
      ]
      else some (fault, m)

  -- `backend_query` of a backend and a request that are not NULL, on fuel.
  unfoldable pub backend_query : HashRef → ℕ → ℕ → M → Option (Result ℕ × M)
  unfolding query_func answer pass_with
  backend_query request zero b m = none
  backend_query request (suc fuel) b m =
      if g.live b
      then elim (query_func b request m) [
        | err e ↦ some (err e, m)
        | fault ↦ some (fault, m)
        | ok none ↦ pass_with (backend_query request fuel) b m
        | ok (some func) ↦ some (answer request (call func b request m))
      ]
      else some (fault, m)

  -- `backend_pass`.
  unfoldable pub backend_pass : HashRef → ℕ → ℕ → M → Option (Result ℕ × M)
  unfolding backend_query pass_with
  backend_pass request fuel b m = pass_with (backend_query request fuel) b m
