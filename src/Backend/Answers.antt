-- ===== src/Backend/Answers.antt =====
-- What `backend_query` and `backend_pass` of core/backend.c return on a graph without cycles.
use frozen.Base.{
  ◌≢◌, efault, enomem, enoent, enospc, eoverflow, eof, logged, ℕ, zero, suc, ◌≤◌, ◌<◌, ◌≡◌, refl,
  Bool, true, false, Option, none, some, List, [], ◌∷◌, ◌==◌, if◌then◌else◌, arith, Result, ok, err,
  fault, Errno, einval, enosys, ebadf, eexist,
}
use frozen.ItemList.Flatten.{no_items, all_items, flatten-Flattened}
use frozen.ItemList.View.{view}
use frozen.ItemList.Count.{count}
use frozen.Hash.{hash_data_find, HashRef, Data}
use frozen.Backend.{Graph}
use frozen.Backend.Linked.{child_links, IsLinked}
use frozen.Backend.Connect.{one_if-true}
use frozen.Backend.Request.{
  action_create, action_read, action_write, action_delete, action_move, action_count, action_custom,
  Api, crwd_func, query_func, answer, pass_each, pass_with, backend_query,
}

-- What a query can return: 0, or that a backend is dead, the request has no handler, or its action is
-- not one.
pub data IsAnswer : Result ℕ → Type 0 where
  is_done : IsAnswer (ok 0)
  is_dead : IsAnswer (err ebadf)
  is_unhandled : IsAnswer (err enosys)
  is_invalid : IsAnswer (err einval)

-- A query that ends with such an answer.
abbrev pub Returns : {M : Type 0} → Option (Result ℕ × M) → Type 0
Returns {M = M} r = (ret : Result ℕ) × (m : M) × (r ≡ some (ret, m)) × IsAnswer ret

-- What the choice of a handler comes to.
data Chosen {F : Type 0} : Result (Option F) → Type 0 where
  refused : {e : Errno} → IsAnswer (err e) → Chosen (err e)
  chosen : (f : Option F) → Chosen (ok f)

if-Chosen :
    {F : Type 0} (t : Bool) (f : Option F) (r : Result (Option F))
    → Chosen r
    → Chosen (if t then ok f else r)
if-Chosen true f r h = chosen f
if-Chosen false f r h = h

crwd_func-Chosen : {F : Type 0} (api : Api F) (action : ℕ) → Chosen (crwd_func api action)
unfolding crwd_func
crwd_func-Chosen api action = if-Chosen (action == action_create) api.func_create _ (
    if-Chosen (action == action_read) api.func_get _ (
      if-Chosen (action == action_write) api.func_set _ (
        if-Chosen (action == action_delete) api.func_delete _ (
          if-Chosen (action == action_move) api.func_move _ (
            if-Chosen (action == action_count) api.func_count _
              (if-Chosen (action == action_custom) api.func_custom _ (refused is_invalid)))))))

module _ {F M : Type 0} (g : Graph) (api : ℕ → Api F) (action_key ret_key : ℕ)
    (call : F → ℕ → HashRef → M → Result ℕ × M) (get_uint32 : Data → M → Option ℕ)
    (transfer : Result ℕ → Option Data → M → M) where
  query_func-Chosen :
      (b : ℕ) (request : HashRef) (m : M)
      → Chosen (query_func g api action_key ret_key call get_uint32 transfer b request m)
  unfolding query_func
  query_func-Chosen b request m =
      go (api b).api_hash (api b).api_crwd (hash_data_find request action_key)
    where
      read :
          (r : Option ℕ)
          → Chosen (elim r [ none ↦ err enosys | some r_action ↦ crwd_func (api b) r_action ])
      read none = refused is_unhandled
      read (some r_action) = crwd_func-Chosen (api b) r_action

      find :
          (d : Option Data)
          → Chosen (elim d [
            | none ↦ err enosys
            | some d ↦ elim (get_uint32 d m) [
              | none ↦ err enosys
              | some r_action ↦ crwd_func (api b) r_action
            ]
          ])
      find none = refused is_unhandled
      find (some d) = read (get_uint32 d m)

      go :
          (hash crwd : Bool) (d : Option Data)
          → Chosen (
              if hash
              then ok (api b).func_handler
              else if crwd
              then elim d [
                | none ↦ err enosys
                | some d ↦ elim (get_uint32 d m) [
                  | none ↦ err enosys
                  | some r_action ↦ crwd_func (api b) r_action
                ]
              ]
              else ok none)
      go true crwd d = chosen _
      go false true d = find d
      go false false d = chosen none

  answer-Returns :
      (request : HashRef) (r : Result ℕ) (m : M)
      → r ≢ fault
      → Returns (some (answer g api action_key ret_key call get_uint32 transfer request (r, m)))
  unfolding answer
  answer-Returns request (err ebadf) m h = (_, _, refl, is_dead)
  answer-Returns request fault m h = absurd (h refl)
  answer-Returns request (ok n) m h = (_, _, refl, is_done)
  answer-Returns request (err eexist) m h = (_, _, refl, is_done)
  answer-Returns request (err einval) m h = (_, _, refl, is_done)
  answer-Returns request (err enosys) m h = (_, _, refl, is_done)
  answer-Returns request (err efault) m h = (_, _, refl, is_done)
  answer-Returns request (err enomem) m h = (_, _, refl, is_done)
  answer-Returns request (err enoent) m h = (_, _, refl, is_done)
  answer-Returns request (err enospc) m h = (_, _, refl, is_done)
  answer-Returns request (err eoverflow) m h = (_, _, refl, is_done)
  answer-Returns request (err eof) m h = (_, _, refl, is_done)
  answer-Returns request (err logged) m h = (_, _, refl, is_done)

  pass_each-Returns :
      (query : ℕ → M → Option (Result ℕ × M)) (childs : List ℕ)
      → ((c : ℕ) → 1 ≤ count c childs → (m : M) → Returns (query c m))
      → (ret : Result ℕ) (m : M) → IsAnswer ret
      → Returns (pass_each g api action_key ret_key call get_uint32 transfer query childs ret m)
  unfolding pass_each
  pass_each-Returns query [] answers ret m h = (ret, m, refl, h)
  pass_each-Returns query (c ∷ childs) answers ret m h =
      let (r, m', e, a) = answers c (ground arith) m in
      go (pass_each-Returns query childs (λ q in_rest. answers q (omega (arith, in_rest)))) r m' e a
    where
      go :
          ((ret : Result ℕ) (m : M)
            → IsAnswer ret
            → Returns
                (pass_each g api action_key ret_key call get_uint32 transfer query childs ret m))
          → (r : Result ℕ) (m' : M) → query c m ≡ some (r, m')
          → IsAnswer r
          → Returns
              (pass_each g api action_key ret_key call get_uint32 transfer query (c ∷ childs) ret m)
      go rest fault m' e a = elim a [ ]
      go rest (ok n) m' e a =
          let (ret'', m'', e', a') = rest ret m' h in (ret'', m'', rw (pass_each, e) e', a')
      go rest (err x) m' e a =
          let (ret'', m'', e', a') = rest (err x) m' a in (ret'', m'', rw (pass_each, e) e', a')

  pass_with-Returns :
      (query : ℕ → M → Option (Result ℕ × M)) (b : ℕ)
      → IsLinked g
      → g.live b ≡ true
      → ((c : ℕ) → 1 ≤ child_links g b c → (m : M) → Returns (query c m))
      → (m : M) → Returns (pass_with g api action_key ret_key call get_uint32 transfer query b m)
  unfolding pass_with
  pass_with-Returns query b h alive answers m =
      elim (flatten-Flattened (g.childs b) (h.built.childs_ended b)) [
        | no_items e v ↦ (err enosys, m, rw (alive, e), is_unhandled)
        | all_items n e f ↦
            let (ret, m', e', a) =
              pass_each-Returns query (view (g.childs b)) answers (ok 0) m is_done in
            (ret, m', rw (alive, e, f) e', a)
      ]

  query_step :
      (request : HashRef) (fuel b : ℕ)
      → IsLinked g
      → ((f : F) (x : ℕ) (m : M) → (call f x request m).0 ≢ fault)
      → g.live b ≡ true
      → ((c : ℕ)
          → 1 ≤ child_links g b c
          → (m : M)
          → Returns
              (backend_query g api action_key ret_key call get_uint32 transfer request fuel c m))
      → (m : M)
      → Returns
          (backend_query g api action_key ret_key call get_uint32 transfer request (suc fuel) b m)
  unfolding backend_query
  query_step request fuel b h calls alive child m = go _ refl (query_func-Chosen b request m)
    where
      go :
          (r : Result (Option F))
          → query_func g api action_key ret_key call get_uint32 transfer b request m ≡ r
          → Chosen r
          → Returns (
              backend_query g api action_key ret_key call get_uint32 transfer request
                (suc fuel)
                b
                m)
      go fault same c = elim c [ ]
      go (err e) same (refused a) = (err e, m, rw (alive, same), a)
      go (ok none) same c =
          let (ret, m', e', a) =
            pass_with-Returns
              (backend_query g api action_key ret_key call get_uint32 transfer request fuel) b h
              alive child m in
          (ret, m', rw (alive, same) e', a)
      go (ok (some f)) same c =
          let (ret, m', e', a) =
            answer-Returns request (call f b request m).0 (call f b request m).1 (calls f b m) in
          (ret, m', rw (alive, same) e', a)

  -- On a linked graph without cycles, where no handler faults, `backend_query` of a backend that is not
  -- freed ends, with more fuel than its rank, and returns 0, -EBADF, -ENOSYS or -EINVAL, whatever the
  -- handlers return.
  pub backend_query-Returns :
      (rank : ℕ → ℕ) (request : HashRef) (fuel b : ℕ)
      → IsLinked g
      → ((x y : ℕ) → 1 ≤ child_links g x y → rank y < rank x)
      → ((f : F) (x : ℕ) (m : M) → (call f x request m).0 ≢ fault)
      → g.live b ≡ true
      → rank b < fuel
      → (m : M)
      → Returns (backend_query g api action_key ret_key call get_uint32 transfer request fuel b m)
  backend_query-Returns rank request zero b h ranked calls alive enough m = absurd (omega arith)
  backend_query-Returns rank request (suc fuel) b h ranked calls alive enough m =
      query_step request fuel b h calls alive
        (λ c link.
          backend_query-Returns rank request fuel c h ranked calls
            (one_if-true (g.live c) (omega (arith, link, h.dual b c, h.rooted c b)))
            (omega (arith, ranked b c link, enough)))
        m
