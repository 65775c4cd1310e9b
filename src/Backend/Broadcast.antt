-- ===== src/Backend/Broadcast.antt =====
-- Which childs `backend_pass` of core/backend.c queries, and what it makes of their answers.
use frozen.Base.{
  ℕ, ◌≤◌, ◌≡◌, ◌≢◌, refl, ap, true, Option, some, List, [], ◌∷◌, arith, Result, ok, err, fault,
}
use frozen.ItemList.View.{view}
use frozen.ItemList.Count.{count}
use frozen.Hash.{HashRef, Data}
use frozen.Backend.{Graph}
use frozen.Backend.Linked.{child_links, IsLinked}
use frozen.Backend.Request.{Api, pass_each, pass_with, backend_query, backend_pass}
use frozen.ItemList.Flatten.{no_items, all_items, flatten-Flattened}

-- Each child's reply in turn, on the memory that the childs before it leave.
abbrev pub replies : {M : Type 0} → (ℕ → M → Result ℕ × M) → List ℕ → M → List (Result ℕ) × M
replies reply [] m = ([], m)
replies reply (c ∷ childs) m =
    let (r, m1) = reply c m in let (rs, m2) = replies reply childs m1 in (r ∷ rs, m2)

-- The last error of some replies, else `ret`.
abbrev pub last_error : Result ℕ → List (Result ℕ) → Result ℕ
last_error ret [] = ret
last_error ret (err e ∷ rs) = last_error (err e) rs
last_error ret (r ∷ rs) = last_error ret rs

module _ {F M : Type 0} (g : Graph) (api : ℕ → Api F) (action_key ret_key : ℕ)
    (call : F → ℕ → HashRef → M → Result ℕ × M) (get_uint32 : Data → M → Option ℕ)
    (transfer : Result ℕ → Option Data → M → M) where
  pass_each-last_error :
      (query : ℕ → M → Option (Result ℕ × M)) (reply : ℕ → M → Result ℕ × M) (childs : List ℕ)
      → ((c : ℕ) → 1 ≤ count c childs → (m : M) → query c m ≡ some (reply c m))
      → ((c : ℕ) (m : M) → (reply c m).0 ≢ fault)
      → (ret : Result ℕ) (m : M)
      → let (rs, m') = replies reply childs m in
        pass_each g api action_key ret_key call get_uint32 transfer query childs ret m
        ≡ some (last_error ret rs, m')
  unfolding pass_each
  pass_each-last_error query reply [] answers calm ret m = refl
  pass_each-last_error query reply (c ∷ childs) answers calm ret m =
      go
        (λ r.
          pass_each-last_error query reply childs (λ q in_rest. answers q (omega (arith, in_rest)))
            calm r)
        (reply c m).0 (reply c m).1 (answers c (ground arith) m) (calm c m)
    where
      go :
          ((r : Result ℕ) (m : M)
            → let (rs, m') = replies reply childs m in
              pass_each g api action_key ret_key call get_uint32 transfer query childs r m
              ≡ some (last_error r rs, m'))
          → (r : Result ℕ) (m1 : M) → query c m ≡ some (r, m1)
          → r ≢ fault
          → let (rs, m') = replies reply childs m1 in
            pass_each g api action_key ret_key call get_uint32 transfer query (c ∷ childs) ret m
            ≡ some (last_error ret (r ∷ rs), m')
      go rest (ok n) m1 e calm = rw (pass_each, e) (rest ret m1)
      go rest (err x) m1 e calm = rw (pass_each, e) (rest (err x) m1)
      go rest fault m1 e calm = absurd (calm refl)

  -- `backend_pass` of a backend with childs queries each child once, in the order of the list, whatever
  -- the childs before it return, and returns the last error, or 0 if there is none: where `reply` is
  -- what the queries of the childs come to, and none faults.
  pub backend_pass-last_error :
      (request : HashRef) (fuel b c : ℕ) (reply : ℕ → M → Result ℕ × M)
      → IsLinked g
      → g.live b ≡ true
      → 1 ≤ child_links g b c
      → ((x : ℕ)
          → 1 ≤ child_links g b x
          → (m : M)
          → backend_query g api action_key ret_key call get_uint32 transfer request fuel x m
            ≡ some (reply x m))
      → ((x : ℕ) (m : M) → (reply x m).0 ≢ fault)
      → (m : M)
      → let (rs, m') = replies reply (view (g.childs b)) m in
        backend_pass g api action_key ret_key call get_uint32 transfer request fuel b m
        ≡ some (last_error (ok 0) rs, m')
  unfolding backend_pass pass_with
  backend_pass-last_error request fuel b c reply h alive link answers calm m =
      elim (flatten-Flattened (g.childs b) (h.built.childs_ended b)) [
        | no_items e v ↦ absurd (omega (arith, link, ap (count c) v))
        | all_items n e f ↦
            rw (alive, e, f)
              (pass_each-last_error
                (backend_query g api action_key ret_key call get_uint32 transfer request fuel) reply
                (view (g.childs b)) answers calm (ok 0) m)
      ]
