-- ===== src/Backend/Reach.antt =====
-- The graphs of core/backend.c that its calls make from the empty one that the library starts with, where
-- each call is made under the condition that it needs. What is outside of these conditions is listed with
-- the relation `Call`.
use frozen.Base.{
  inl, inr, Option-cases, Bool-cases, ◌==◌, sub64, add64, ◌^◌, ◌<◌, ◌≤◌, ℕ, ◌≡◌, refl, subst, true,
  false, Option, some, arith,
}
use frozen.ItemList.{Cell, list_init}
use frozen.Backend.{
  List, none, suc, backend_destroy, Graph, backend_connect, backend_disconnect,
  backend_free_skeleton, backend_new_skeleton, backend_ref_inc, upd,
}
use frozen.Backend.Registry.{backend_find, backend_acquire}
use frozen.Backend.Reference.{refs-IsLinkedUpto}
use frozen.Backend.Linked.{child_links, parent_links, IsLinked}
use frozen.Backend.Upto.{IsRanked, IsLinked-IsLinkedUpto, IsLinkedUpto-IsLinked}
use frozen.Backend.Teardown.{destroy_fuel}
use frozen.Backend.Destroy.{backend_destroy-IsLinked}
use frozen.Backend.Connect.{backend_connect-IsLinked, backend_disconnect-IsLinked}
use frozen.Backend.Lifetime.{backend_new_skeleton-IsLinked}
use frozen.Backend.Free.{backend_free_skeleton-IsLinked}

-- The lists of `LIST_INITIALIZER`, and no backend.
unfoldable pub empty_graph : Graph
unfolding list_init
empty_graph = record {
  live = λ b. false;
  name = λ b. none;
  refs = λ b. 0;
  parents = λ b. list_init;
  childs = λ b. list_init;
  backends_top = list_init;
  backends_names = list_init;
}

-- A call and the condition under which it keeps the graph linked: `malloc` gives a free address, only
-- backends that are not freed are connected, a child is connected to a parent once, only a backend
-- without links is freed, and what is destroyed either keeps a reference, or has just one, as all that
-- ranks below it in a graph without cycles. The code tests none of these conditions: a second connection
-- of two backends, or the last destruction above a backend that something else has acquired, is no
-- `Call`. Nor are backend_insert and backend_fork, which are runs of connections, disconnections and
-- clones, and backend_destroy_all, which destroys the roots one after the other and drops the lists.
pub data Call (junk : Cell) (g g' : Graph) : Type 0 where
  new_skeleton :
      (b : ℕ) (name : Option (List ℕ))
      → g.live b ≡ false
      → backend_new_skeleton junk b name g ≡ some g'
      → Call junk g g'
  connect :
      (p c : ℕ)
      → g.live p ≡ true
      → g.live c ≡ true
      → child_links g p c ≡ 0
      → backend_connect junk p (some c) g ≡ some g'
      → Call junk g g'
  disconnect :
      (p c : ℕ)
      → g.live p ≡ true
      → g.live c ≡ true
      → backend_disconnect junk p (some c) g ≡ some g'
      → Call junk g g'
  free_skeleton :
      (b : ℕ)
      → g.live b ≡ true
      → ((y : ℕ) → child_links g b y ≡ 0)
      → ((y : ℕ) → parent_links g b y ≡ 0)
      → backend_free_skeleton b g ≡ some g'
      → Call junk g g'
  destroy :
      (rank : ℕ → ℕ) (longest fuel b : ℕ)
      → IsRanked rank longest (suc (rank b)) g
      → g.live b ≡ true
      → destroy_fuel longest (suc (rank b)) ≤ fuel
      → backend_destroy junk fuel b g ≡ some g'
      → Call junk g g'
  acquire :
      (fuel : ℕ) (name : Option (List ℕ)) (found : Option ℕ)
      → backend_acquire fuel name g ≡ some (found, g')
      → Call junk g g'
  release :
      (fuel b : ℕ)
      → g.live b ≡ true
      → 1 < g.refs b
      → g.refs b < 2 ^ 64
      → backend_destroy junk (suc fuel) b g ≡ some g'
      → Call junk g g'

pub data Calls (junk : Cell) : Graph → Graph → Type 0 where
  no_call : {g : Graph} → Calls junk g g
  one_more : {g g' g'' : Graph} → Calls junk g g' → Call junk g' g'' → Calls junk g g''

-- An operation has one result.
same_result :
    (r : Option Graph) (g g' : Graph) → r ≡ some g → IsLinked g → r ≡ some g' → IsLinked g'
same_result r g g' e h e' = let same : g ≡ g' = cc in subst IsLinked same h

refs-IsLinked : (g : Graph) (r : ℕ → ℕ) → IsLinked g → IsLinked (record g { refs = r })
refs-IsLinked g r h =
    IsLinkedUpto-IsLinked _ _ (refs-IsLinkedUpto (λ p c. 0) g r (IsLinked-IsLinkedUpto g h))
      (λ p c. refl)

acquire-IsLinked :
    (fuel : ℕ) (name : Option (List ℕ)) (found : Option ℕ) (g g' : Graph)
    → IsLinked g
    → backend_acquire fuel name g ≡ some (found, g')
    → IsLinked g'
unfolding backend_acquire backend_ref_inc
acquire-IsLinked fuel name found g g' h e = elim (Option-cases (backend_find fuel name g)) [
  | inl lost ↦ let k = rw (lost, backend_acquire) at e in cc k
  | inr (none, f) ↦
      let k = rw (f, backend_acquire) at e in let same : g ≡ g' = cc k in subst IsLinked same h
  | inr (some b, f) ↦
      let k = rw (f, backend_acquire) at e in
      elim (Bool-cases (g.live b)) [
        | inl lives ↦
            let k' = rw lives at k in
            let same : record g { refs = upd g.refs b (add64 (g.refs b) 1) } ≡ g' = cc k' in
            subst IsLinked same (refs-IsLinked g _ h)
        | inr dead ↦ let k' = rw dead at k in cc k'
      ]
]

release-IsLinked :
    (junk : Cell) (fuel b : ℕ) (g g' : Graph)
    → IsLinked g
    → g.live b ≡ true
    → 1 < g.refs b
    → g.refs b < 2 ^ 64
    → backend_destroy junk (suc fuel) b g ≡ some g'
    → IsLinked g'
unfolding backend_destroy
release-IsLinked junk fuel b g g' h alive more word e =
    let stays : (sub64 (g.refs b) 1 == 0) ≡ false = ground (arith, more, word) in
    let k = rw (alive, stays) at e in
    let same : record g { refs = upd g.refs b (sub64 (g.refs b) 1) } ≡ g' = cc k in
    subst IsLinked same (refs-IsLinked g _ h)

Call-IsLinked : (junk : Cell) (g g' : Graph) → IsLinked g → Call junk g g' → IsLinked g'
Call-IsLinked junk g g' h (new_skeleton b name dead e) =
    let (_, e', h', _) = backend_new_skeleton-IsLinked junk b name g h dead in
    same_result _ _ g' e' h' e
Call-IsLinked junk g g' h (connect p c live_p live_c fresh e) =
    let (_, e', h', _, _) = backend_connect-IsLinked junk p c g h live_p live_c fresh in
    same_result _ _ g' e' h' e
Call-IsLinked junk g g' h (disconnect p c live_p live_c e) =
    let (_, e', h', _, _) = backend_disconnect-IsLinked junk p c g h live_p live_c in
    same_result _ _ g' e' h' e
Call-IsLinked junk g g' h (free_skeleton b alive no_child no_parent e) =
    let (_, e', h', _, _) = backend_free_skeleton-IsLinked b g h alive no_child no_parent in
    same_result _ _ g' e' h' e
Call-IsLinked junk g g' h (destroy rank longest fuel b ranked alive enough e) =
    let (_, e', h', _, _, _, _) =
      backend_destroy-IsLinked junk rank longest fuel b g h ranked alive enough in
    same_result _ _ g' e' h' e
Call-IsLinked junk g g' h (acquire fuel name found e) = acquire-IsLinked fuel name found g g' h e
Call-IsLinked junk g g' h (release fuel b alive more word e) =
    release-IsLinked junk fuel b g g' h alive more word e

empty-IsLinked : IsLinked empty_graph
unfolding empty_graph list_init
empty-IsLinked = record {
  built = record {
    childs_ended = λ b. tt;
    parents_ended = λ b. tt;
    top_ended = tt;
    names_ended = tt;
  };
  dual = λ p c. refl;
  live_parent = λ p c. omega arith;
  rooted = λ b p. omega arith;
  in_names = λ b. refl;
}

-- From the start, after any number of these calls in any order, the graph is linked: creations at free
-- addresses, frees of backends without links, connections of backends that are not linked yet,
-- disconnections, acquisitions, destructions that leave a reference (a count below 2^64), and
-- destructions, with `destroy_fuel` and in a graph without cycles, of a backend where it and all that
-- ranks below it have one reference; all but creations are of backends that are not freed. Each link is
-- then in both of its lists, no link or root is a freed backend, and no root has a parent.
pub Calls-IsLinked : (junk : Cell) (g : Graph) → Calls junk empty_graph g → IsLinked g
Calls-IsLinked junk g no_call = empty-IsLinked
Calls-IsLinked junk g (one_more calls call) =
    Call-IsLinked junk _ g (Calls-IsLinked junk _ calls) call
