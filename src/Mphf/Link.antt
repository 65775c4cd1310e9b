-- ===== src/Mphf/Link.antt =====
-- What `graph_set_edge` and `graph_set_first` of mphf_chm_imp.c do to the graph when an edge is added.
use frozen.Base.{
  true, ℕ, zero, suc, ◌-◌, ◌≤◌, ◌<◌, ◌≡◌, ◌≢◌, refl, ap, ◌∙◌, some, List, [], ◌∷◌, ◌++◌, get_elem?,
  set, length, length-set, length-append, ◌==◌, ltb, lt→ltb, if◌then◌else◌, arith,
}
use native.Mathlib.Nat.{mod-eq_of_lt}
use frozen.Mphf.{
  Edge, Chm, done, cut, cell, write_cell, graph_get_edge, graph_set_edge, graph_set_first,
  link_edge,
}
use frozen.Mphf.Edges.{IsGraph}
use frozen.Mphf.Loop.{IsSized, Small}

-- An index in use: its graph is one, the sizes fit, and the ids of edges are those of its edges.
pub record IsValid (c : Chm) : Type 0 where
  pub graph : IsGraph c
  pub sized : IsSized c
  pub vertices : 0 < c.nvertex
  pub small : Small c.be_g
  pub g_size : length c.be_g ≡ c.nvertex
  pub v_size : length c.be_v ≡ c.nvertex
  pub room : c.nvertex ≤ cell c.bt_vertex
  pub firsts : (v first : ℕ) → get_elem? c.be_v v ≡ some first → first ≤ length c.be_e

-- The shifts of the masks of a value and of a cell are shorter than a word.
pub record HasMasks (c : Chm) : Type 0 where
  pub value_mask : c.bi_value < 64
  pub vertex_mask : c.bt_vertex < 8

get_elem?-snoc {ℓ} :
    {A : Type ℓ} (xs : List A) (y : A) (i : ℕ)
    → get_elem? (xs ++ y ∷ []) i ≡ (if i == length xs then some y else get_elem? xs i)
get_elem?-snoc [] y zero = refl
get_elem?-snoc [] y (suc i) = ground arith
get_elem?-snoc (x ∷ xs) y zero = ground arith
get_elem?-snoc (x ∷ xs) y (suc i) = get_elem?-snoc xs y i ∙ ground arith

get_elem?-set :
    (xs : List ℕ) (i v j : ℕ)
    → i < length xs
    → get_elem? (set xs i v) j ≡ (if i == j then some v else get_elem? xs j)
get_elem?-set [] i v j h = absurd (omega arith)
get_elem?-set (x ∷ xs) zero v zero h = refl
get_elem?-set (x ∷ xs) zero v (suc j) h = ground arith
get_elem?-set (x ∷ xs) (suc i) v zero h = ground arith
get_elem?-set (x ∷ xs) (suc i) v (suc j) h = get_elem?-set xs i v j (omega arith) ∙ ground arith

set-snoc {ℓ} :
    {A : Type ℓ} (xs : List A) (y z : A) → set (xs ++ y ∷ []) (length xs) z ≡ xs ++ z ∷ []
set-snoc [] y z = refl
set-snoc (x ∷ xs) y z = ap (λ t. x ∷ t) (set-snoc xs y z)

pub get_elem?-lt {ℓ} :
    {A : Type ℓ} (xs : List A) (i : ℕ) {x : A} → get_elem? xs i ≡ some x → i < length xs
get_elem?-lt [] i h = cc h
get_elem?-lt (y ∷ xs) zero h = omega arith
get_elem?-lt (y ∷ xs) (suc i) h = omega (arith, get_elem?-lt xs i h)

pub cut_small : (bt x : ℕ) → x < cell bt → cut bt x ≡ x
unfolding cut
cut_small bt x h = mod-eq_of_lt h

-- The index with a new edge at the head of the lists of its two vertices.
abbrev pub with_edge : Chm → ℕ → ℕ → ℕ → ℕ → Chm
with_edge c v0 v1 n0 n1 =
    let id = suc (length c.be_e) in
    record c {
      be_e = c.be_e ++ record { vertex0 = v0; vertex1 = v1; next0 = n0; next1 = n1 } ∷ [];
      be_v = set (set c.be_v v0 id) v1 id;
    }

pub link_edge_lem :
    (c : Chm) (fresh : Edge) (v0 v1 n0 n1 : ℕ)
    → v0 < length c.be_v
    → v1 < length c.be_v
    → length c.be_v ≤ cell c.bt_vertex
    → n0 ≤ length c.be_e
    → n1 ≤ length c.be_e
    → suc (length c.be_e) < cell c.bt_vertex
    → link_edge v0 v1 n0 n1 (suc (length c.be_e)) (record c { be_e = c.be_e ++ fresh ∷ [] })
      ≡ done (with_edge c v0 v1 n0 n1)
unfolding link_edge graph_set_edge graph_set_first write_cell
link_edge_lem c fresh v0 v1 n0 n1 h0 h1 room m0 m1 few =
    let bt = c.bt_vertex in
    let id = suc (length c.be_e) in
    let e0 = cut_small bt v0 (omega arith) in
    let e1 = cut_small bt v1 (omega arith) in
    let e2 = cut_small bt n0 (omega arith) in
    let e3 = cut_small bt n1 (omega arith) in
    let e4 = cut_small bt id few in
    let l : ltb (id - 1) (length (c.be_e ++ fresh ∷ [])) ≡ true =
      lt→ltb _ _ (omega (arith, length-append {0} c.be_e (fresh ∷ []))) in
    let at : id - 1 ≡ length c.be_e = omega arith in
    let l0 = lt→ltb v0 (length c.be_v) h0 in
    let l1 : ltb v1 (length (set c.be_v v0 id)) ≡ true =
      lt→ltb _ _ (omega (arith, length-set {0} c.be_v v0 id)) in
    rw (l, at, set-snoc c.be_e fresh, e0, e1, e2, e3, e4, l0, l1) (rw e4)

-- The graph with the new edge.
module _ {c : Chm} {v0 v1 n0 n1 : ℕ} (valid : IsValid c) (apart : v0 ≢ v1)
    (at0 : get_elem? c.be_v v0 ≡ some n0) (at1 : get_elem? c.be_v v1 ≡ some n1) where
  -- The new index.
  abbrev pub after : Chm
  after = with_edge c v0 v1 n0 n1

  pub get_edge_lem :
      (k : ℕ)
      → graph_get_edge after k ≡ (
          if k == suc (length c.be_e)
          then some (record { vertex0 = v0; vertex1 = v1; next0 = n0; next1 = n1 })
          else graph_get_edge c k)
  unfolding graph_get_edge
  get_edge_lem zero = ground arith
  get_edge_lem (suc k) = get_elem?-snoc c.be_e _ k ∙ ground arith

  pub first_lem :
      (v : ℕ)
      → get_elem? after.be_v v ≡ (
          if v1 == v
          then some (suc (length c.be_e))
          else if v0 == v
          then some (suc (length c.be_e))
          else get_elem? c.be_v v)
  first_lem v =
      let id = suc (length c.be_e) in
      let l0 = get_elem?-lt c.be_v v0 at0 in
      let l1 = get_elem?-lt c.be_v v1 at1 in
      get_elem?-set (set c.be_v v0 id) v1 id v (omega (arith, length-set {0} c.be_v v0 id))
      ∙ rw (get_elem?-set c.be_v v0 id v l0)
