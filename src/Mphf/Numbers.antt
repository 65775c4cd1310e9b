-- ===== src/Mphf/Numbers.antt =====
-- What depends on the numbers of an index of mphf_chm_imp.c and what on its graph: the query of a key,
-- and the values that the edges hold.
use native.Mathlib.Nat.{mod-lt}
use frozen.Base.{
  ok, ltb, lt→ltb, true, ℕ, zero, suc, ◌+◌, ◌%◌, ◌^◌, ◌<◌, ◌≡◌, ◌≢◌, refl, sym, ap, ◌∙◌, false,
  some, List, [], ◌∷◌, get_elem?, length, ◌==◌, sub64, arith,
}
use frozen.Mphf.{Chm, graph_get_edge, cut, vertex_0, vertex_1, mphf_chm_imp_query}
use frozen.Mphf.Edges.{Leads, InChain, here, there}
use frozen.Mphf.Loop.{num, IsSized, Small}
use frozen.Mphf.Sums.{add-mod_congr, cut-mod, sub64-add, mod64}
use frozen.Mphf.Link.{IsValid}
use frozen.Mphf.Settle.{Settled}

-- The index with other numbers.
abbrev pub with_numbers : Chm → List ℕ → ℕ → Chm
with_numbers c g n = record c { be_g = g; nelements = n }

module _ (c : Chm) (g : List ℕ) (n : ℕ) where
  get_edge_same : (k : ℕ) → graph_get_edge (with_numbers c g n) k ≡ graph_get_edge c k
  unfolding graph_get_edge
  get_edge_same zero = refl
  get_edge_same (suc k) = refl

  pub Leads-to : {a k b : ℕ} → Leads c a k b → Leads (with_numbers c g n) a k b
  Leads-to {k = k} l = record {
    edge = l.edge;
    next = l.next;
    stored = get_edge_same k ∙ l.stored;
    sides = l.sides;
  }

  pub Leads-from : {a k b : ℕ} → Leads (with_numbers c g n) a k b → Leads c a k b
  Leads-from {k = k} l = record {
    edge = l.edge;
    next = l.next;
    stored = sym (get_edge_same k) ∙ l.stored;
    sides = l.sides;
  }

  InChain-to : {v k f : ℕ} → InChain c v k f → InChain (with_numbers c g n) v k f
  InChain-to (here p) = here p
  InChain-to (there {k = k} q s r) = there (get_edge_same k ∙ q) s (InChain-to r)

  pub with_numbers-IsValid :
      IsValid c → length g ≡ length c.be_g → Small g → IsValid (with_numbers c g n)
  with_numbers-IsValid valid size small = record {
    graph = record {
      loopless = λ k e h. valid.graph.loopless k e (sym (get_edge_same k) ∙ h);
      falling = λ k e h. valid.graph.falling k e (sym (get_edge_same k) ∙ h);
      linked = λ v k u f l h. InChain-to (valid.graph.linked v k u f (Leads-from l) h);
    };
    sized = record { fits = valid.sized.fits; word = valid.sized.word };
    vertices = valid.vertices;
    small = small;
    g_size = size ∙ valid.g_size;
    v_size = valid.v_size;
    room = valid.room;
    firsts = valid.firsts;
  }

get_elem?-num : (g : List ℕ) (v : ℕ) → v < length g → get_elem? g v ≡ some (num g v)
get_elem?-num [] v h = absurd (omega arith)
get_elem?-num (x ∷ g) zero h = refl
get_elem?-num (x ∷ g) (suc v) h = get_elem?-num g v (omega arith)

pub vertex_0-lt : (c : Chm) (key : ℕ) → 0 < c.nvertex → vertex_0 c key < c.nvertex
unfolding vertex_0
vertex_0-lt c key h = mod-lt _ h

pub vertex_1-lt : (c : Chm) (key : ℕ) → 0 < c.nvertex → vertex_1 c key < c.nvertex
unfolding vertex_1
vertex_1-lt c key h = mod-lt _ h

-- A query adds up the numbers of the vertices of the key.
pub query_lem :
    (c : Chm) (key : ℕ)
    → IsValid c
    → c.bi_value < 64
    → vertex_0 c key ≢ vertex_1 c key
    → mphf_chm_imp_query key c
      ≡ ok (some ((num c.be_g (vertex_0 c key) + num c.be_g (vertex_1 c key)) % 2 ^ c.bi_value))
unfolding mphf_chm_imp_query
query_lem c key valid bits apart =
    let v0 = vertex_0 c key in
    let v1 = vertex_1 c key in
    let l0 = vertex_0-lt c key valid.vertices in
    let l1 = vertex_1-lt c key valid.vertices in
    let size = valid.g_size in
    let e0 = get_elem?-num c.be_g v0 (omega arith) in
    let e1 = get_elem?-num c.be_g v1 (omega arith) in
    let f : (v0 == v1) ≡ false = ground arith in
    let narrow : ltb c.bi_value 64 ≡ true = lt→ltb _ _ bits in
    rw (f, e0, e1, narrow)
      (ap (λ x. ok (some x))
        (mod64 c.bi_value c.bt_value valid.sized.fits valid.sized.word
          (num c.be_g v0 + num c.be_g v1)))

-- The value of an edge that has been set to `value`.
pub Settled-sum :
    {c : Chm} {id v u : ℕ} {g g' : List ℕ} (value : ℕ)
    → IsSized c
    → Small g
    → Settled c id v u (sub64 value (num g v)) g g'
    → (num g' v + num g' u) % 2 ^ c.bi_value ≡ value % 2 ^ c.bi_value
Settled-sum {c} {v = v} {u = u} {g = g} {g' = g'} value sized small s =
    let m = 2 ^ c.bi_value in
    let d = sub64 value (num g v) in
    let e : num g' v + num g' u ≡ cut c.bt_value d + num g v = omega (arith, s.kept, s.new) in
    ap (λ k. k % m) e
    ∙ add-mod_congr m (cut c.bt_value d) d (num g v) (num g v)
        (cut-mod c.bi_value c.bt_value sized.fits sized.word d) refl
    ∙ sub64-add c.bi_value c.bt_value sized.fits sized.word value (num g v) (small v)
