-- ===== src/Mphf.antt =====
-- src/libfrozen/backends/index/mphf/mphf_chm_imp.c: the index that keeps, for each key, an edge between
-- two vertices and a number at each vertex, so that the two numbers add up to the value of the key.
-- The three storage backends are arrays of cells, at the offsets that the code computes: a read or a
-- write outside the cells fails. A call that fails keeps what it has written until then.
pub mod Build
pub mod Handler
pub mod Edges
pub mod Walk
pub mod Sums
pub mod Runs
pub mod Loop
pub mod Recalc
pub mod Settle
pub mod Link
pub mod Linked
pub mod Numbers
pub mod Values
pub mod Added
pub mod Insert
pub mod Ends
pub mod Total
pub mod Find
pub mod Update
pub mod Bits
pub mod Rebuilt
pub mod Broken
mod Tests
mod Examples
use Prim.Native.Nat.{bit_xor}
use frozen.Base.{
  ℕ, zero, suc, ◌+◌, ◌-◌, ◌*◌, ◌/◌, ◌%◌, ◌^◌, Bool, true, false, Option, none, some, List, [], ◌∷◌,
  ◌++◌, ◌==◌, ltb, leb, if◌then◌else◌, length, get_elem?, set, replicate, sub64, add64, mul64,
  Result, ok, err, fault, Errno, ebadf, enoent, logged, max,
}

-- `graph_edge_t`: two vertices, and the edge that follows in the list of each.
pub record Edge : Type 0 where
  pub vertex0 : ℕ
  pub vertex1 : ℕ
  pub next0 : ℕ
  pub next1 : ℕ

-- `chm_imp_t` and its `chm_imp_params_t`. The cells of `be_g` are the numbers of the vertices, behind
-- the parameters, those of `be_v` the first edge of each vertex, and those of `be_e` the edges.
pub record Chm : Type 0 where
  pub writeable : Bool
  pub be_g : List ℕ
  pub be_v : List ℕ
  pub be_e : List Edge
  pub capacity : ℕ
  pub nelements : ℕ
  pub hash1 : ℕ
  pub hash2 : ℕ
  pub nelements_min : ℕ
  pub nelements_step : ℕ
  pub nelements_mul : ℕ
  pub nvertex : ℕ
  pub bi_value : ℕ
  pub bt_value : ℕ
  pub bi_vertex : ℕ
  pub bt_vertex : ℕ

-- A call on a state: it ends, or it stops with an error and the state as it is then, or the fuel of
-- its loops was too little.
pub data Outcome {ℓ} (S : Type ℓ) : Type ℓ where
  done : S → Outcome S
  failed : Errno → S → Outcome S
  starved : Outcome S

infixl 5 ◌>>=◌
abbrev pub ◌>>=◌ {ℓ} : {S : Type ℓ} → Outcome S → (S → Outcome S) → Outcome S
done s >>= f = f s
failed e s >>= f = failed e s
starved >>= f = starved

-- The use of a cell that was read; the call fails if there is none.
abbrev pub with_cell {ℓ} : {S : Type ℓ} → Option ℕ → S → (ℕ → Outcome S) → Outcome S
with_cell none s f = failed logged s
with_cell (some x) s f = f x

-- What a cell of `bt` bytes holds.
pub cell : ℕ → ℕ
cell bt = 2 ^ (8 * bt)

-- A number as it is stored in `bt` bytes.
pub cut : ℕ → ℕ → ℕ
unfolding cell
cut bt x = x % cell bt

-- A write to the cell of a vertex, in `bt` bytes.
pub write_cell : ℕ → ℕ → ℕ → List ℕ → Outcome (List ℕ)
write_cell bt v x cells =
    if ltb v (length cells) then done (set cells v (cut bt x)) else failed logged cells

-- A read of the edge of an id, which is 1 for the first one, where `bt_vertex` is below 8: the mask of a
-- cell, `(1 << (bt_vertex << 3)) - 1`, is undefined for 8, which takes 2^56 vertices.
pub graph_get_edge : Chm → ℕ → Option Edge
graph_get_edge c zero = none
graph_get_edge c (suc n) = get_elem? c.be_e n

-- The other vertex of an edge, and the edge that follows it in the list of `v`; none if `v` is not a
-- vertex of the edge.
abbrev pub side : Edge → ℕ → Option (ℕ × ℕ)
side e v =
    if e.vertex0 == v
    then some (e.vertex1, e.next0)
    else if e.vertex1 == v
    then some (e.vertex0, e.next1)
    else none

-- Whether a vertex is in the list of those that a call comes from.
abbrev pub on_path : ℕ → List ℕ → Bool
on_path v [] = false
on_path v (p ∷ path) = if p == v then true else on_path v path

-- The number that keeps the sum over an edge when the number at its other end changes.
pub frn_g_new : ℕ → ℕ → ℕ → ℕ
frn_g_new g_old frn_g_old g_new = sub64 (add64 g_old frn_g_old) g_new

-- `graph_recalc`, which gives `v` a new number and changes those of all that hangs on it, save along
-- `skip_edge`; and its loop over the edges of `v`, from `edge_id` on.
unfoldable mutual
  pub graph_recalc : ℕ → Chm → List ℕ → ℕ → ℕ → ℕ → ℕ → List ℕ → Outcome (List ℕ)
  graph_recalc zero c path v g_old g_new skip_edge g = starved
  graph_recalc (suc fuel) c path v g_old g_new skip_edge g = elim (on_path v path) [
    | true ↦ failed ebadf g
    | false ↦ with_cell (get_elem? c.be_v v) g λ edge_id.
        recalc_edges fuel c path v g_old g_new skip_edge edge_id g >>= write_cell c.bt_value v g_new
  ]

  pub recalc_edges : ℕ → Chm → List ℕ → ℕ → ℕ → ℕ → ℕ → ℕ → List ℕ → Outcome (List ℕ)
  recalc_edges zero c path v g_old g_new skip_edge edge_id g = starved
  recalc_edges (suc fuel) c path v g_old g_new skip_edge zero g = done g
  recalc_edges (suc fuel) c path v g_old g_new skip_edge (suc n) g =
      elim (graph_get_edge c (suc n)) [
        | none ↦ failed enoent g
        | some edge ↦ elim (side edge v) [
          | none ↦ failed logged g
          | some (frn, next) ↦ elim (skip_edge == suc n) [
            | true ↦ recalc_edges fuel c path v g_old g_new skip_edge next g
            | false ↦ with_cell (get_elem? g frn) g λ frn_g_old.
                graph_recalc fuel c (v ∷ path) frn frn_g_old (frn_g_new g_old frn_g_old g_new)
                  (suc n) g
                >>= recalc_edges fuel c path v g_old g_new skip_edge next
          ]
        ]
      ]

-- The index with the numbers, or with the first edges, that a call leaves.
abbrev pub with_g : Chm → Outcome (List ℕ) → Outcome Chm
with_g c (done g) = done (record c { be_g = g })
with_g c (failed e g) = failed e (record c { be_g = g })
with_g c starved = starved

abbrev pub with_v : Chm → Outcome (List ℕ) → Outcome Chm
with_v c (done v) = done (record c { be_v = v })
with_v c (failed e v) = failed e (record c { be_v = v })
with_v c starved = starved

-- `graph_set_first` for the two vertices of a new edge.
pub graph_set_first : ℕ → ℕ → ℕ → Chm → Outcome Chm
graph_set_first v0 v1 id c =
    with_v c (write_cell c.bt_vertex v0 id c.be_v >>= write_cell c.bt_vertex v1 id)

-- `graph_set_edge`.
pub graph_set_edge : ℕ → Edge → Chm → Outcome Chm
graph_set_edge id e c =
    let stored : Edge = record {
      vertex0 = cut c.bt_vertex e.vertex0;
      vertex1 = cut c.bt_vertex e.vertex1;
      next0 = cut c.bt_vertex e.next0;
      next1 = cut c.bt_vertex e.next1;
    } in
    if ltb (id - 1) (length c.be_e)
    then done (record c { be_e = set c.be_e (id - 1) stored })
    else failed logged c

-- What `graph_add_edge` does to the numbers: a vertex that has no other edge takes the difference;
-- where both have edges, all that hangs on the second one follows.
pub update_g : ℕ → ℕ → ℕ → ℕ → ℕ → ℕ → ℕ → Chm → Outcome Chm
update_g fuel v0 v1 n0 n1 value id c =
    if n0 == 0
    then with_cell (get_elem? c.be_g v1) c
        (λ t. with_g c (write_cell c.bt_value v0 (sub64 value t) c.be_g))
    else if n1 == 0
    then with_cell (get_elem? c.be_g v0) c
        (λ t. with_g c (write_cell c.bt_value v1 (sub64 value t) c.be_g))
    else with_cell (get_elem? c.be_g v0) c (λ t0.
      with_cell (get_elem? c.be_g v1) c
        (λ t1. with_g c (graph_recalc fuel c [] v1 t1 (sub64 value t0) id c.be_g)))

-- The new edge is linked at the head of the list of each of its vertices.
pub link_edge : ℕ → ℕ → ℕ → ℕ → ℕ → Chm → Outcome Chm
link_edge v0 v1 n0 n1 id c =
    graph_set_edge id (record { vertex0 = v0; vertex1 = v1; next0 = n0; next1 = n1 }) c
    >>= graph_set_first v0 v1 id

-- `fresh` is what the cells of a new edge hold.
pub graph_add_edge : ℕ → Edge → ℕ → ℕ → ℕ → Chm → Outcome Chm
graph_add_edge fuel fresh v0 v1 value c =
    let id = suc (length c.be_e) in
    let c1 = record c { be_e = c.be_e ++ fresh ∷ [] } in
    with_cell (get_elem? c.be_v v0) c1 λ n0. with_cell (get_elem? c.be_v v1) c1 λ n1.
      link_edge v0 v1 n0 n1 id c1 >>= update_g fuel v0 v1 n0 n1 value id >>= λ c2.
      done (record c2 { nelements = add64 c2.nelements 1 })

-- The vertices of a key.
pub vertex_0 : Chm → ℕ → ℕ
vertex_0 c key = bit_xor key c.hash1 % c.nvertex

pub vertex_1 : Chm → ℕ → ℕ
vertex_1 c key = bit_xor key c.hash2 % c.nvertex

unfoldable pub mphf_chm_imp_insert : ℕ → Edge → ℕ → ℕ → Chm → Outcome Chm
mphf_chm_imp_insert fuel fresh key value c =
    let v0 = vertex_0 c key in
    let v1 = vertex_1 c key in
    if c.writeable
    then if v0 == v1 then failed ebadf c else graph_add_edge fuel fresh v0 v1 value c
    else failed logged c

-- MPHF_QUERY_NOTFOUND is `none`. The mask of the value, `(1 << bi_value) - 1`, is undefined for a value
-- of 64 bits or more.
unfoldable pub mphf_chm_imp_query : ℕ → Chm → Result (Option ℕ)
mphf_chm_imp_query key c =
    let v0 = vertex_0 c key in
    let v1 = vertex_1 c key in
    if v0 == v1 then ok none else elim (get_elem? c.be_g v0) [
      | none ↦ ok none
      | some g0 ↦ elim (get_elem? c.be_g v1) [
        | none ↦ ok none
        | some g1 ↦ if ltb c.bi_value 64 then ok (some (add64 g0 g1 % 2 ^ c.bi_value)) else fault
      ]
    ]

-- The loop of `graph_find_edge` from an edge on; the result is none where the fuel was too little.
unfoldable pub graph_find_edge : ℕ → Chm → ℕ → ℕ → ℕ → Option (Result ℕ)
graph_find_edge zero c v0 v1 id = none
graph_find_edge (suc fuel) c v0 v1 id = elim (graph_get_edge c id) [
  | none ↦ some (err enoent)
  | some e ↦
      let following = λ (next : ℕ).
        let rest = graph_find_edge fuel c v0 v1 next in
        if next == 0 then some (err enoent) else rest in
      if e.vertex0 == v0
      then if e.vertex1 == v1 then some (ok id) else following e.next0
      else if e.vertex1 == v0
      then following e.next1
      else some (err logged)
]

-- The new value of an edge that is there.
pub update_edge : ℕ → ℕ → ℕ → ℕ → ℕ → Chm → Outcome Chm
update_edge fuel v1 g_old g_new id c =
    with_g c (graph_recalc fuel c [] v1 g_old g_new id c.be_g >>= write_cell c.bt_value v1 g_new)

unfoldable pub mphf_chm_imp_update : ℕ → Edge → ℕ → ℕ → Chm → Outcome Chm
mphf_chm_imp_update fuel fresh key value c =
    let v0 = vertex_0 c key in
    let v1 = vertex_1 c key in
    let insert_new = mphf_chm_imp_insert fuel fresh key value c in
    if c.writeable
    then if v0 == v1 then insert_new else elim (get_elem? c.be_v v0) [
      | none ↦ insert_new
      | some first ↦ elim (graph_find_edge fuel c v0 v1 first) [
        | none ↦ starved
        | some (ok id) ↦ elim (get_elem? c.be_g v1) [
          | none ↦ insert_new
          | some g_old ↦ update_edge fuel v1 g_old (sub64 value g_old) id c
        ]
        | some _ ↦ insert_new
      ]
    ]
    else failed logged c
