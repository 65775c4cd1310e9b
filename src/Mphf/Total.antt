-- ===== src/Mphf/Total.antt =====
-- With enough fuel an insertion of mphf_chm_imp.c ends.
use frozen.Base.{
  ℕ, suc, ◌+◌, ◌*◌, ◌≤◌, ◌<◌, ◌≡◌, ◌≢◌, some, List, [], ◌∷◌, ◌++◌, get_elem?, length, length-append,
  ◌==◌, sub64, ebadf, logged, if-intro, arith,
}
use frozen.Mphf.{
  Edge, Chm, Outcome, done, failed, starved, ◌>>=◌, cell, with_g, update_g, link_edge,
  graph_add_edge, vertex_0, vertex_1, mphf_chm_imp_insert,
}
use frozen.Mphf.Link.{IsValid, with_edge, link_edge_lem, get_elem?-lt}
use frozen.Mphf.Linked.{with_edge-IsValid}
use frozen.Mphf.Ends.{
  Ends, ended, stopped, Ends->>=, Ends-with_cell, Ends-write_cell, fresh, fresh-le,
  graph_recalc-Ends,
}

-- The fuel for an insertion: a round for each edge and the new one, at each vertex.
abbrev pub insert_fuel : Chm → ℕ
insert_fuel c = suc (c.nvertex * (length c.be_e + 3))

Ends-with_g : (c : Chm) (m : Outcome (List ℕ)) → Ends m → Ends (with_g c m)
Ends-with_g c (done g) h = ended _
Ends-with_g c (failed e g) h = stopped e _
Ends-with_g c starved h = elim h [ ]

enough : (n m k l fuel : ℕ) → n ≤ m → k ≤ l → suc (m * l) ≤ fuel → suc (n * k) ≤ fuel
enough n m k l fuel h g f = grind arith

module _ {c : Chm} {v0 v1 n0 n1 : ℕ} (valid : IsValid c) (apart : v0 ≢ v1)
    (at0 : get_elem? c.be_v v0 ≡ some n0) (at1 : get_elem? c.be_v v1 ≡ some n1) where
  update_g-Ends :
      (fuel value : ℕ)
      → insert_fuel c ≤ fuel
      → Ends (update_g fuel v0 v1 n0 n1 value (suc (length c.be_e)) (with_edge c v0 v1 n0 n1))
  unfolding update_g
  update_g-Ends fuel value h =
      let linked = with_edge c v0 v1 n0 n1 in
      let id = suc (length c.be_e) in
      let after = with_edge-IsValid valid apart at0 at1 in
      let size = after.v_size in
      let le = fresh-le (length linked.be_v) in
      let more =
        length-append {0} c.be_e
          (record { vertex0 = v0; vertex1 = v1; next0 = n0; next1 = n1 } ∷ []) in
      let fuel_lem =
        enough (fresh (length linked.be_v) []) c.nvertex (length linked.be_e + 2)
          (length c.be_e + 3) fuel (omega arith) (omega arith) h in
      if-intro Ends (n0 == 0)
        (λ _.
          Ends-with_cell (get_elem? c.be_g v1) linked _
            λ t _. Ends-with_g linked _ (Ends-write_cell c.bt_value v0 (sub64 value t) c.be_g))
        (λ _.
          if-intro Ends (n1 == 0)
            (λ _.
              Ends-with_cell (get_elem? c.be_g v0) linked _
                λ t _. Ends-with_g linked _ (Ends-write_cell c.bt_value v1 (sub64 value t) c.be_g))
            (λ _. Ends-with_cell (get_elem? c.be_g v0) linked _ λ t0 _.
              Ends-with_cell (get_elem? c.be_g v1) linked _ λ t1 _. Ends-with_g linked _ (
                graph_recalc-Ends after.graph after.firsts fuel [] v1 t1 (sub64 value t0) id c.be_g
                  fuel_lem)))

graph_add_edge-Ends :
    (fuel : ℕ) (new : Edge) (v0 v1 value : ℕ) (c : Chm)
    → IsValid c
    → v0 ≢ v1
    → suc (length c.be_e) < cell c.bt_vertex
    → insert_fuel c ≤ fuel
    → Ends (graph_add_edge fuel new v0 v1 value c)
unfolding graph_add_edge
graph_add_edge-Ends fuel new v0 v1 value c valid apart few h =
    let c1 = record c { be_e = c.be_e ++ new ∷ [] } in
    let id = suc (length c.be_e) in
    Ends-with_cell (get_elem? c.be_v v0) c1 _ λ n0 at0.
      Ends-with_cell (get_elem? c.be_v v1) c1 _ λ n1 at1.
        let l0 = get_elem?-lt c.be_v v0 at0 in
        let l1 = get_elem?-lt c.be_v v1 at1 in
        let size = valid.v_size in
        let room = valid.room in
        let k =
          link_edge_lem c new v0 v1 n0 n1 l0 l1 (omega arith) (valid.firsts v0 n0 at0)
            (valid.firsts v1 n1 at1) few in
        Ends->>= (link_edge v0 v1 n0 n1 id c1 >>= update_g fuel v0 v1 n0 n1 value id) _
          (rw k (update_g-Ends valid apart at0 at1 fuel value h)) (λ s _. ended _)

-- With the fuel `insert_fuel`, one more than the number of vertices times that of edges plus three, an
-- insertion into an index in use, whose edges have not used up the ids that a cell holds, does not run
-- out of fuel: it ends, with or without an error.
pub mphf_chm_imp_insert-Ends :
    (fuel : ℕ) (new : Edge) (key value : ℕ) (c : Chm)
    → IsValid c
    → suc (length c.be_e) < cell c.bt_vertex
    → insert_fuel c ≤ fuel
    → Ends (mphf_chm_imp_insert fuel new key value c)
unfolding mphf_chm_imp_insert
mphf_chm_imp_insert-Ends fuel new key value c valid few h =
    if-intro Ends c.writeable
      (λ _.
        if-intro Ends (vertex_0 c key == vertex_1 c key) (λ _. stopped ebadf c)
          (λ differ.
            graph_add_edge-Ends fuel new (vertex_0 c key) (vertex_1 c key) value c valid
              (ground arith) few h))
      (λ _. stopped logged c)
