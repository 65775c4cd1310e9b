-- ===== src/Mphf/Insert.antt =====
-- `mphf_chm_imp_insert`: the new key has its value, every older one keeps its own, and the index stays
-- one.
use frozen.Base.{
  ◌++◌, ◌∷◌, [], ebadf, logged, if◌then◌else◌, ℕ, suc, ◌<◌, ◌≡◌, ◌≢◌, refl, ap, subst, ◌∙◌, some,
  List, get_elem?, length, ◌==◌, add64, arith,
}
use frozen.Mphf.{
  failed, ◌>>=◌, Edge, Chm, done, cell, update_g, link_edge, graph_add_edge, vertex_0, vertex_1,
  mphf_chm_imp_insert,
}
use frozen.Mphf.Runs.{if-done_then, if-done_else, >>=-done, with_cell-done}
use frozen.Mphf.Link.{IsValid, HasMasks, with_edge, link_edge_lem, get_elem?-lt}
use frozen.Mphf.Linked.{get_edge-le, Leads-old, Leads-new, with_edge-IsValid}
use frozen.Mphf.Numbers.{with_numbers, with_numbers-IsValid}
use frozen.Mphf.Values.{Holds, Updated, Holds-final, Holds-sum}
use frozen.Mphf.Added.{Summed, update_g-Summed}

-- The vertices of a key depend on the hashes and the number of vertices.
module _ (c : Chm) (v0 v1 n0 n1 key : ℕ) where
  vertex_0_linked : vertex_0 (with_edge c v0 v1 n0 n1) key ≡ vertex_0 c key
  unfolding vertex_0
  vertex_0_linked = refl

  vertex_1_linked : vertex_1 (with_edge c v0 v1 n0 n1) key ≡ vertex_1 c key
  unfolding vertex_1
  vertex_1_linked = refl

Updated-intro :
    {c : Chm} {n0 n1 : ℕ} (key value n : ℕ) (g' : List ℕ) (valid : IsValid c)
    (bits : c.bi_value < 64)
    → vertex_0 c key ≢ vertex_1 c key
    → get_elem? c.be_v (vertex_0 c key) ≡ some n0
    → get_elem? c.be_v (vertex_1 c key) ≡ some n1
    → Summed
        (with_edge c (vertex_0 c key) (vertex_1 c key) n0 n1)
        (suc (length c.be_e))
        (vertex_0 c key)
        (vertex_1 c key)
        value
        c.be_g
        g'
    → Updated c
        (with_numbers (with_edge c (vertex_0 c key) (vertex_1 c key) n0 n1) g' n)
        key
        (suc (length c.be_e))
        value
Updated-intro {c} {n0 = n0} {n1 = n1} key value n g' valid bits apart at0 at1 summed =
    let v0 = vertex_0 c key in
    let v1 = vertex_1 c key in
    let after = with_edge-IsValid valid apart at0 at1 in
    record {
      valid = with_numbers-IsValid (with_edge c v0 v1 n0 n1) g' n after summed.size summed.small;
      stored =
          Holds-final after bits n g' summed.size summed.small key v0 v1
            (vertex_0_linked c v0 v1 n0 n1 key) (vertex_1_linked c v0 v1 n0 n1 key)
            (Leads-new valid apart at0 at1) summed.sum;
      kept = λ key' id x ne held.
          let l = Leads-old valid apart at0 at1 held.edge in
          Holds-final after bits n g' summed.size summed.small key' (vertex_0 c key')
            (vertex_1 c key') (vertex_0_linked c v0 v1 n0 n1 key')
            (vertex_1_linked c v0 v1 n0 n1 key') l
            (summed.others (vertex_0 c key') id (vertex_1 c key') ne l ∙ Holds-sum valid bits held);
    }

graph_add_edge-done :
    (fuel : ℕ) (fresh : Edge) (v0 v1 value : ℕ) (c : Chm) {c' : Chm}
    → IsValid c
    → suc (length c.be_e) < cell c.bt_vertex
    → graph_add_edge fuel fresh v0 v1 value c ≡ done c'
    → (n0 : ℕ) × (n1 : ℕ) × (c2 : Chm) × (get_elem? c.be_v v0 ≡ some n0)
      × (get_elem? c.be_v v1 ≡ some n1)
      × (update_g fuel v0 v1 n0 n1 value (suc (length c.be_e)) (with_edge c v0 v1 n0 n1) ≡ done c2)
      × (record c2 { nelements = add64 c2.nelements 1 } ≡ c')
unfolding graph_add_edge
graph_add_edge-done fuel fresh v0 v1 value c valid few h =
    let c1 = record c { be_e = c.be_e ++ fresh ∷ [] } in
    let id = suc (length c.be_e) in
    let (n0, at0, h0) = with_cell-done (get_elem? c.be_v v0) c1 _ h in
    let (n1, at1, h1) = with_cell-done (get_elem? c.be_v v1) c1 _ h0 in
    let (c2, h2, e) =
      >>=-done (link_edge v0 v1 n0 n1 id c1 >>= update_g fuel v0 v1 n0 n1 value id) _ h1 in
    let (c3, h3, up) =
      >>=-done (link_edge v0 v1 n0 n1 id c1) (update_g fuel v0 v1 n0 n1 value id) h2 in
    let l0 = get_elem?-lt c.be_v v0 at0 in
    let l1 = get_elem?-lt c.be_v v1 at1 in
    let size = valid.v_size in
    let room = valid.room in
    let k =
      link_edge_lem c fresh v0 v1 n0 n1 l0 l1 (omega arith) (valid.firsts v0 n0 at0)
        (valid.firsts v1 n1 at1) few in
    let same : c3 ≡ with_edge c v0 v1 n0 n1 = cc in
    (
      n0,
      n1,
      c2,
      at0,
      at1,
      subst (λ x. update_g fuel v0 v1 n0 n1 value id x ≡ done c2) same up,
      cc e,
    )

graph_add_edge-Updated :
    (fuel : ℕ) (fresh : Edge) (key value : ℕ) (c : Chm) {c' : Chm}
    → IsValid c
    → c.bi_value < 64
    → vertex_0 c key ≢ vertex_1 c key
    → suc (length c.be_e) < cell c.bt_vertex
    → graph_add_edge fuel fresh (vertex_0 c key) (vertex_1 c key) value c ≡ done c'
    → Updated c c' key (suc (length c.be_e)) value
graph_add_edge-Updated fuel fresh key value c valid bits apart few h =
    let v0 = vertex_0 c key in
    let v1 = vertex_1 c key in
    let (n0, n1, c2, at0, at1, up, e) = graph_add_edge-done fuel fresh v0 v1 value c valid few h in
    let (g', e2, summed) = update_g-Summed valid apart at0 at1 fuel value up in
    let e3 = ap (λ (x : Chm). record x { nelements = add64 x.nelements 1 }) e2 ∙ e in
    subst (λ x. Updated c x key (suc (length c.be_e)) value) e3
      (Updated-intro key value (add64 c.nelements 1) g' valid bits apart at0 at1 summed)

-- A successful insertion into an index in use, of values below 64 bits and cells below 8 bytes, whose
-- edges have not used up the ids that a cell holds, leaves an index in use. There the new key has the next edge, and a query of it finds its value, cut
-- to the bits of a value; and every key that held an edge and a value before holds them still.
pub mphf_chm_imp_insert-Updated :
    (fuel : ℕ) (fresh : Edge) (key value : ℕ) (c : Chm) {c' : Chm}
    → IsValid c
    → HasMasks c
    → suc (length c.be_e) < cell c.bt_vertex
    → mphf_chm_imp_insert fuel fresh key value c ≡ done c'
    → Updated c c' key (suc (length c.be_e)) value
      × ((key' id x : ℕ) → Holds c key' id x → Holds c' key' id x)
unfolding mphf_chm_imp_insert
mphf_chm_imp_insert-Updated fuel fresh key value c {c' = c'} valid masks few h =
    let v0 = vertex_0 c key in
    let v1 = vertex_1 c key in
    let add = graph_add_edge fuel fresh v0 v1 value c in
    let k = if-done_then c.writeable (if v0 == v1 then failed ebadf c else add) logged c h in
    let (differ, k1) = if-done_else (v0 == v1) add ebadf c k in
    let up =
      graph_add_edge-Updated fuel fresh key value c valid masks.value_mask (ground arith) few k1 in
    (
      up,
      λ key' id x held.
          let le = get_edge-le c id held.edge.stored in up.kept key' id x (omega arith) held,
    )
