-- ===== src/Mphf/Tests.antt =====
-- Runs of the index of mphf_chm_imp.c, and the theorems at them.
use frozen.Base.{ok, some, ebadf, map, ℕ, ◌≡◌, refl, true, [], ◌∷◌}
use frozen.Mphf.{
  vertex_0, vertex_1, graph_add_edge, link_edge, graph_set_edge, graph_set_first, write_cell,
  update_g, cut, graph_recalc, graph_get_edge, frn_g_new, graph_find_edge, update_edge, failed,
  mphf_chm_imp_query, mphf_chm_imp_update, Edge, Chm, Outcome, done, mphf_chm_imp_insert,
}
use frozen.Mphf.Build.{mphf_chm_imp_rebuild}

-- An index without files, for values of eight bits and five keys.
abbrev pub blank : Chm
blank = record {
  writeable = true;
  be_g = [];
  be_v = [];
  be_e = [];
  capacity = 0;
  nelements = 0;
  hash1 = 0;
  hash2 = 0;
  nelements_min = 0;
  nelements_step = 5;
  nelements_mul = 1;
  nvertex = 0;
  bi_value = 8;
  bt_value = 1;
  bi_vertex = 0;
  bt_vertex = 0;
}

abbrev pub edge : ℕ → ℕ → ℕ → ℕ → Edge
edge v0 v1 n0 n1 = record { vertex0 = v0; vertex1 = v1; next0 = n0; next1 = n1 }

abbrev pub fresh_edge : Edge
fresh_edge = edge 0 0 0 0

-- The index of ten vertices that a rebuild makes of it.
abbrev pub empty : Chm
empty = record blank {
  be_g = 0 ∷ 0 ∷ 0 ∷ 0 ∷ 0 ∷ 0 ∷ 0 ∷ 0 ∷ 0 ∷ 0 ∷ [];
  be_v = 0 ∷ 0 ∷ 0 ∷ 0 ∷ 0 ∷ 0 ∷ 0 ∷ 0 ∷ 0 ∷ 0 ∷ [];
  capacity = 5;
  hash1 = 0;
  hash2 = 7;
  nvertex = 10;
  bi_vertex = 4;
  bt_vertex = 1;
}

pub test_rebuild : mphf_chm_imp_rebuild 70 0 7 blank ≡ done empty
unfolding mphf_chm_imp_rebuild
test_rebuild = refl

abbrev pub put : ℕ → ℕ → Chm → Outcome Chm
put = mphf_chm_imp_insert 100 fresh_edge

-- With key 0 at the vertices 0 and 7.
abbrev pub one_edge : Chm
one_edge = record empty {
  be_g = 100 ∷ 0 ∷ 0 ∷ 0 ∷ 0 ∷ 0 ∷ 0 ∷ 0 ∷ 0 ∷ 0 ∷ [];
  be_v = 1 ∷ 0 ∷ 0 ∷ 0 ∷ 0 ∷ 0 ∷ 0 ∷ 1 ∷ 0 ∷ 0 ∷ [];
  be_e = edge 0 7 0 0 ∷ [];
  nelements = 1;
}

-- With key 10 at 0 and 3.
abbrev pub two_edges : Chm
two_edges = record empty {
  be_g = 100 ∷ 0 ∷ 0 ∷ 206 ∷ 0 ∷ 0 ∷ 0 ∷ 0 ∷ 0 ∷ 0 ∷ [];
  be_v = 2 ∷ 0 ∷ 0 ∷ 2 ∷ 0 ∷ 0 ∷ 0 ∷ 1 ∷ 0 ∷ 0 ∷ [];
  be_e = edge 0 7 0 0 ∷ edge 0 3 1 0 ∷ [];
  nelements = 2;
}

-- With key 8 at 8 and 5.
abbrev pub three_edges : Chm
three_edges = record empty {
  be_g = 100 ∷ 0 ∷ 0 ∷ 206 ∷ 0 ∷ 0 ∷ 0 ∷ 0 ∷ 7 ∷ 0 ∷ [];
  be_v = 2 ∷ 0 ∷ 0 ∷ 2 ∷ 0 ∷ 3 ∷ 0 ∷ 1 ∷ 3 ∷ 0 ∷ [];
  be_e = edge 0 7 0 0 ∷ edge 0 3 1 0 ∷ edge 8 5 0 0 ∷ [];
  nelements = 3;
}

-- With key 2 at 2 and 5: two trees of edges.
abbrev pub two_trees : Chm
two_trees = record empty {
  be_g = 100 ∷ 0 ∷ 9 ∷ 206 ∷ 0 ∷ 0 ∷ 0 ∷ 0 ∷ 7 ∷ 0 ∷ [];
  be_v = 2 ∷ 0 ∷ 4 ∷ 2 ∷ 0 ∷ 4 ∷ 0 ∷ 1 ∷ 3 ∷ 0 ∷ [];
  be_e = edge 0 7 0 0 ∷ edge 0 3 1 0 ∷ edge 8 5 0 0 ∷ edge 2 5 0 3 ∷ [];
  nelements = 4;
}

-- With key 17 at 7 and 2, which joins them.
abbrev pub one_tree : Chm
one_tree = record empty {
  be_g = 100 ∷ 0 ∷ 200 ∷ 206 ∷ 0 ∷ 65 ∷ 0 ∷ 0 ∷ 198 ∷ 0 ∷ [];
  be_v = 2 ∷ 0 ∷ 5 ∷ 2 ∷ 0 ∷ 4 ∷ 0 ∷ 5 ∷ 3 ∷ 0 ∷ [];
  be_e = edge 0 7 0 0 ∷ edge 0 3 1 0 ∷ edge 8 5 0 0 ∷ edge 2 5 0 3 ∷ edge 7 2 1 4 ∷ [];
  nelements = 5;
}

pub test_put_0 : put 0 100 empty ≡ done one_edge
unfolding mphf_chm_imp_insert vertex_0 vertex_1 graph_add_edge link_edge graph_set_edge
    graph_set_first write_cell update_g cut graph_recalc graph_get_edge frn_g_new
test_put_0 = refl

pub test_put_10 : put 10 50 one_edge ≡ done two_edges
unfolding mphf_chm_imp_insert vertex_0 vertex_1 graph_add_edge link_edge graph_set_edge
    graph_set_first write_cell update_g cut graph_recalc graph_get_edge frn_g_new
test_put_10 = refl

pub test_put_8 : put 8 7 two_edges ≡ done three_edges
unfolding mphf_chm_imp_insert vertex_0 vertex_1 graph_add_edge link_edge graph_set_edge
    graph_set_first write_cell update_g cut graph_recalc graph_get_edge frn_g_new
test_put_8 = refl

pub test_put_2 : put 2 9 three_edges ≡ done two_trees
unfolding mphf_chm_imp_insert vertex_0 vertex_1 graph_add_edge link_edge graph_set_edge
    graph_set_first write_cell update_g cut graph_recalc graph_get_edge frn_g_new
test_put_2 = refl

pub test_put_17 : put 17 200 two_trees ≡ done one_tree
unfolding mphf_chm_imp_insert vertex_0 vertex_1 graph_add_edge link_edge graph_set_edge
    graph_set_first write_cell update_g cut graph_recalc graph_get_edge frn_g_new
test_put_17 = refl

-- The insertion that joins the trees has moved the numbers, and the older keys keep their values.
test_query :
    map (λ key. mphf_chm_imp_query key one_tree) (0 ∷ 10 ∷ 8 ∷ 2 ∷ 17 ∷ [])
    ≡ map (λ x. ok (some x)) (100 ∷ 50 ∷ 7 ∷ 9 ∷ 200 ∷ [])
unfolding mphf_chm_imp_query vertex_0 vertex_1
test_query = refl

-- Key 16, at 6 and 3, was never inserted, and has a value all the same.
test_absent : mphf_chm_imp_query 16 one_tree ≡ ok (some 206)
unfolding mphf_chm_imp_query vertex_0 vertex_1
test_absent = refl

abbrev pub circle : Chm
circle = record one_tree {
  be_v = 6 ∷ 0 ∷ 5 ∷ 6 ∷ 0 ∷ 4 ∷ 0 ∷ 5 ∷ 3 ∷ 0 ∷ [];
  be_e =
      edge 0 7 0 0 ∷ edge 0 3 1 0 ∷ edge 8 5 0 0 ∷ edge 2 5 0 3 ∷ edge 7 2 1 4 ∷ edge 3 0 2 2 ∷ [];
}

-- Key 13 has the vertices of key 10: the circle is found. The edge stays in the lists.
pub test_circle : put 13 1 one_tree ≡ failed ebadf circle
unfolding mphf_chm_imp_insert vertex_0 vertex_1 graph_add_edge link_edge graph_set_edge
    graph_set_first write_cell update_g cut graph_recalc graph_get_edge frn_g_new
test_circle = refl

-- The numbers after the value 5 is given to key 17.
abbrev pub drifted : Chm
drifted = record one_tree { be_g = 100 ∷ 0 ∷ 61 ∷ 206 ∷ 0 ∷ 204 ∷ 0 ∷ 0 ∷ 59 ∷ 0 ∷ [] }

-- The value 5 is given to key 17, and 61 is found, which is 5 + 0 - 200 in eight bits.
pub test_update : mphf_chm_imp_update 100 fresh_edge 17 5 one_tree ≡ done drifted
unfolding mphf_chm_imp_update graph_find_edge update_edge vertex_0 vertex_1 graph_add_edge link_edge
    graph_set_edge graph_set_first write_cell update_g cut graph_recalc graph_get_edge frn_g_new
test_update = refl

test_drift : mphf_chm_imp_query 17 drifted ≡ ok (some 61)
unfolding mphf_chm_imp_query vertex_0 vertex_1
test_drift = refl
