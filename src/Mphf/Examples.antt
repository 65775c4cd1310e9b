-- ===== src/Mphf/Examples.antt =====
-- The theorems about the index of mphf_chm_imp.c and mphf.c at the runs of the tests.
use frozen.Base.{
  ℕ, ◌≡◌, refl, sym, ◌∙◌, ◌<◌, ◌⊎◌, inl, inr, true, false, some, [], ◌∷◌, subst, suc, err, ebadf,
  logged, arith,
}
use frozen.Mphf.{Chm, done, failed, cell, mphf_chm_imp_insert, vertex_0, vertex_1}
use frozen.Mphf.Edges.{Leads}
use frozen.Mphf.Link.{IsValid, HasMasks}
use frozen.Mphf.Values.{Holds, Updated}
use frozen.Mphf.Ends.{Ends}
use frozen.Mphf.Total.{mphf_chm_imp_insert-Ends}
use frozen.Mphf.Insert.{mphf_chm_imp_insert-Updated}
use frozen.Mphf.Update.{Drifted, mphf_chm_imp_update-Drifted}
use frozen.Mphf.Build.{mphf_chm_imp_rebuild}
use frozen.Mphf.Rebuilt.{Rebuilt, mphf_chm_imp_rebuild-Rebuilt}
use frozen.Mphf.Handler.{Request, create, read, mphf_session}
use frozen.Mphf.Broken.{mphf_session-broken}
use frozen.Mphf.Tests.{
  blank, fresh_edge, empty, one_edge, two_edges, three_edges, two_trees, one_tree, drifted, circle,
  test_rebuild, test_put_0, test_put_10, test_put_8, test_put_2, test_put_17, test_update,
  test_circle,
}

mphf_chm_imp_rebuild-Rebuilt_example :
    ((c' : Chm) × (mphf_chm_imp_rebuild 70 0 7 blank ≡ failed logged c'))
    ⊎ ((c' : Chm) × (mphf_chm_imp_rebuild 70 0 7 blank ≡ done c') × Rebuilt 0 7 c')
mphf_chm_imp_rebuild-Rebuilt_example =
    mphf_chm_imp_rebuild-Rebuilt 70 0 7 blank (omega arith) (omega arith)
      (record { fits = omega arith; word = omega arith })

empty-IsValid : IsValid empty
empty-IsValid =
    elim (mphf_chm_imp_rebuild-Rebuilt 70 0 7 blank (omega arith) (omega arith)
      (record { fits = omega arith; word = omega arith })) [
        | inl (c', e) ↦ let p : ⊥ = cc (sym e ∙ test_rebuild) in absurd p
        | inr (c', e, r) ↦ subst (λ c. IsValid c) (cc (sym e ∙ test_rebuild)) r.valid
      ]

empty-HasMasks : HasMasks empty
empty-HasMasks = record { value_mask = omega arith; vertex_mask = omega arith }

one_edge-HasMasks : HasMasks one_edge
one_edge-HasMasks = record { value_mask = omega arith; vertex_mask = omega arith }

two_edges-HasMasks : HasMasks two_edges
two_edges-HasMasks = record { value_mask = omega arith; vertex_mask = omega arith }

three_edges-HasMasks : HasMasks three_edges
three_edges-HasMasks = record { value_mask = omega arith; vertex_mask = omega arith }

two_trees-HasMasks : HasMasks two_trees
two_trees-HasMasks = record { value_mask = omega arith; vertex_mask = omega arith }

one_tree-HasMasks : HasMasks one_tree
one_tree-HasMasks = record { value_mask = omega arith; vertex_mask = omega arith }

few : (n : ℕ) → n < 255 → suc n < cell 1
unfolding cell
few n h = omega arith

one_edge-IsValid : IsValid one_edge
one_edge-IsValid =
    (mphf_chm_imp_insert-Updated 100 fresh_edge 0 100 empty empty-IsValid empty-HasMasks
      (few 0 (omega arith)) test_put_0).0.valid

two_edges-IsValid : IsValid two_edges
two_edges-IsValid =
    (mphf_chm_imp_insert-Updated 100 fresh_edge 10 50 one_edge one_edge-IsValid one_edge-HasMasks
      (few 1 (omega arith)) test_put_10).0.valid

three_edges-IsValid : IsValid three_edges
three_edges-IsValid =
    (mphf_chm_imp_insert-Updated 100 fresh_edge 8 7 two_edges two_edges-IsValid two_edges-HasMasks
      (few 2 (omega arith)) test_put_8).0.valid

two_trees-IsValid : IsValid two_trees
two_trees-IsValid =
    (mphf_chm_imp_insert-Updated 100 fresh_edge 2 9 three_edges three_edges-IsValid
      three_edges-HasMasks (few 3 (omega arith)) test_put_2).0.valid

one_tree-IsValid : IsValid one_tree
one_tree-IsValid =
    (mphf_chm_imp_insert-Updated 100 fresh_edge 17 200 two_trees two_trees-IsValid
      two_trees-HasMasks (few 4 (omega arith)) test_put_17).0.valid

mphf_chm_imp_insert-Updated_example :
    Updated two_trees one_tree 17 5 200
    × ((key' id x : ℕ) → Holds two_trees key' id x → Holds one_tree key' id x)
mphf_chm_imp_insert-Updated_example =
    mphf_chm_imp_insert-Updated 100 fresh_edge 17 200 two_trees two_trees-IsValid two_trees-HasMasks
      (few 4 (omega arith)) test_put_17

mphf_chm_imp_insert-Ends_example : Ends (mphf_chm_imp_insert 100 fresh_edge 13 1 one_tree)
mphf_chm_imp_insert-Ends_example =
    mphf_chm_imp_insert-Ends 100 fresh_edge 13 1 one_tree one_tree-IsValid (few 5 (omega arith))
      (omega arith)

mphf_chm_imp_update-Drifted_example :
    Updated one_tree drifted 17 6 5
    ⊎ ((id : ℕ) × Leads one_tree (vertex_0 one_tree 17) id (vertex_1 one_tree 17)
        × Drifted one_tree drifted 17 id 5)
mphf_chm_imp_update-Drifted_example =
    mphf_chm_imp_update-Drifted 100 fresh_edge 17 5 one_tree one_tree-IsValid one_tree-HasMasks
      (few 5 (omega arith)) test_update

abbrev closing : Request
closing = record {
  action = some create;
  input = some 13;
  output = some 1;
  fresh = fresh_edge;
  random1 = 0;
  random2 = 0;
}

abbrev later : Request
later = record closing { action = some read }

mphf_session-broken_example :
    mphf_session 100 (closing ∷ later ∷ []) (record { mphf = one_tree; broken = false })
    ≡ some (err ebadf ∷ err ebadf ∷ [], record { mphf = circle; broken = true })
mphf_session-broken_example =
    mphf_session-broken 100 closing (later ∷ []) (record { mphf = one_tree; broken = false }) 13 1
      circle refl refl refl refl test_circle (tt, tt)
