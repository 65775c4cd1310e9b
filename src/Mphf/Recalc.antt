-- ===== src/Mphf/Recalc.antt =====
-- What `graph_recalc` does when it ends: it has met no vertex twice, it gives its vertex the new number,
-- it keeps the sums over all the edges that it follows, and it touches no other vertex.
use frozen.Base.{
  ℕ, zero, suc, ◌+◌, ◌%◌, ◌^◌, ◌≤◌, ◌≡◌, ◌≢◌, refl, sym, ap, ap₂, subst, ◌∙◌, ◌⊎◌, inl, inr, false,
  List, ◌∷◌, arith,
}
use frozen.Mphf.{Chm, done, cut, on_path, frn_g_new, graph_recalc, recalc_edges}
use frozen.Mphf.Edges.{Leads, InChain, IsGraph, Leads-ne}
use frozen.Mphf.Walk.{Reached, start, onward, Reached-first}
use frozen.Mphf.Loop.{
  Wrote-Small, num, SameSum, IsSized, Recalced, Kid, Walked, frn_g_new-le, off_path, Reached-step,
  Walked-end, Walked-skip, Walked-follow,
}
use frozen.Mphf.Runs.{
  recalc_edges-end, recalc_edges-zero, graph_recalc-zero, Wrote, write_cell-Wrote, get_or-some,
  graph_recalc-done, recalc_edges-done,
}

-- The loop over all edges of `v`, and the write of its new number.
module _ {c : Chm} {path : List ℕ} {v e first g_old g_new : ℕ} {g gm g' : List ℕ}
    (graph : IsGraph c) (fresh : on_path v path ≡ false) (old : num g v ≡ g_old)
    (chain : (f u : ℕ) → Leads c v f u → InChain c v f first) (sized : IsSized c)
    (walk : Walked c path v e first g_old g_new g gm) (wrote : Wrote c.bt_value v g_new gm g') where
  -- A walk from `v` that has left it.
  left : {f w : ℕ} → Reached c e v f w → ((f ≡ e) × (w ≡ v)) ⊎ (on_path w (v ∷ path) ≡ false)
  left {f = f} {w = w} r = elim (Reached-first r) [
    | inl stay ↦ inl stay
    | inr (f1, u1, l1, n1, r1) ↦ inr (walk.safe f1 u1 (chain f1 u1 l1, n1, l1) f w r1)
  ]

  sums_home : {f u : ℕ} → f ≢ e → Leads c v f u → SameSum c g g' v u
  sums_home {f = f} {u = u} n l =
      let far = wrote.others u (Leads-ne graph l) in
      let s = walk.new f u (chain f u l, n, l) in
      let m = 2 ^ c.bi_value in
      let comm : num g' v + num g' u ≡ num gm u + cut c.bt_value g_new =
        omega (arith, far, wrote.written) in
      ap (λ k. k % m) comm ∙ s ∙ ap (λ k. (k + num g u) % m) (sym old)

  sums_far :
      {f w b y f1 u1 : ℕ}
      → Leads c v f1 u1
      → f1 ≢ e
      → Reached c f1 u1 f w
      → b ≢ f
      → Leads c w b y
      → SameSum c g g' w y
  sums_far {f = f} {w = w} {b = b} {y = y} {f1 = f1} {u1 = u1} l1 n1 r n lb =
      let kid : Kid c v e first f1 u1 = (chain f1 u1 l1, n1, l1) in
      let w_off = (off_path w v path (walk.safe f1 u1 kid f w r)).0 in
      let y_off = (off_path y v path (walk.safe f1 u1 kid b y (onward r n lb))).0 in
      ap₂ (λ s t. (s + t) % 2 ^ c.bi_value) (wrote.others w w_off) (wrote.others y y_off)
      ∙ walk.sums f1 u1 kid f w b y r n lb

  Recalced-intro : Recalced c path v e g_new g g'
  Recalced-intro = record {
    size = wrote.size ∙ walk.size;
    small = λ h. Wrote-Small sized wrote (walk.small h);
    away = λ f w r. elim (left r) [
      | inl (p, q) ↦ subst (λ x. on_path x path ≡ false) (sym q) fresh
      | inr off ↦ (off_path w v path off).1
    ];
    home =
        λ f1 u1 f w l1 n1 r. (off_path w v path (walk.safe f1 u1 (chain f1 u1 l1, n1, l1) f w r)).0;
    kept = λ w no.
        wrote.others w (λ q. no e (start refl q))
        ∙ walk.kept w (λ f u kid f' r. no f' (Reached-step kid.2 kid.1 r));
    new = wrote.written;
    sums = λ f w b y r n lb. elim (Reached-first r) [
      | inl (p, q) ↦
          subst (λ x. SameSum c g g' x y) (sym q)
            (sums_home (λ h. n (h ∙ sym p)) (subst (λ x. Leads c x b y) q lb))
      | inr (f1, u1, l1, n1, r1) ↦ sums_far l1 n1 r1 n lb
    ];
  }

module _ {c : Chm} (graph : IsGraph c) (sized : IsSized c) where
  mutual
    pub graph_recalc-Recalced :
        (fuel : ℕ) (path : List ℕ) (v g_old g_new e : ℕ) (g g' : List ℕ)
        → g_new ≤ 2 ^ 64
        → num g v ≡ g_old
        → graph_recalc fuel c path v g_old g_new e g ≡ done g'
        → Recalced c path v e g_new g g'
    graph_recalc-Recalced zero path v g_old g_new e g g' small old h =
        absurd (graph_recalc-zero 0 c path v g_old g_new e g h)
    graph_recalc-Recalced (suc fuel) path v g_old g_new e g g' small old h =
        let (fresh, first, gm, at_v, run, write) =
          graph_recalc-done fuel c path v g_old g_new e g h in
        Recalced-intro graph fresh old (λ f u l. graph.linked v f u first l at_v) sized
          (recalc_edges-Walked fuel path v g_old g_new e first g gm small run)
          (write_cell-Wrote c.bt_value v g_new gm write)

    recalc_edges-Walked :
        (fuel : ℕ) (path : List ℕ) (v g_old g_new e k : ℕ) (g g' : List ℕ)
        → g_new ≤ 2 ^ 64
        → recalc_edges fuel c path v g_old g_new e k g ≡ done g'
        → Walked c path v e k g_old g_new g g'
    recalc_edges-Walked zero path v g_old g_new e k g g' small h =
        absurd (recalc_edges-zero 0 c path v g_old g_new e g k h)
    recalc_edges-Walked (suc fuel) path v g_old g_new e zero g g' small h =
        subst (λ x. Walked c path v e 0 g_old g_new g x)
          (recalc_edges-end fuel c path v g_old g_new e g h) (Walked-end graph v e g_old g_new g)
    recalc_edges-Walked (suc fuel) path v g_old g_new e (suc n) g g' small h =
        let (edge, frn, next, got, s, ways) = recalc_edges-done fuel c path v g_old g_new e g n h in
        let l : Leads c v (suc n) frn = record {
          edge = edge;
          next = next;
          stored = got;
          sides = s;
        } in
        elim ways [
          | inl (skip, run) ↦
              Walked-skip graph l refl skip
                (recalc_edges-Walked fuel path v g_old g_new e next g g' small run)
          | inr (ne, old, gm, at_u, run, rest) ↦
              let is_old = get_or-some g frn old at_u in
              let child =
                graph_recalc-Recalced fuel (v ∷ path) frn old (frn_g_new g_old old g_new) (suc n) g
                  gm (frn_g_new-le g_old old g_new) is_old run in
              Walked-follow graph l sized small ne
                (subst (λ o. Recalced c (v ∷ path) frn (suc n) (frn_g_new g_old o g_new) g gm)
                  (sym is_old) child)
                (recalc_edges-Walked fuel path v g_old g_new e next gm g' small rest)
        ]
