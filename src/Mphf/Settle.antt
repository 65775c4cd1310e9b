-- ===== src/Mphf/Settle.antt =====
-- What a new number does to the sums over all edges, where an edge is added or its value is changed in
-- mphf_chm_imp.c: the other end of that edge is not touched, and no other sum changes.
use frozen.Base.{
  ℕ, ◌+◌, ◌%◌, ◌^◌, ◌≡◌, ◌≢◌, refl, sym, ap, ap₂, subst, ◌∙◌, inl, inr, List, [], length,
  ℕ_discrete, arith,
}
use frozen.Mphf.{Chm, cut}
use frozen.Mphf.Edges.{Leads, IsGraph, Leads-back, Leads-ne, Leads-eq}
use frozen.Mphf.Walk.{Reached, onward, Reached-first, Reached-last}
use frozen.Mphf.Loop.{Wrote-Small, Small, num, SameSum, IsSized, Recalced}
use frozen.Mphf.Runs.{Wrote}

-- The numbers after the value of edge `id` from `v` to `u` is set: `v` has kept its number, `u` has the
-- new one, and no sum over another edge has changed.
pub record Settled (c : Chm) (id v u g_new : ℕ) (g g' : List ℕ) : Type 0 where
  pub size : length g' ≡ length g
  pub small : Small g → Small g'
  pub kept : num g' v ≡ num g v
  pub new : num g' u ≡ cut c.bt_value g_new
  pub others : (a id' b : ℕ) → id' ≢ id → Leads c a id' b → SameSum c g g' a b

-- An equation of numbers that cannot fail holds.
stable : (m n : ℕ) → ((m ≢ n) → ⊥) → m ≡ n
stable m n h = elim (ℕ_discrete m n) [ yes e ↦ e | no ne ↦ absurd (h ne) ]

SameSum-comm : (c : Chm) (g g' : List ℕ) (a b : ℕ) → SameSum c g g' a b → SameSum c g g' b a
SameSum-comm c g g' a b s =
    let m = 2 ^ c.bi_value in
    let e1 : num g' b + num g' a ≡ num g' a + num g' b = omega arith in
    let e2 : num g a + num g b ≡ num g b + num g a = omega arith in
    ap (λ k. k % m) e1 ∙ s ∙ ap (λ k. k % m) e2

-- A vertex without another edge takes a new number.
pub Wrote-Settled :
    {c : Chm} {id v u g_new : ℕ} {g g' : List ℕ}
    → v ≢ u
    → ((id' w : ℕ) → Leads c u id' w → id' ≡ id)
    → IsGraph c
    → IsSized c
    → Wrote c.bt_value u g_new g g'
    → Settled c id v u g_new g g'
Wrote-Settled {c} {u = u} ne alone graph sized wrote = record {
  size = wrote.size;
  small = Wrote-Small sized wrote;
  kept = wrote.others _ ne;
  new = wrote.written;
  others = λ a id' b n l.
      let far = λ (w x : ℕ) (k : Leads c w id' x).
        wrote.others w (λ q. n (alone id' x (subst (λ y. Leads c y id' x) q k))) in
      ap₂ (λ s t. (s + t) % 2 ^ c.bi_value) (far a b l) (far b a (Leads-back graph l));
}

module _ {c : Chm} {id v u g_new : ℕ} {g g' : List ℕ} (graph : IsGraph c) (joins : Leads c v id u)
    (calc : Recalced c [] u id g_new g g') where
  -- A walk from `u` that comes back to it has come nowhere.
  back_home : {f : ℕ} → Reached c id u f u → f ≡ id
  back_home {f = f} r = elim (Reached-first r) [
    | inl (p, q) ↦ p
    | inr (f1, u1, l1, n1, r1) ↦ absurd (calc.home f1 u1 f u l1 n1 r1 refl)
  ]

  -- No walk comes to the other end of the edge.
  other_end : {f : ℕ} → Reached c id u f v → ⊥
  other_end {f = f} r = elim (ℕ_discrete id f) [
    | yes same ↦ elim (Reached-last r) [
      | inl (p, q) ↦ Leads-ne graph joins (sym q)
      | inr (f', x, r', n, l) ↦
          let back = Leads-back graph l in
          let at : x ≡ u = Leads-eq (subst (λ k. Leads c v k x) (sym same) back) joins in
          n (sym same ∙ sym (back_home (subst (λ y. Reached c id u f' y) at r')))
    ]
    | no differ ↦ elim (Reached-first r) [
      | inl (p, q) ↦ differ (sym p)
      | inr (f1, u1, l1, n1, r1) ↦ calc.home f1 u1 id u l1 n1 (onward r1 differ joins) refl
    ]
  ]

  -- An edge with an end that a walk comes to keeps its sum.
  near : (a id' b f : ℕ) → id' ≢ id → Leads c a id' b → Reached c id u f a → SameSum c g g' a b
  near a id' b f n l r = elim (ℕ_discrete id' f) [
    | no differ ↦ calc.sums f a id' b r differ l
    | yes same ↦ elim (Reached-last r) [
      | inl (p, q) ↦ absurd (n (same ∙ p))
      | inr (f', x, r', n', l') ↦
          let at : x ≡ b =
            Leads-eq (subst (λ k. Leads c a k x) (sym same) (Leads-back graph l')) l in
          let s =
            calc.sums f' b id' a (subst (λ y. Reached c id u f' y) at r') (λ q. n' (sym same ∙ q))
              (Leads-back graph l) in
          SameSum-comm c g g' b a s
    ]
  ]

  pub Recalced-Settled : Settled c id v u g_new g g'
  Recalced-Settled = record {
    size = calc.size;
    small = calc.small;
    kept = calc.kept v (λ f r. other_end r);
    new = calc.new;
    others = λ a id' b n l. stable _ _ λ differ. differ (
        ap₂ (λ s t. (s + t) % 2 ^ c.bi_value) (calc.kept a (λ f r. differ (near a id' b f n l r)))
          (calc.kept b
            (λ f r. differ (SameSum-comm c g g' b a (near b id' a f n (Leads-back graph l) r)))));
  }
