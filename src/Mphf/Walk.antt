-- ===== src/Mphf/Walk.antt =====
-- The walks of `graph_recalc` through the graph: along edges, never back along the edge it came by.
use frozen.Base.{ℕ, ◌≡◌, ◌≢◌, refl, sym, subst, ◌∙◌, ◌⊎◌, inl, inr, ℕ_discrete}
use frozen.Mphf.{Chm}
use frozen.Mphf.Edges.{Leads, IsGraph, Leads-back, Leads-eq}

-- A walk that comes to `v` by edge `e` comes to a vertex by an edge.
pub data Reached (c : Chm) (e v : ℕ) : ℕ → ℕ → Type 0 where
  start : {f w : ℕ} → f ≡ e → w ≡ v → Reached c e v f w
  onward : {f w f' u : ℕ} → Reached c e v f w → f' ≢ f → Leads c w f' u → Reached c e v f' u

module _ {c : Chm} where
  -- The first step of a walk.
  pub Reached-first :
      {e v f w : ℕ}
      → Reached c e v f w
      → ((f ≡ e) × (w ≡ v)) ⊎ ((f' : ℕ) × (u : ℕ) × Leads c v f' u × (f' ≢ e) × Reached c f' u f w)
  Reached-first (start p q) = inl (p, q)
  Reached-first {e = e} {v = v} (onward {f' = f'} {u = u} r ne l) = elim (Reached-first r) [
    | inl (p, q) ↦
        inr (f', u, subst (λ w. Leads c w f' u) q l, (λ h. ne (h ∙ sym p)), start refl refl)
    | inr (f1, u1, l1, n1, r1) ↦ inr (f1, u1, l1, n1, onward r1 ne l)
  ]

-- The last step of a walk.
pub Reached-last :
    {c : Chm} {e v f w : ℕ}
    → Reached c e v f w
    → ((f ≡ e) × (w ≡ v)) ⊎ ((f' : ℕ) × (x : ℕ) × Reached c e v f' x × (f ≢ f') × Leads c x f w)
Reached-last (start p q) = inl (p, q)
Reached-last (onward {f = f'} {w = x} r ne l) = inr (f', x, r, ne, l)

-- Walks along two edges of `v` do not meet, if neither comes back to `v`.
pub Reached-disjoint :
    {c : Chm} {v e1 u1 e2 u2 f w f' : ℕ}
    → IsGraph c
    → Leads c v e1 u1
    → Leads c v e2 u2
    → e1 ≢ e2
    → ((g x : ℕ) → Reached c e1 u1 g x → x ≢ v)
    → ((g x : ℕ) → Reached c e2 u2 g x → x ≢ v)
    → Reached c e1 u1 f w
    → Reached c e2 u2 f' w
    → ⊥
Reached-disjoint {c} {v = v} {e1 = e1} {u1 = u1} {e2 = e2} {f = f} {w = w} {f' = f'} graph l1 l2 ne
      s1 s2 (start p q) r2 =
    let back : Leads c w f v =
      subst (λ x. Leads c x f v) (sym q)
        (subst (λ x. Leads c u1 x v) (sym p) (Leads-back graph l1)) in
    elim (ℕ_discrete f f') [
      | yes same ↦ elim (Reached-last r2) [
        | inl (p2, q2) ↦ ne (sym p ∙ same ∙ p2)
        | inr (g, x, rx, nx, lx) ↦
            let to = subst (λ k. Leads c w k x) (sym same) (Leads-back graph lx) in
            s2 g x rx (Leads-eq to back)
      ]
      | no differ ↦ s2 f v (onward r2 differ back) refl
    ]
Reached-disjoint {c} {v = v} {e1 = e1} {u1 = u1} {e2 = e2} {u2 = u2} {f = f} {w = w} {f' = f'} graph
      l1 l2 ne s1 s2 (onward {f = g1} {w = w0} r1 n1 l) r2 =
    let back = Leads-back graph l in
    elim (ℕ_discrete f f') [
      | yes same ↦ elim (Reached-last r2) [
        | inl (p2, q2) ↦
            let to : Leads c w f v =
              subst (λ x. Leads c x f v) (sym q2)
                (subst (λ x. Leads c u2 x v) (sym (same ∙ p2)) (Leads-back graph l2)) in
            s1 g1 w0 r1 (Leads-eq back to)
        | inr (g, x, rx, nx, lx) ↦
            let to = subst (λ k. Leads c w k x) (sym same) (Leads-back graph lx) in
            Reached-disjoint graph l1 l2 ne s1 s2 r1
              (subst (λ y. Reached c e2 u2 g y) (Leads-eq to back) rx)
      ]
      | no differ ↦ Reached-disjoint graph l1 l2 ne s1 s2 r1 (onward r2 differ back)
    ]
