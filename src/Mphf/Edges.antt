-- ===== src/Mphf/Edges.antt =====
-- The graph that the cells of mphf_chm_imp.c hold, and the lists of edges of its vertices.
use frozen.Base.{
  Bool-cases, ℕ, ◌≤◌, ◌<◌, ◌≡◌, ◌≢◌, sym, ap, subst, ◌∙◌, ◌⊎◌, inl, inr, ◌==◌, Bool-cases, some,
  get_elem?, arith,
}
use frozen.Mphf.{Edge, Chm, side, graph_get_edge}

-- Edge `id` leads from `v` to `u`.
pub record Leads (c : Chm) (v id u : ℕ) : Type 0 where
  pub edge : Edge
  pub next : ℕ
  pub stored : graph_get_edge c id ≡ some edge
  pub sides : side edge v ≡ some (u, next)

-- Edge `id` is in the list of `v` from an edge on.
pub data InChain (c : Chm) (v id : ℕ) : ℕ → Type 0 where
  here : {k : ℕ} → k ≡ id → InChain c v id k
  there :
      {k u next : ℕ} {e : Edge}
      → graph_get_edge c k ≡ some e
      → side e v ≡ some (u, next)
      → InChain c v id next
      → InChain c v id k

-- No edge is a loop, the edges that follow an edge are older, and the list of a vertex has all of its
-- edges.
pub record IsGraph (c : Chm) : Type 0 where
  pub loopless : (id : ℕ) (e : Edge) → graph_get_edge c id ≡ some e → e.vertex0 ≢ e.vertex1
  pub falling : (id : ℕ) (e : Edge) → graph_get_edge c id ≡ some e → (e.next0 < id) × (e.next1 < id)
  pub linked :
      (v id u first : ℕ) → Leads c v id u → get_elem? c.be_v v ≡ some first → InChain c v id first

pub side_back :
    (e : Edge) (v u n : ℕ)
    → e.vertex0 ≢ e.vertex1
    → side e v ≡ some (u, n)
    → (n' : ℕ) × (side e u ≡ some (v, n')) × (u ≢ v)
side_back e v u n h s = elim (Bool-cases (e.vertex0 == v)) [
  | inl a ↦ (e.next1, ground arith, ground arith)
  | inr a ↦ (e.next0, ground arith, ground arith)
]

-- The edges of a graph have two ends.
module _ {c : Chm} (graph : IsGraph c) where
  pub Leads-back : {v id u : ℕ} → Leads c v id u → Leads c u id v
  Leads-back {v = v} {u = u} l =
      let (n, s, d) = side_back l.edge v u l.next (graph.loopless _ l.edge l.stored) l.sides in
      record { edge = l.edge; next = n; stored = l.stored; sides = s }

  pub Leads-ne : {v id u : ℕ} → Leads c v id u → u ≢ v
  Leads-ne {v = v} {u = u} l =
      let (n, s, d) = side_back l.edge v u l.next (graph.loopless _ l.edge l.stored) l.sides in d

pub Leads-eq : {c : Chm} {v id u u' : ℕ} → Leads c v id u → Leads c v id u' → u ≡ u'
Leads-eq {v = v} l l' =
    let e : some l.edge ≡ some l'.edge = sym l.stored ∙ l'.stored in
    let d : l.edge ≡ l'.edge = cc e in
    let s : some (_, l.next) ≡ some (_, l'.next) = sym l.sides ∙ ap (λ x. side x v) d ∙ l'.sides in
    cc s

-- An edge in a list is the first one, or in the list behind it.
pub InChain-next :
    {c : Chm} {v id k u next : ℕ} {e : Edge}
    → graph_get_edge c k ≡ some e
    → side e v ≡ some (u, next)
    → InChain c v id k
    → (k ≡ id) ⊎ InChain c v id next
InChain-next g s (here q) = inl q
InChain-next {c} {v = v} {id = id} {e = e} g s (there {e = e'} g' s' r) =
    let d : e ≡ e' = cc (sym g ∙ g') in
    let n = sym s ∙ ap (λ x. side x v) d ∙ s' in inr (subst (λ k. InChain c v id k) (cc n) r)

-- The ids fall along a list.
pub InChain-le : {c : Chm} {v id k : ℕ} → IsGraph c → InChain c v id k → id ≤ k
InChain-le graph (here q) = omega arith
InChain-le {v = v} graph (there {k = k} {e = e} g s r) =
    let le = InChain-le graph r in let f = graph.falling k e g in ground arith
