-- ===== src/Mphf/Linked.antt =====
-- An index of mphf_chm_imp.c stays one when an edge is linked into it.
use frozen.Base.{
  false, ℕ, zero, suc, ◌≤◌, ◌<◌, ◌≡◌, ◌≢◌, sym, subst, ◌∙◌, ◌⊎◌, inl, inr, Bool-cases, Option-cases,
  some, [], ◌∷◌, get_elem?, length, length-set, length-append, ◌==◌, arith,
}
use frozen.Mphf.{Edge, Chm, side, graph_get_edge}
use frozen.Mphf.Edges.{Leads, InChain, here, there, IsGraph}
use frozen.Mphf.Link.{IsValid, with_edge, get_edge_lem, first_lem, get_elem?-lt}

pub get_edge-le : (c : Chm) (k : ℕ) {e : Edge} → graph_get_edge c k ≡ some e → k ≤ length c.be_e
unfolding graph_get_edge
get_edge-le c zero h = omega arith
get_edge-le c (suc k) h = omega (arith, get_elem?-lt c.be_e k h)

module _ {c : Chm} {v0 v1 n0 n1 : ℕ} (valid : IsValid c) (apart : v0 ≢ v1)
    (at0 : get_elem? c.be_v v0 ≡ some n0) (at1 : get_elem? c.be_v v1 ≡ some n1) where
  -- The index after, and its new edge.
  abbrev after : Chm
  after = with_edge c v0 v1 n0 n1

  abbrev edge : Edge
  edge = record { vertex0 = v0; vertex1 = v1; next0 = n0; next1 = n1 }

  stored_new : graph_get_edge after (suc (length c.be_e)) ≡ some edge
  stored_new = get_edge_lem valid apart at0 at1 (suc (length c.be_e)) ∙ ground arith

  edge_cases :
      (k : ℕ) (e : Edge)
      → graph_get_edge after k ≡ some e
      → ((k ≡ suc (length c.be_e)) × (edge ≡ e)) ⊎ (graph_get_edge c k ≡ some e)
  edge_cases k e h =
      let p = sym (get_edge_lem valid apart at0 at1 k) ∙ h in
      elim (Bool-cases (k == suc (length c.be_e))) [
        | inl t ↦ let q = rw t at p in inl (ground arith, cc q)
        | inr f ↦ let q = rw f at p in inr q
      ]

  stored_old : (k : ℕ) {e : Edge} → graph_get_edge c k ≡ some e → graph_get_edge after k ≡ some e
  stored_old k h =
      let le = get_edge-le c k h in
      let f : (k == suc (length c.be_e)) ≡ false = ground arith in
      get_edge_lem valid apart at0 at1 k ∙ rw f h

  InChain-old : {v f k : ℕ} → InChain c v f k → InChain after v f k
  InChain-old (here p) = here p
  InChain-old (there g s r) = there (stored_old _ g) s (InChain-old r)

  pub Leads-old : {a f b : ℕ} → Leads c a f b → Leads after a f b
  Leads-old l = record {
    edge = l.edge;
    next = l.next;
    stored = stored_old _ l.stored;
    sides = l.sides;
  }

  pub Leads-new : Leads after v0 (suc (length c.be_e)) v1
  Leads-new = record { edge = edge; next = n0; stored = stored_new; sides = ground arith }

  edge_ends : (a b n : ℕ) → side edge a ≡ some (b, n) → (a ≡ v0) ⊎ (a ≡ v1)
  edge_ends a b n s = elim (Bool-cases (v0 == a)) [
    | inl t ↦ inl (ground arith)
    | inr f ↦ elim (Bool-cases (v1 == a)) [
      | inl t ↦ inr (ground arith)
      | inr f1 ↦ absurd (ground arith)
    ]
  ]

  pub Leads-cases :
      {a f b : ℕ}
      → Leads after a f b
      → ((f ≡ suc (length c.be_e)) × ((a ≡ v0) ⊎ (a ≡ v1))) ⊎ Leads c a f b
  Leads-cases {a = a} {f = f} {b = b} l = elim (edge_cases f l.edge l.stored) [
    | inl (p, q) ↦
        let s = subst (λ e. side e a ≡ some (b, l.next)) (sym q) l.sides in
        inl (p, edge_ends a b l.next s)
    | inr old ↦ inr (record { edge = l.edge; next = l.next; stored = old; sides = l.sides })
  ]

  -- The list of a vertex of the new edge.
  chain_head :
      {v f u n x : ℕ}
      → get_elem? c.be_v v ≡ some n
      → side edge v ≡ some (x, n)
      → Leads after v f u
      → InChain after v f (suc (length c.be_e))
  chain_head {v = v} {f = f} {u = u} {n = n} at s l = elim (Leads-cases l) [
    | inl (p, _) ↦ here (sym p)
    | inr old ↦ there stored_new s (InChain-old (valid.graph.linked v f u n old at))
  ]

  linked_after :
      (v f u first : ℕ)
      → Leads after v f u
      → get_elem? after.be_v v ≡ some first
      → InChain after v f first
  linked_after v f u first l h =
      let p = sym (first_lem valid apart at0 at1 v) ∙ h in
      elim (Bool-cases (v1 == v)) [
        | inl t1 ↦
            let q = rw t1 at p in
            let e : v1 ≡ v = ground arith in
            subst (λ k. InChain after v f k) (cc q)
              (chain_head {x = v0} (subst (λ y. get_elem? c.be_v y ≡ some n1) e at1) (ground arith)
                l)
        | inr f1 ↦
            let p1 = rw f1 at p in
            elim (Bool-cases (v0 == v)) [
              | inl t0 ↦
                  let q = rw t0 at p1 in
                  let e : v0 ≡ v = ground arith in
                  subst (λ k. InChain after v f k) (cc q)
                    (chain_head {x = v1} (subst (λ y. get_elem? c.be_v y ≡ some n0) e at0)
                      (ground arith) l)
              | inr f0 ↦
                  let q = rw f0 at p1 in
                  elim (Leads-cases l) [
                    | inl (_, ends) ↦ absurd (ground arith)
                    | inr old ↦ InChain-old (valid.graph.linked v f u first old q)
                  ]
            ]
      ]

  with_edge-IsGraph : IsGraph after
  with_edge-IsGraph = record {
    loopless = λ k e h. elim (edge_cases k e h) [
      | inl (p, q) ↦ subst (λ (x : Edge). x.vertex0 ≢ x.vertex1) q apart
      | inr old ↦ valid.graph.loopless k e old
    ];
    falling = λ k e h. elim (edge_cases k e h) [
      | inl (p, q) ↦
          let m0 = valid.firsts v0 n0 at0 in
          let m1 = valid.firsts v1 n1 at1 in
          subst (λ (x : Edge). (x.next0 < k) × (x.next1 < k)) q (omega arith, omega arith)
      | inr old ↦ valid.graph.falling k e old
    ];
    linked = linked_after;
  }

  pub with_edge-IsValid : IsValid after
  with_edge-IsValid = record {
    graph = with_edge-IsGraph;
    sized = record { fits = valid.sized.fits; word = valid.sized.word };
    vertices = valid.vertices;
    small = valid.small;
    g_size = valid.g_size;
    v_size =
        length-set {0} _ v1 (suc (length c.be_e))
        ∙ length-set {0} c.be_v v0 (suc (length c.be_e))
        ∙ valid.v_size;
    room = valid.room;
    firsts = λ v first h.
        let p = sym (first_lem valid apart at0 at1 v) ∙ h in
        let more = length-append {0} c.be_e (edge ∷ []) in
        elim (Option-cases (get_elem? c.be_v v)) [
          | inl lost ↦ ground arith
          | inr (old, e) ↦ let le = valid.firsts v old e in ground arith
        ];
  }
