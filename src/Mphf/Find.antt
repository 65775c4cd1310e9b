-- ===== src/Mphf/Find.antt =====
-- `graph_find_edge` of mphf_chm_imp.c: it ends, and what it finds is the edge of the two vertices.
use frozen.Base.{
  ℕ, zero, suc, ◌<◌, ◌≡◌, ◌≢◌, sym, ap, ◌∙◌, inl, inr, Bool-cases, Option-cases, Option, none, some,
  Result, ok, err, ◌==◌, if◌then◌else◌, enoent, arith,
}
use frozen.Mphf.{Chm, graph_get_edge, graph_find_edge}
use frozen.Mphf.Edges.{Leads, IsGraph}

following :
    (next : ℕ) (rest : Option (Result ℕ)) (id : ℕ)
    → (if next == 0 then some (err enoent) else rest) ≡ some (ok id)
    → rest ≡ some (ok id)
following next rest id h = elim (Bool-cases (next == 0)) [
  | inl t ↦ let k = rw t at h in cc k
  | inr f ↦ let k = rw f at h in k
]

pub graph_find_edge-Leads :
    (fuel : ℕ) (c : Chm) (v0 v1 k id : ℕ)
    → graph_find_edge fuel c v0 v1 k ≡ some (ok id)
    → Leads c v0 id v1
unfolding graph_find_edge
graph_find_edge-Leads zero c v0 v1 k id h = cc h
graph_find_edge-Leads (suc fuel) c v0 v1 k id h = elim (Option-cases (graph_get_edge c k)) [
  | inl lost ↦ let h1 = rw (lost, graph_find_edge) at h in cc h1
  | inr (e, got) ↦
      let h1 = rw (got, graph_find_edge) at h in
      let rest = λ (next : ℕ) (r : _).
        graph_find_edge-Leads fuel c v0 v1 next id
          (following next (graph_find_edge fuel c v0 v1 next) id r) in
      elim (Bool-cases (e.vertex0 == v0)) [
        | inl t0 ↦
            let h2 = rw t0 at h1 in
            elim (Bool-cases (e.vertex1 == v1)) [
              | inl t1 ↦
                  let h3 = rw t1 at h2 in
                  let same : k ≡ id = cc h3 in
                  let g = ap (λ x. graph_get_edge c x) (sym same) ∙ got in
                  record { edge = e; next = e.next0; stored = g; sides = ground arith }
              | inr f1 ↦ let h3 = rw f1 at h2 in rest e.next0 h3
            ]
        | inr f0 ↦
            let h2 = rw f0 at h1 in
            elim (Bool-cases (e.vertex1 == v0)) [
              | inl t1 ↦ let h3 = rw t1 at h2 in rest e.next1 h3
              | inr f1 ↦ let h3 = rw f1 at h2 in cc h3
            ]
      ]
]

pub graph_find_edge-ne-none :
    (fuel : ℕ) (c : Chm) (v0 v1 k : ℕ)
    → IsGraph c
    → k < fuel
    → graph_find_edge fuel c v0 v1 k ≢ none
unfolding graph_find_edge
graph_find_edge-ne-none zero c v0 v1 k graph h = absurd (omega arith)
graph_find_edge-ne-none (suc fuel) c v0 v1 k graph h = elim (Option-cases (graph_get_edge c k)) [
  | inl lost ↦ rw (lost, graph_find_edge) (λ e. cc e)
  | inr (e, got) ↦
      let falls = graph.falling k e got in
      let r0 = graph_find_edge-ne-none fuel c v0 v1 e.next0 graph (omega arith) in
      let r1 = graph_find_edge-ne-none fuel c v0 v1 e.next1 graph (omega arith) in
      rw (got, graph_find_edge) (ground arith)
]
