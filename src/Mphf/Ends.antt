-- ===== src/Mphf/Ends.antt =====
-- The fuel of `graph_recalc` in mphf_chm_imp.c: every call adds a vertex to the path, and every round
-- comes to an older edge.
use frozen.Base.{
  ebadf, enoent, logged, ltb, if-intro, if-intro, ℕ, zero, suc, ◌+◌, ◌*◌, ◌≤◌, ◌<◌, ◌≡◌, refl, ap,
  inl, inr, false, Bool-cases, Option-cases, Option, none, some, List, [], ◌∷◌, get_elem?, length,
  ◌==◌, if◌then◌else◌, Errno, arith,
}
use frozen.Mphf.{
  Edge, Chm, Outcome, done, failed, starved, ◌>>=◌, with_cell, write_cell, on_path, side,
  graph_get_edge, graph_recalc, recalc_edges, frn_g_new,
}
use frozen.Mphf.Edges.{IsGraph}
use frozen.Mphf.Link.{get_elem?-lt}

-- A call has not run out of fuel.
pub data Ends {ℓ} {S : Type ℓ} : Outcome S → Type ℓ where
  ended : (s : S) → Ends (done s)
  stopped : (e : Errno) (s : S) → Ends (failed e s)

pub Ends->>= {ℓ} :
    {S : Type ℓ} (m : Outcome S) (f : S → Outcome S)
    → Ends m
    → ((s : S) → m ≡ done s → Ends (f s))
    → Ends (m >>= f)
Ends->>= (done s) f h k = k s refl
Ends->>= (failed e s) f h k = stopped e s
Ends->>= starved f h k = elim h [ ]

pub Ends-with_cell {ℓ} :
    {S : Type ℓ} (o : Option ℕ) (s : S) (f : ℕ → Outcome S)
    → ((x : ℕ) → o ≡ some x → Ends (f x))
    → Ends (with_cell o s f)
Ends-with_cell none s f h = stopped logged s
Ends-with_cell (some x) s f h = h x refl

pub Ends-write_cell : (bt v x : ℕ) (g : List ℕ) → Ends (write_cell bt v x g)
unfolding write_cell
Ends-write_cell bt v x g = if-intro Ends (ltb v (length g)) (λ _. ended _) (λ _. stopped _ _)

-- How many vertices below `n` are not on a path.
pub fresh : ℕ → List ℕ → ℕ
fresh zero path = 0
fresh (suc n) path = (if on_path n path then 0 else 1) + fresh n path

fresh_above : (n v : ℕ) (path : List ℕ) → n ≤ v → fresh n (v ∷ path) ≡ fresh n path
unfolding fresh
fresh_above zero v path h = refl
fresh_above (suc n) v path h = ground (arith, fresh_above n v path)

fresh_cons :
    (n v : ℕ) (path : List ℕ)
    → v < n
    → on_path v path ≡ false
    → suc (fresh n (v ∷ path)) ≡ fresh n path
unfolding fresh
fresh_cons zero v path h f = absurd (omega arith)
fresh_cons (suc n) v path h f = elim (Bool-cases (v == n)) [
  | inl t ↦ let e : v ≡ n = ground arith in ground (arith, fresh_above n v path, e)
  | inr ne ↦ ground (arith, fresh_cons n v path)
]

pub fresh-le : (n : ℕ) → fresh n [] ≤ n
unfolding fresh
fresh-le zero = omega arith
fresh-le (suc n) = omega (arith, fresh-le n)

-- The fuel for a call, and for the rounds of its loop from edge `k` on, with `left` vertices that are
-- not on the path.
abbrev pub recalc_fuel : Chm → ℕ → ℕ
recalc_fuel c left = suc (left * (length c.be_e + 2))

abbrev edges_fuel : Chm → ℕ → ℕ → ℕ
edges_fuel c left k = suc k + left * (length c.be_e + 2)

-- A vertex more on the path leaves fuel for its list.
budget :
    (fewer left most first fuel : ℕ)
    → suc fewer ≡ left
    → first ≤ most
    → suc (left * (most + 2)) ≤ suc fuel
    → suc first + fewer * (most + 2) ≤ fuel
budget fewer left most first fuel e h k = omega (arith, ap (λ (t : ℕ). t * (most + 2)) e)

module _ {c : Chm} (graph : IsGraph c)
    (firsts : (v first : ℕ) → get_elem? c.be_v v ≡ some first → first ≤ length c.be_e) where
  abbrev left_on : List ℕ → ℕ
  left_on path = fresh (length c.be_v) path

  side_next :
      (k : ℕ) (e : Edge) (v u n : ℕ) → graph_get_edge c k ≡ some e → side e v ≡ some (u, n) → n < k
  side_next k e v u n g s = let f = graph.falling k e g in ground arith

  mutual
    unfolding graph_recalc

    pub graph_recalc-Ends :
        (fuel : ℕ) (path : List ℕ) (v g_old g_new e : ℕ) (g : List ℕ)
        → recalc_fuel c (left_on path) ≤ fuel
        → Ends (graph_recalc fuel c path v g_old g_new e g)
    graph_recalc-Ends zero path v g_old g_new e g h = absurd (omega arith)
    graph_recalc-Ends (suc fuel) path v g_old g_new e g h = elim (Bool-cases (on_path v path)) [
      | inl t ↦ rw (t, graph_recalc) (stopped ebadf g)
      | inr f ↦
          rw (f, graph_recalc)
            (Ends-with_cell (get_elem? c.be_v v) g _ λ first at.
              let less = fresh_cons (length c.be_v) v path (get_elem?-lt c.be_v v at) f in
              Ends->>= (recalc_edges fuel c path v g_old g_new e first g) _
                (recalc_edges-Ends fuel path v g_old g_new e first g
                  (budget _ _ _ first fuel less (firsts v first at) h))
                (λ s _. Ends-write_cell c.bt_value v g_new s))
    ]

    recalc_edges-Ends :
        (fuel : ℕ) (path : List ℕ) (v g_old g_new e k : ℕ) (g : List ℕ)
        → edges_fuel c (left_on (v ∷ path)) k ≤ fuel
        → Ends (recalc_edges fuel c path v g_old g_new e k g)
    recalc_edges-Ends zero path v g_old g_new e k g h = absurd (omega arith)
    recalc_edges-Ends (suc fuel) path v g_old g_new e zero g h = ended g
    recalc_edges-Ends (suc fuel) path v g_old g_new e (suc n) g h =
        elim (Option-cases (graph_get_edge c (suc n))) [
          | inl lost ↦ rw (lost, recalc_edges) (stopped enoent g)
          | inr (edge, got) ↦ elim (Option-cases (side edge v)) [
            | inl lost ↦ rw (got, lost, recalc_edges) (stopped logged g)
            | inr ((frn, next), s) ↦
                let lt = side_next (suc n) edge v frn next got s in
                let rest = λ (g' : List ℕ).
                  recalc_edges-Ends fuel path v g_old g_new e next g' (omega arith) in
                elim (Bool-cases (e == suc n)) [
                  | inl skip ↦ rw (got, s, skip, recalc_edges) (rest g)
                  | inr follow ↦
                      rw (got, s, follow, recalc_edges)
                        (Ends-with_cell (get_elem? g frn) g _ λ old at.
                          Ends->>= _ _
                            (graph_recalc-Ends fuel (v ∷ path) frn old (frn_g_new g_old old g_new)
                              (suc n) g (omega arith))
                            (λ g' _. rest g'))
                ]
          ]
        ]
