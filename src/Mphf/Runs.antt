-- ===== src/Mphf/Runs.antt =====
-- What it takes for a call of `graph_recalc` or of its loop to end, and what a write to a cell does.
use frozen.Base.{
  Errno, if◌then◌else◌, ℕ, zero, suc, ◌<◌, ◌≡◌, ◌≢◌, refl, ap, ◌⊎◌, inl, inr, Bool, true, false,
  Bool-cases, Option, none, some, Option-cases, List, [], ◌∷◌, get_elem?, get_or, set, length, ltb,
  ◌==◌, length-set, arith,
}
use frozen.Mphf.{
  Edge, Chm, Outcome, done, failed, starved, ◌>>=◌, with_cell, cut, write_cell, graph_get_edge,
  side, on_path, frn_g_new, graph_recalc, recalc_edges,
}

pub >>=-done {ℓ} :
    {S : Type ℓ} (m : Outcome S) (f : S → Outcome S) {s : S}
    → (m >>= f) ≡ done s
    → (t : S) × (m ≡ done t) × (f t ≡ done s)
>>=-done (done t) f h = (t, refl, h)
>>=-done (failed e t) f h = cc
>>=-done starved f h = cc

pub with_cell-done {ℓ} :
    {S : Type ℓ} (o : Option ℕ) (s : S) (f : ℕ → Outcome S) {t : S}
    → with_cell o s f ≡ done t
    → (x : ℕ) × (o ≡ some x) × (f x ≡ done t)
with_cell-done none s f h = cc
with_cell-done (some x) s f h = (x, refl, h)

-- A test whose one branch fails.
pub if-done_then {ℓ} :
    {S : Type ℓ} (b : Bool) (m : Outcome S) (e : Errno) (s : S) {t : S}
    → (if b then m else failed e s) ≡ done t
    → m ≡ done t
if-done_then true m e s h = h
if-done_then false m e s h = cc h

pub if-done_else {ℓ} :
    {S : Type ℓ} (b : Bool) (m : Outcome S) (e : Errno) (s : S) {t : S}
    → (if b then failed e s else m) ≡ done t
    → (b ≡ false) × (m ≡ done t)
if-done_else true m e s h = cc h
if-done_else false m e s h = (refl, h)

-- The number of a vertex.
pub get_or-set_self : (xs : List ℕ) (i x : ℕ) → i < length xs → get_or (set xs i x) i 0 ≡ x
get_or-set_self [] i x h = absurd (omega arith)
get_or-set_self (y ∷ xs) zero x h = refl
get_or-set_self (y ∷ xs) (suc i) x h = get_or-set_self xs i x (omega arith)

pub get_or-set_ne : (xs : List ℕ) (i j x : ℕ) → j ≢ i → get_or (set xs i x) j 0 ≡ get_or xs j 0
get_or-set_ne [] i j x h = refl
get_or-set_ne (y ∷ xs) zero zero x h = absurd (h refl)
get_or-set_ne (y ∷ xs) zero (suc j) x h = refl
get_or-set_ne (y ∷ xs) (suc i) zero x h = refl
get_or-set_ne (y ∷ xs) (suc i) (suc j) x h = get_or-set_ne xs i j x (λ e. h (ap suc e))

pub get_or-some : (xs : List ℕ) (i x : ℕ) → get_elem? xs i ≡ some x → get_or xs i 0 ≡ x
get_or-some [] i x h = cc
get_or-some (y ∷ xs) zero x h = cc
get_or-some (y ∷ xs) (suc i) x h = get_or-some xs i x h

pub record Wrote (bt v x : ℕ) (g g' : List ℕ) : Type 0 where
  pub inside : v < length g
  pub size : length g' ≡ length g
  pub written : get_or g' v 0 ≡ cut bt x
  pub others : (w : ℕ) → w ≢ v → get_or g' w 0 ≡ get_or g w 0

pub write_cell-Wrote :
    (bt v x : ℕ) (g : List ℕ) {g' : List ℕ} → write_cell bt v x g ≡ done g' → Wrote bt v x g g'
unfolding write_cell
write_cell-Wrote bt v x g {g' = g'} h = elim (Bool-cases (ltb v (length g))) [
  | inl t ↦
      let i : v < length g = ground arith in
      let e : set g v (cut bt x) ≡ g' = (let k = rw (t, write_cell) at h in cc k) in
      rw (← e) (record {
        inside = i;
        size = length-set g v (cut bt x);
        written = get_or-set_self g v (cut bt x) i;
        others = λ w ne. get_or-set_ne g v w (cut bt x) ne;
      })
  | inr f ↦ let k = rw (f, write_cell) at h in cc k
]

module _ (fuel : ℕ) (c : Chm) (path : List ℕ) (v g_old g_new skip_edge : ℕ) (g : List ℕ) where
  pub graph_recalc-zero :
      {g' : List ℕ} → graph_recalc 0 c path v g_old g_new skip_edge g ≡ done g' → ⊥
  unfolding graph_recalc
  graph_recalc-zero h = cc h

  pub recalc_edges-zero :
      (k : ℕ) {g' : List ℕ} → recalc_edges 0 c path v g_old g_new skip_edge k g ≡ done g' → ⊥
  unfolding graph_recalc
  recalc_edges-zero k h = cc h

  pub recalc_edges-end :
      {g' : List ℕ} → recalc_edges (suc fuel) c path v g_old g_new skip_edge 0 g ≡ done g' → g ≡ g'
  unfolding graph_recalc
  recalc_edges-end h = cc h

  pub graph_recalc-done :
      {g' : List ℕ}
      → graph_recalc (suc fuel) c path v g_old g_new skip_edge g ≡ done g'
      → (on_path v path ≡ false)
        × (first : ℕ) × (gm : List ℕ) × (get_elem? c.be_v v ≡ some first)
        × (recalc_edges fuel c path v g_old g_new skip_edge first g ≡ done gm)
        × (write_cell c.bt_value v g_new gm ≡ done g')
  unfolding graph_recalc
  graph_recalc-done h = elim (Bool-cases (on_path v path)) [
    | inl t ↦ let k = rw (t, graph_recalc) at h in cc k
    | inr f ↦
        let k = rw (f, graph_recalc) at h in
        let (first, e1, k1) = with_cell-done (get_elem? c.be_v v) g _ k in
        let (gm, e2, e3) =
          >>=-done (recalc_edges fuel c path v g_old g_new skip_edge first g) _ k1 in
        (f, first, gm, e1, e2, e3)
  ]

  -- One round of the loop, for an edge that it skips or follows.
  pub recalc_edges-done :
      (n : ℕ) {g' : List ℕ}
      → recalc_edges (suc fuel) c path v g_old g_new skip_edge (suc n) g ≡ done g'
      → (e : Edge) × (frn : ℕ) × (next : ℕ) × (graph_get_edge c (suc n) ≡ some e)
        × (side e v ≡ some (frn, next))
        × (((skip_edge ≡ suc n)
              × (recalc_edges fuel c path v g_old g_new skip_edge next g ≡ done g'))
            ⊎ ((skip_edge ≢ suc n)
                × (old : ℕ) × (gm : List ℕ) × (get_elem? g frn ≡ some old)
                × (graph_recalc fuel c (v ∷ path) frn old (frn_g_new g_old old g_new) (suc n) g
                    ≡ done gm)
                × (recalc_edges fuel c path v g_old g_new skip_edge next gm ≡ done g')))
  unfolding graph_recalc
  recalc_edges-done n h = elim (Option-cases (graph_get_edge c (suc n))) [
    | inl lost ↦ let k = rw (lost, recalc_edges) at h in cc k
    | inr (e, got) ↦
        let k = rw (got, recalc_edges) at h in
        elim (Option-cases (side e v)) [
          | inl lost ↦ let k1 = rw lost at k in cc k1
          | inr ((frn, next), s) ↦
              let k1 = rw s at k in
              elim (Bool-cases (skip_edge == suc n)) [
                | inl t ↦ let k2 = rw t at k1 in (e, frn, next, got, s, inl (ground arith, k2))
                | inr f ↦
                    let k2 = rw f at k1 in
                    let (old, e1, k3) = with_cell-done (get_elem? g frn) g _ k2 in
                    let (gm, e2, e3) = >>=-done _ _ k3 in
                    (e, frn, next, got, s, inr (ground arith, old, gm, e1, e2, e3))
              ]
        ]
  ]
