-- ===== src/Mphf/Loop.antt =====
-- What the calls of `graph_recalc` and the rounds of its loop have done when they end, put together
-- along the list of a vertex.
use frozen.Base.{
  ℕ_discrete, ℕ, zero, suc, ◌+◌, ◌*◌, ◌%◌, ◌^◌, ◌≤◌, ◌<◌, ◌≡◌, ◌≢◌, refl, sym, ap, ap₂, subst, ◌∙◌,
  ◌⊎◌, inl, inr, false, List, ◌∷◌, get_or, length, arith,
}
use frozen.Mphf.{Chm, cut, on_path, frn_g_new, graph_get_edge}
use frozen.Mphf.Edges.{here, Leads, InChain, there, IsGraph, Leads-eq, InChain-next, InChain-le}
use frozen.Mphf.Walk.{Reached, start, onward, Reached-disjoint}
use native.Mathlib.Nat.{mod-lt, pow-le-pow_right, one-le-pow}
use frozen.Mphf.Sums.{frn_sum}
use frozen.Mphf.Runs.{Wrote}
use frozen.Mphf.Runs.{Wrote}

-- The number of a vertex.
abbrev pub num : List ℕ → ℕ → ℕ
num g w = get_or g w 0

-- Two numbers add up to the same value as before.
abbrev pub SameSum : Chm → List ℕ → List ℕ → ℕ → ℕ → Type 0
SameSum c g g' w u = (num g' w + num g' u) % 2 ^ c.bi_value ≡ (num g w + num g u) % 2 ^ c.bi_value

-- A value and a number fit their bytes, which a machine word holds.
pub record IsSized (c : Chm) : Type 0 where
  pub fits : c.bi_value ≤ 8 * c.bt_value
  pub word : 8 * c.bt_value ≤ 64

-- Numbers of a machine word.
abbrev pub Small : List ℕ → Type 0
Small g = (w : ℕ) → num g w ≤ 2 ^ 64

-- An ended call at `v`, to which it came by edge `e` along the vertices of `path`.
pub record Recalced (c : Chm) (path : List ℕ) (v e g_new : ℕ) (g g' : List ℕ) : Type 0 where
  pub size : length g' ≡ length g
  pub small : Small g → Small g'
  pub away : (f w : ℕ) → Reached c e v f w → on_path w path ≡ false
  pub home : (f1 u1 f w : ℕ) → Leads c v f1 u1 → f1 ≢ e → Reached c f1 u1 f w → w ≢ v
  pub kept : (w : ℕ) → ((f : ℕ) → Reached c e v f w → ⊥) → num g' w ≡ num g w
  pub new : num g' v ≡ cut c.bt_value g_new
  pub sums : (f w f' u : ℕ) → Reached c e v f w → f' ≢ f → Leads c w f' u → SameSum c g g' w u

-- An edge that the loop at `v` follows from edge `k` on.
abbrev pub Kid : Chm → ℕ → ℕ → ℕ → ℕ → ℕ → Type 0
Kid c v e k f u = InChain c v f k × (f ≢ e) × Leads c v f u

-- The loop at `v` from edge `k` on, when it has ended.
pub record Walked (c : Chm) (path : List ℕ) (v e k g_old g_new : ℕ) (g g' : List ℕ) : Type 0 where
  pub size : length g' ≡ length g
  pub small : Small g → Small g'
  pub safe :
      (f u : ℕ) → Kid c v e k f u → (f' w : ℕ) → Reached c f u f' w → on_path w (v ∷ path) ≡ false
  pub kept :
      (w : ℕ)
      → ((f u : ℕ) → Kid c v e k f u → (f' : ℕ) → Reached c f u f' w → ⊥)
      → num g' w ≡ num g w
  pub new :
      (f u : ℕ)
      → Kid c v e k f u
      → (num g' u + cut c.bt_value g_new) % 2 ^ c.bi_value ≡ (g_old + num g u) % 2 ^ c.bi_value
  pub sums :
      (f u : ℕ)
      → Kid c v e k f u
      → (f' w f'' x : ℕ) → Reached c f u f' w
      → f'' ≢ f'
      → Leads c w f'' x
      → SameSum c g g' w x

pub frn_g_new-le : (a b n : ℕ) → frn_g_new a b n ≤ 2 ^ 64
unfolding frn_g_new
frn_g_new-le a b n = omega arith

pub Leads-pos : (c : Chm) (v id u : ℕ) → Leads c v id u → 0 < id
unfolding graph_get_edge
Leads-pos c v zero u l = let h = l.stored in cc h
Leads-pos c v (suc id) u l = omega arith

pub cut-le : (c : Chm) (x : ℕ) → IsSized c → cut c.bt_value x ≤ 2 ^ 64
unfolding cut
cut-le c x sized =
    let bytes = pow-le-pow_right {n = 2} (omega arith) sized.word in
    let one = one-le-pow (8 * c.bt_value) 2 (omega arith) in
    let lt = mod-lt x {m = 2 ^ (8 * c.bt_value)} (omega arith) in omega arith

pub Wrote-Small :
    {c : Chm} {v x : ℕ} {g g' : List ℕ} → IsSized c → Wrote c.bt_value v x g g' → Small g → Small g'
Wrote-Small {c} {v = v} {x = x} {g' = g'} sized wrote h w = elim (ℕ_discrete w v) [
  | yes e ↦ let q = ap (λ y. num g' y) e ∙ wrote.written in let le = cut-le c x sized in omega arith
  | no ne ↦ let q = wrote.others w ne in let k = h w in omega arith
]

pub off_path :
    (w v : ℕ) (path : List ℕ) → on_path w (v ∷ path) ≡ false → (w ≢ v) × (on_path w path ≡ false)
off_path w v path h = (ground arith, ground arith)

-- A walk along an edge of `v` is the rest of a walk from `v`.
pub Reached-step :
    {c : Chm} {e v f u f' w : ℕ} → Leads c v f u → f ≢ e → Reached c f u f' w → Reached c e v f' w
Reached-step {c} {e = e} {v = v} {f = f} {w = w} l ne (start p q) =
    subst (λ x. Reached c e v x w) (sym p)
      (subst (λ y. Reached c e v f y) (sym q) (onward (start refl refl) ne l))
Reached-step l ne (onward r ne' l') = onward (Reached-step l ne r) ne' l'

-- The same edges from two places of the list.
Walked-same :
    {c : Chm} {path : List ℕ} {v e k k' g_old g_new : ℕ} {g g' : List ℕ}
    → ((f u : ℕ) → Kid c v e k f u → Kid c v e k' f u)
    → ((f u : ℕ) → Kid c v e k' f u → Kid c v e k f u)
    → Walked c path v e k g_old g_new g g'
    → Walked c path v e k' g_old g_new g g'
Walked-same to from w = record {
  size = w.size;
  small = w.small;
  safe = λ f u kid. w.safe f u (from f u kid);
  kept = λ x no. w.kept x (λ f u kid. no f u (to f u kid));
  new = λ f u kid. w.new f u (from f u kid);
  sums = λ f u kid. w.sums f u (from f u kid);
}

module _ {c : Chm} (graph : IsGraph c) where
  -- No edge is numbered 0.
  pub Walked-end :
      {path : List ℕ} (v e g_old g_new : ℕ) (g : List ℕ) → Walked c path v e 0 g_old g_new g g
  Walked-end v e g_old g_new g =
      let none : (f u : ℕ) → Kid c v e 0 f u → ⊥ = λ f u (chain, _, l).
        let le = InChain-le graph chain in let pos = Leads-pos c v f u l in absurd (omega arith) in
      record {
        size = refl;
        small = λ h. h;
        safe = λ f u kid. absurd (none f u kid);
        kept = λ w no. refl;
        new = λ f u kid. absurd (none f u kid);
        sums = λ f u kid. absurd (none f u kid);
      }

  -- An edge that the loop skips is none that it follows.
  pub Walked-skip :
      {path : List ℕ} {v e k next u g_old g_new : ℕ} {g g' : List ℕ} (l : Leads c v k u)
      → l.next ≡ next
      → e ≡ k
      → Walked c path v e next g_old g_new g g'
      → Walked c path v e k g_old g_new g g'
  Walked-skip {v = v} {e = e} {k = k} l en ek =
      let below = λ (f : ℕ). subst (λ n. InChain c v f n) en in
      Walked-same
        (λ f u (chain, ne, lf).
          (there l.stored l.sides (subst (λ n. InChain c v f n) (sym en) chain), ne, lf))
        (λ f u (chain, ne, lf). elim (InChain-next l.stored l.sides chain) [
          | inl same ↦ absurd (ne (sym same ∙ sym ek))
          | inr later ↦ (below f later, ne, lf)
        ])

  next-lt : {v k u : ℕ} (l : Leads c v k u) → l.next < k
  next-lt {k = k} l =
      let (a, b) = graph.falling k l.edge l.stored in let s = l.sides in ground arith

  -- An edge that it follows, and the edges behind it.
  module _ {path : List ℕ} {v e k u g_old g_new : ℕ} {g gm g' : List ℕ} (l : Leads c v k u)
      (sized : IsSized c) (small : g_new ≤ 2 ^ 64) (ne : e ≢ k)
      (child : Recalced c (v ∷ path) u k (frn_g_new g_old (num g u) g_new) g gm)
      (rest : Walked c path v e l.next g_old g_new gm g') where
    Kid-part : {f x : ℕ} → Kid c v e k f x → ((k ≡ f) × (u ≡ x)) ⊎ Kid c v e l.next f x
    Kid-part {x = x} kid = elim (InChain-next l.stored l.sides kid.0) [
      | inl same ↦ inl (same, Leads-eq l (subst (λ n. Leads c v n x) (sym same) kid.2))
      | inr later ↦ inr (later, kid.1, kid.2)
    ]

    Kid-up : {f x : ℕ} → Kid c v e l.next f x → Kid c v e k f x
    Kid-up kid = (there l.stored l.sides kid.0, kid.1, kid.2)

    child_at :
        {f x : ℕ} → k ≡ f → u ≡ x → Recalced c (v ∷ path) x f (frn_g_new g_old (num g x) g_new) g gm
    child_at {x = x} p q =
        subst (λ n. Recalced c (v ∷ path) x n (frn_g_new g_old (num g x) g_new) g gm) p
          (subst (λ y. Recalced c (v ∷ path) y k (frn_g_new g_old (num g y) g_new) g gm) q child)

    -- The walks of the two do not meet.
    cross : {a w f x b : ℕ} → Reached c k u a w → Kid c v e l.next f x → Reached c f x b w → ⊥
    cross {f = f} {x = x} r kid r' =
        Reached-disjoint graph l kid.2
          (let le = InChain-le graph kid.0 in let lt = next-lt l in omega arith)
          (λ b y q. (off_path y v path (child.away b y q)).0)
          (λ b y q. (off_path y v path (rest.safe f x kid b y q)).0) r r'

    -- What the rest of the loop leaves of what the child has reached, and the other way round.
    rest_kept : {a w : ℕ} → Reached c k u a w → num g' w ≡ num gm w
    rest_kept {w = w} r = rest.kept w (λ f x kid b r'. cross r kid r')

    child_kept : {f x b w : ℕ} → Kid c v e l.next f x → Reached c f x b w → num gm w ≡ num g w
    child_kept {w = w} kid r' = child.kept w (λ a r. cross r kid r')

    Walked-new :
        {f x : ℕ}
        → Kid c v e k f x
        → (num g' x + cut c.bt_value g_new) % 2 ^ c.bi_value ≡ (g_old + num g x) % 2 ^ c.bi_value
    Walked-new {f = f} {x = x} kid = elim (Kid-part kid) [
      | inl (p, q) ↦
          let kept : num g' x ≡ num gm x =
            rest_kept (subst (λ y. Reached c k u k y) q (start refl refl)) in
          ap (λ y. (y + cut c.bt_value g_new) % 2 ^ c.bi_value) (kept ∙ (child_at p q).new)
          ∙ frn_sum c.bi_value c.bt_value sized.fits sized.word g_old (num g x) g_new small
      | inr later ↦
          rest.new f x later
          ∙ ap (λ y. (g_old + y) % 2 ^ c.bi_value) (child_kept later (start refl refl))
    ]

    Walked-sums :
        {f x a w b y : ℕ}
        → Kid c v e k f x
        → Reached c f x a w
        → b ≢ a
        → Leads c w b y
        → SameSum c g g' w y
    Walked-sums {f = f} {x = x} {a = a} {w = w} {b = b} {y = y} kid r n lb = elim (Kid-part kid) [
      | inl (p, q) ↦
          let r0 : Reached c k u a w =
            subst (λ m. Reached c m u a w) (sym p) (subst (λ m. Reached c f m a w) (sym q) r) in
          ap₂ (λ s t. (s + t) % 2 ^ c.bi_value) (rest_kept r0) (rest_kept (onward r0 n lb))
          ∙ child.sums a w b y r0 n lb
      | inr later ↦
          rest.sums f x later a w b y r n lb
          ∙ ap₂ (λ s t. (s + t) % 2 ^ c.bi_value) (child_kept later r)
              (child_kept later (onward r n lb))
    ]

    pub Walked-follow : Walked c path v e k g_old g_new g g'
    Walked-follow = record {
      size = rest.size ∙ child.size;
      small = λ h. rest.small (child.small h);
      safe = λ f x kid a w r. elim (Kid-part kid) [
        | inl (p, q) ↦ (child_at p q).away a w r
        | inr later ↦ rest.safe f x later a w r
      ];
      kept = λ w no.
          let kid0 : Kid c v e k k u = (here refl, (λ q. ne (sym q)), l) in
          rest.kept w (λ f x kid. no f x (Kid-up kid)) ∙ child.kept w (no k u kid0);
      new = λ f x kid. Walked-new kid;
      sums = λ f x kid a w b y r n lb. Walked-sums kid r n lb;
    }
