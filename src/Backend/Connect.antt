-- ===== src/Backend/Connect.antt =====
-- `backend_connect` and `backend_disconnect` of core/backend.c keep the graph linked.
use frozen.Base.{
  ap₂, ◌⊎◌, ℕ, ◌+◌, ◌-◌, ◌≤◌, ◌≡◌, sym, ap, ◌∙◌, Bool, true, false, ◌&&◌, some, arith, ◌==◌,
  Bool-cases, inl, inr,
}
use frozen.ItemList.{Cell}
use frozen.ItemList.View.{view}
use frozen.ItemList.Walk.{null}
use frozen.ItemList.Count.{hit}
use frozen.Backend.{named, Graph, backend_connect, backend_disconnect}
use frozen.Backend.Linked.{
  child_links, parent_links, top_links, name_links, one_if, IsLinked, hit_at,
}
use frozen.Backend.Edges.{
  Keeps, topped, null-count, backend_connect-count, backend_disconnect-count,
}

-- A hit at both ends is the same link, read from either end.
pub hit_at-swap : (p c x y : ℕ) → hit_at p c x y ≡ hit_at c p y x
hit_at-swap p c x y = ground arith

-- A link that was not there is added once, ...
fresh-cases : (f : ℕ → ℕ → ℕ) (p c : ℕ) → f p c ≡ 0 → (x y : ℕ) → (hit_at p c x y ≡ 0) ⊎ (f x y ≡ 0)
fresh-cases f p c h x y = elim (Bool-cases (p == x)) [
  | inr differ ↦ inl (rw differ)
  | inl same ↦ elim (Bool-cases (c == y)) [
    | inr differ ↦ inl (rw (same, differ))
    | inl same' ↦
        let e : p ≡ x = ground arith in
        let e' : c ≡ y = ground arith in inr (ap₂ f (sym e) (sym e') ∙ h)
  ]
]

-- ... at a backend that is not freed.
hit_at-live :
    (g : Graph) (p c : ℕ) → g.live p ≡ true → (x y : ℕ) → hit_at p c x y ≤ one_if (g.live x)
hit_at-live g p c alive x y = elim (Bool-cases (p == x)) [
  | inr differ ↦ rw differ (omega arith)
  | inl same ↦
      let e : p ≡ x = ground arith in
      let alive' : g.live x ≡ true = ap g.live (sym e) ∙ alive in rw alive' (ground arith)
]

hit_at-hit : (p c x y : ℕ) → hit_at p c x y ≤ hit p x
hit_at-hit p c x y = ground arith

hit-le : (p x : ℕ) → hit p x ≤ 1
hit-le p x = ground arith

pub one_if-true : (t : Bool) → 1 ≤ one_if t → t ≡ true
one_if-true true h = λ i. true
one_if-true false h = absurd (omega arith)

pub one_if-le : (t : Bool) → one_if t ≤ 1
one_if-le t = ground arith

pub in_names_kept :
    (g g' : Graph)
    → ((b : ℕ) → name_links g b ≡ one_if (g.live b && named g b))
    → Keeps g g'
    → (b : ℕ) → name_links g' b ≡ one_if (g'.live b && named g' b)
in_names_kept g g' h k b = k.names_kept b ∙ h b ∙ rw (k.live_kept b, k.name_kept b)

-- `backend_top` of a backend that is not freed keeps roots that have no parent.
pub topped-le :
    (g : Graph) (p : ℕ) (n : ℕ → ℕ)
    → g.live p ≡ true
    → ((b q : ℕ) → n b + parent_links g b q ≤ one_if (g.live b))
    → (b q : ℕ)
    → topped (null (view (g.parents p))) p (n b) b + parent_links g b q ≤ one_if (g.live b)
topped-le g p n alive h b q = elim (Bool-cases (p == b)) [
  | inr differ ↦ elim (Bool-cases (null (view (g.parents p)))) [
    | inl rootless ↦ rw (rootless, differ) (omega (arith, h b q))
    | inr parented ↦ rw parented (h b q)
  ]
  | inl same ↦
      let e : p ≡ b = ground arith in
      elim (Bool-cases (null (view (g.parents p)))) [
        | inr parented ↦ rw parented (h b q)
        | inl rootless ↦
            let none_left : parent_links g b q ≡ 0 =
              ap (λ t. parent_links g t q) (sym e) ∙ null-count q (view (g.parents p)) rootless in
            let alive' : one_if (g.live b) ≡ 1 = ap (λ t. one_if (g.live t)) (sym e) ∙ rw alive in
            rw (rootless, same) (omega (arith, h b q, none_left, alive'))
      ]
]

-- `backend_connect` of two backends that are not freed and not linked ends; the graph stays linked,
-- gets that link and no other, and no backend, name or count of references changes.
pub backend_connect-IsLinked :
    (junk : Cell) (p c : ℕ) (g : Graph)
    → IsLinked g
    → g.live p ≡ true
    → g.live c ≡ true
    → child_links g p c ≡ 0
    → (g' : Graph) × (backend_connect junk p (some c) g ≡ some g')
      × IsLinked g'
      × Keeps g g'
      × ((x y : ℕ) → child_links g' x y ≡ child_links g x y + hit_at p c x y)
backend_connect-IsLinked junk p c g h live_p live_c fresh =
    let (g', e, built, kept, childs, parents, tops) =
      backend_connect-count junk p c g h.built live_p live_c in
    (
      g',
      e,
      record {
        built = built;
        dual = λ x y. omega (arith, childs x y, parents y x, h.dual x y, hit_at-swap p c x y);
        live_parent = λ x y.
            rw (kept.live_kept x) (elim (fresh-cases (child_links g) p c fresh x y) [
              | inl off ↦ omega (arith, off, childs x y, h.live_parent x y)
              | inr new ↦ omega (arith, new, childs x y, hit_at-live g p c live_p x y)
            ]);
        rooted = λ b q.
            let bound = topped-le g p (top_links g) live_p h.rooted b q in
            rw (kept.live_kept b)
              (elim (fresh-cases (parent_links g) c p (sym (h.dual p c) ∙ fresh) b q) [
                | inl off ↦ omega (arith, off, parents b q, bound, tops b)
                | inr new ↦ omega (
                  arith,
                  new,
                  parents b q,
                  bound,
                  tops b,
                  hit_at-live g c p live_c b q,
                  hit_at-hit c p b q,
                  hit-le c b,
                  one_if-le (g.live b),
                )
              ]);
        in_names = in_names_kept g g' h.in_names kept;
      },
      kept,
      childs,
    )

-- `backend_disconnect` of two backends that are not freed ends; the graph stays linked, loses that link,
-- if it was there, and no other, and no backend, name or count of references changes.
pub backend_disconnect-IsLinked :
    (junk : Cell) (p c : ℕ) (g : Graph)
    → IsLinked g
    → g.live p ≡ true
    → g.live c ≡ true
    → (g' : Graph) × (backend_disconnect junk p (some c) g ≡ some g')
      × IsLinked g'
      × Keeps g g'
      × ((x y : ℕ) → child_links g' x y ≡ child_links g x y - hit_at p c x y)
backend_disconnect-IsLinked junk p c g h live_p live_c =
    let (g', e, built, kept, _, childs, parents, tops) =
      backend_disconnect-count junk p c g h.built live_p live_c in
    let live_c' : g'.live c ≡ true = kept.live_kept c ∙ live_c in
    (
      g',
      e,
      record {
        built = built;
        dual = λ x y. omega (arith, childs x y, parents y x, h.dual x y, hit_at-swap p c x y);
        live_parent = λ x y. rw (kept.live_kept x) (omega (arith, childs x y, h.live_parent x y));
        rooted = λ b q.
            let bound =
              topped-le g' c (λ t. top_links g t - hit p t) live_c'
                (λ t r. rw (kept.live_kept t) (omega (arith, h.rooted t r, parents t r))) b q in
            omega (arith, bound, tops b);
        in_names = in_names_kept g g' h.in_names kept;
      },
      kept,
      childs,
    )
