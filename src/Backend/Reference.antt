-- ===== src/Backend/Reference.antt =====
-- `--backend->refs` of core/backend.c, and what it and the end of `backend_destroy` leave.
use frozen.Base.{inr, inl, Bool-cases, ℕ, suc, ◌≡◌, sym, ap, ◌∙◌, true, false, arith, ◌==◌}
use frozen.Backend.{Graph, upd}
use frozen.Backend.Linked.{parent_links}
use frozen.Backend.Upto.{IsLinkedUpto, IsLess, IsClosed, IsRanked}

-- `--backend->refs` changes no link.
pub refs-IsLinkedUpto :
    (S : ℕ → ℕ → ℕ) (g : Graph) (r : ℕ → ℕ)
    → IsLinkedUpto S g
    → IsLinkedUpto S (record g { refs = r })
refs-IsLinkedUpto S g r h = record {
  built = record {
    childs_ended = h.built.childs_ended;
    parents_ended = h.built.parents_ended;
    top_ended = h.built.top_ended;
    names_ended = h.built.names_ended;
  };
  child-parent = h.child-parent;
  parent-child = h.parent-child;
  live_parent = h.live_parent;
  rooted = h.rooted;
  in_names = h.in_names;
}

pub upd_other {ℓ} :
    {A : Type ℓ} (f : ℕ → A) (b : ℕ) (v : A) (x : ℕ) → ((b == x) ≡ true → ⊥) → upd f b v x ≡ f x
upd_other f b v x differ = elim (Bool-cases (b == x)) [
  | inl same ↦ absurd (differ same)
  | inr other ↦ rw other
]

pub refs-IsRanked :
    (rank : ℕ → ℕ) (longest b : ℕ) (g : Graph)
    → IsRanked rank longest (suc (rank b)) g
    → IsRanked rank longest (rank b) (record g { refs = upd g.refs b 0 })
refs-IsRanked rank longest b g h = record {
  ranked = h.ranked;
  one_ref = λ x alive below.
      upd_other g.refs b 0 x (λ e.
        let same : b ≡ x = ground arith in let r = ap rank same in absurd (omega (arith, r, below)))
      ∙ h.one_ref x alive (omega arith);
  short_childs = h.short_childs;
  short_parents = h.short_parents;
}

-- With the first reference gone and then the backend, the others are as they were.
pub freed-IsLess :
    (b : ℕ) (g g' : Graph)
    → g'.live b ≡ false
    → IsLess (record g { refs = upd g.refs b 0 }) g'
    → IsLess g g'
freed-IsLess b g g' dead h = record {
  less_live = h.less_live;
  same_refs = λ x alive.
      h.same_refs x alive
      ∙ upd_other g.refs b 0 x (λ e.
        let same : b ≡ x = ground arith in
        let both : true ≡ false = sym alive ∙ ap g'.live (sym same) ∙ dead in absurd (cc both));
  less_childs = h.less_childs;
  less_parents = h.less_parents;
  shrinks = record {
    childs_shorter = h.shrinks.childs_shorter;
    parents_shorter = h.shrinks.parents_shorter;
  };
}

pub refs-IsClosed :
    (b : ℕ) (g g' : Graph) → IsClosed (record g { refs = upd g.refs b 0 }) g' → IsClosed g g'
refs-IsClosed b g g' h = record { kept_links = h.kept_links; childs_go = h.childs_go }

-- The backend goes last, when it has no childs.
pub freed-IsClosed :
    (b : ℕ) (g g' : Graph)
    → ((x : ℕ) → g'.live x ≡ upd g.live b false x)
    → ((y x : ℕ) → (b == y) ≡ false → parent_links g' y x ≡ parent_links g y x)
    → ((y : ℕ) → parent_links g y b ≡ 0)
    → IsClosed g g'
freed-IsClosed b g g' lives parents no_child = record {
  kept_links = λ x y e e'. elim (Bool-cases (b == y)) [
    | inr other ↦ parents y x other
    | inl same ↦ absurd (let both : true ≡ false = sym e' ∙ lives y ∙ rw same in cc both)
  ];
  childs_go = λ x y before after link. elim (Bool-cases (b == x)) [
    | inr other ↦
        absurd (let both : true ≡ false = sym before ∙ sym (lives x ∙ rw other) ∙ after in cc both)
    | inl same ↦
        let e : b ≡ x = ground arith in
        absurd (omega (arith, link, ap (λ t. parent_links g y t) (sym e) ∙ no_child y))
  ];
}
