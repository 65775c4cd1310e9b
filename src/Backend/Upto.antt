-- ===== src/Backend/Upto.antt =====
-- The graph of core/backend.c while `backend_destroy` runs: some backends have lost a child that still
-- knows them as a parent.
use frozen.Base.{inl, sym, inr, Bool-cases, ℕ, ◌+◌, ◌≤◌, ◌<◌, ◌≡◌, ◌∙◌, true, ◌&&◌, arith, length}
use frozen.ItemList.View.{view}
use frozen.Backend.{named, Bool, false, Graph}
use frozen.Backend.Linked.{
  child_links, parent_links, top_links, name_links, one_if, IsBuilt, IsLinked, Shrinks,
}

-- Linked, but for the links of `S`, which may be in the parents only.
pub record IsLinkedUpto (S : ℕ → ℕ → ℕ) (g : Graph) : Type 0 where
  pub built : IsBuilt g
  pub child-parent : (p c : ℕ) → child_links g p c ≤ parent_links g c p
  pub parent-child : (p c : ℕ) → parent_links g c p ≤ child_links g p c + S p c
  pub live_parent : (p c : ℕ) → parent_links g c p ≤ one_if (g.live p)
  pub rooted : (b p : ℕ) → top_links g b + parent_links g b p ≤ one_if (g.live b)
  pub in_names : (b : ℕ) → name_links g b ≡ one_if (g.live b && named g b)

pub IsLinked-IsLinkedUpto : (g : Graph) → IsLinked g → IsLinkedUpto (λ p c. 0) g
IsLinked-IsLinkedUpto g h = record {
  built = h.built;
  child-parent = λ p c. omega (arith, h.dual p c);
  parent-child = λ p c. omega (arith, h.dual p c);
  live_parent = λ p c. omega (arith, h.dual p c, h.live_parent p c);
  rooted = h.rooted;
  in_names = h.in_names;
}

pub IsLinkedUpto-IsLinked :
    (S : ℕ → ℕ → ℕ) (g : Graph) → IsLinkedUpto S g → ((p c : ℕ) → S p c ≡ 0) → IsLinked g
IsLinkedUpto-IsLinked S g h none_left = record {
  built = h.built;
  dual = λ p c. omega (arith, h.child-parent p c, h.parent-child p c, none_left p c);
  live_parent = λ p c. omega (arith, h.child-parent p c, h.live_parent p c);
  rooted = h.rooted;
  in_names = h.in_names;
}

pub IsLinkedUpto-more :
    (S S' : ℕ → ℕ → ℕ) (g : Graph)
    → IsLinkedUpto S g
    → ((p c : ℕ) → S p c ≤ S' p c)
    → IsLinkedUpto S' g
IsLinkedUpto-more S S' g h more = record {
  built = h.built;
  child-parent = h.child-parent;
  parent-child = λ p c. omega (arith, h.parent-child p c, more p c);
  live_parent = h.live_parent;
  rooted = h.rooted;
  in_names = h.in_names;
}

-- Backends and links go, and those that stay are as they were.
pub record IsLess (g g' : Graph) : Type 0 where
  pub less_live : (x : ℕ) → g'.live x ≡ true → g.live x ≡ true
  pub same_refs : (x : ℕ) → g'.live x ≡ true → g'.refs x ≡ g.refs x
  pub less_childs : (x y : ℕ) → child_links g' x y ≤ child_links g x y
  pub less_parents : (x y : ℕ) → parent_links g' x y ≤ parent_links g x y
  pub shrinks : Shrinks g g'

pub IsLess-trans : (g1 g2 g3 : Graph) → IsLess g1 g2 → IsLess g2 g3 → IsLess g1 g3
IsLess-trans g1 g2 g3 h k = record {
  less_live = λ x e. h.less_live x (k.less_live x e);
  same_refs = λ x e. k.same_refs x e ∙ h.same_refs x (k.less_live x e);
  less_childs = λ x y. omega (arith, h.less_childs x y, k.less_childs x y);
  less_parents = λ x y. omega (arith, h.less_parents x y, k.less_parents x y);
  shrinks = record {
    childs_shorter = λ x. omega (arith, h.shrinks.childs_shorter x, k.shrinks.childs_shorter x);
    parents_shorter = λ x. omega (arith, h.shrinks.parents_shorter x, k.shrinks.parents_shorter x);
  };
}

-- No cycles: a parent ranks above its childs. The backends that rank below `n` have one reference, and
-- no list of links is longer than `longest`.
pub record IsRanked (rank : ℕ → ℕ) (longest n : ℕ) (g : Graph) : Type 0 where
  pub ranked : (x y : ℕ) → 1 ≤ parent_links g y x → rank y < rank x
  pub one_ref : (x : ℕ) → g.live x ≡ true → rank x < n → g.refs x ≡ 1
  pub short_childs : (x : ℕ) → length (view (g.childs x)) ≤ longest
  pub short_parents : (x : ℕ) → length (view (g.parents x)) ≤ longest

pub IsRanked-less :
    (rank : ℕ → ℕ) (longest n m : ℕ) (g g' : Graph)
    → IsRanked rank longest n g
    → IsLess g g'
    → m ≤ n
    → IsRanked rank longest m g'
IsRanked-less rank longest n m g g' h k le = record {
  ranked = λ x y e. h.ranked x y (omega (arith, e, k.less_parents y x));
  one_ref = λ x alive below. k.same_refs x alive ∙ h.one_ref x (k.less_live x alive) (omega arith);
  short_childs = λ x. omega (arith, h.short_childs x, k.shrinks.childs_shorter x);
  short_parents = λ x. omega (arith, h.short_parents x, k.shrinks.parents_shorter x);
}

-- The links between the backends that stay are kept, and the childs of one that goes go too.
pub record IsClosed (g g' : Graph) : Type 0 where
  pub kept_links :
      (x y : ℕ) → g'.live x ≡ true → g'.live y ≡ true → parent_links g' y x ≡ parent_links g y x
  pub childs_go :
      (x y : ℕ) → g.live x ≡ true → g'.live x ≡ false → 1 ≤ parent_links g y x → g'.live y ≡ false

still_false : (t u : Bool) → (u ≡ true → t ≡ true) → t ≡ false → u ≡ false
still_false t true h e = absurd (let both : true ≡ false = sym (h (λ i. true)) ∙ e in cc both)
still_false t false h e = λ i. false

pub IsClosed-trans :
    (g1 g2 g3 : Graph) → IsClosed g1 g2 → IsLess g2 g3 → IsClosed g2 g3 → IsClosed g1 g3
IsClosed-trans g1 g2 g3 h less k = record {
  kept_links = λ x y e e'.
      k.kept_links x y e e' ∙ h.kept_links x y (less.less_live x e) (less.less_live y e');
  childs_go = λ x y before after link. elim (Bool-cases (g2.live y)) [
    | inr gone ↦ still_false (g2.live y) (g3.live y) (less.less_live y) gone
    | inl here ↦ elim (Bool-cases (g2.live x)) [
      | inr gone ↦
          still_false (g2.live y) (g3.live y) (less.less_live y) (h.childs_go x y before gone link)
      | inl parent ↦
          k.childs_go x y parent after (omega (arith, link, h.kept_links x y parent here))
    ]
  ];
}

pub IsClosed-same :
    (g g' : Graph)
    → ((x : ℕ) → g'.live x ≡ g.live x)
    → ((x y : ℕ) → parent_links g' x y ≡ parent_links g x y)
    → IsClosed g g'
IsClosed-same g g' lives parents = record {
  kept_links = λ x y e e'. parents y x;
  childs_go = λ x y before after link.
      absurd (let both : true ≡ false = sym before ∙ sym (lives x) ∙ after in cc both);
}
