-- ===== src/Backend/Free.antt =====
-- How core/backend.c frees a backend: `backend_free_skeleton`.
use frozen.Base.{
  subst, ℕ, ◌+◌, ◌-◌, ◌≤◌, ◌≡◌, refl, sym, ap, ◌∙◌, Bool, true, false, ◌&&◌, none, some, arith,
  ◌==◌, if◌then◌else◌, Bool-cases, inl, inr,
}
use frozen.ItemList.{item, ItemList, list_destroy}
use frozen.ItemList.View.{IsList, view}
use frozen.ItemList.Count.{hit, count, list_delete-count}
use frozen.Backend.{named, list_delete, Graph, upd, ◌>>◌, on_names, backend_free_skeleton}
use frozen.Backend.Linked.{
  child_links, parent_links, name_links, one_if, IsLinked, upd-IsList, upd-length,
}
use frozen.Backend.Edges.{backend_untop-count}
use frozen.Backend.Connect.{one_if-le}
use frozen.Backend.Upto.{IsLinkedUpto, IsLess, IsLinked-IsLinkedUpto, IsLinkedUpto-IsLinked}

-- A list that has no items in place of one that has none of the links.
pub emptied :
    (f : ℕ → ItemList) (b : ℕ)
    → ((y : ℕ) → count y (view (f b)) ≡ 0)
    → (x y : ℕ) → count y (view (upd f b (record { items = none }) x)) ≡ count y (view (f x))
emptied f b h x y = elim (Bool-cases (b == x)) [
  | inr differ ↦ rw differ
  | inl same ↦
      let e : b ≡ x = ground arith in rw same (sym (h y) ∙ ap (λ t. count y (view (f t))) e)
]

unnamed_one :
    (same name live named : Bool) (n : ℕ)
    → n ≡ one_if (live && named)
    → (same ≡ true → name ≡ named)
    → n - (if name then one_if same else 0) ≡ one_if ((if same then false else live) && named)
unnamed_one true name live named n h one = let d = one refl in ground arith
unnamed_one false name live named n h one = ground arith

-- What is none at a backend that goes, and bounded elsewhere.
unlinked_one :
    (same live : Bool) (n : ℕ)
    → n ≤ one_if live
    → (same ≡ true → n ≡ 0)
    → n ≤ one_if (if same then false else live)
unlinked_one true live n h gone = omega (arith, gone refl)
unlinked_one false live n h gone = h

was_live : (same live : Bool) → (if same then false else live) ≡ true → live ≡ true
was_live true live e = absurd (cc e)
was_live false live e = e

pub at_same {ℓ} : {A : Type ℓ} (f : ℕ → A) (b x : ℕ) → (b == x) ≡ true → f b ≡ f x
at_same f b x e = let same : b ≡ x = ground arith in ap f same

-- The name of a backend that is freed goes.
old_name :
    (b : ℕ) (g : Graph)
    → IsList g.backends_names
    → (l : ItemList) × ((if named g b then on_names (λ l. list_delete l (item b)) g else some g)
        ≡ some (record g { backends_names = l }))
      × IsList l
      × ((q : ℕ) → count q (view l) ≡ name_links g q - (if named g b then hit b q else 0))
old_name b g h = elim (Bool-cases (named g b)) [
  | inl named ↦
      let (l, e, ended, counts, _) = list_delete-count b g.backends_names h in
      (l, rw (named, on_names, e), ended, λ q. rw named (counts q))
  | inr plain ↦ (g.backends_names, rw plain, h, λ q. rw plain (omega arith))
]

-- `backend_free_skeleton` of a backend without links, in any state of the graph.
pub backend_free_skeleton-IsLinkedUpto :
    (S : ℕ → ℕ → ℕ) (b : ℕ) (g : Graph)
    → IsLinkedUpto S g
    → g.live b ≡ true
    → ((y : ℕ) → child_links g b y ≡ 0)
    → ((y : ℕ) → parent_links g b y ≡ 0)
    → ((y : ℕ) → S b y ≡ 0)
    → (g' : Graph) × (backend_free_skeleton b g ≡ some g')
      × IsLinkedUpto S g'
      × IsLess g g'
      × ((x : ℕ) → g'.live x ≡ upd g.live b false x)
      × ((x y : ℕ) → child_links g' x y ≡ child_links g x y)
      × ((x y : ℕ) → parent_links g' x y ≡ parent_links g x y)
unfolding backend_free_skeleton list_destroy
backend_free_skeleton-IsLinkedUpto S b g h alive no_child no_parent none_left =
    let nil : ItemList = record { items = none } in
    let (t, e1, ended1, counts1) = backend_untop-count b g h.built in
    let g1 : Graph = record g { backends_top = t } in
    let (l, e2, ended2, counts2) = old_name b g1 h.built.names_ended in
    let childs = emptied g.childs b no_child in
    let parents = emptied g.parents b no_parent in
    (
      record g1 {
        backends_names = l;
        live = upd g.live b false;
        childs = upd g.childs b nil;
        parents = upd g.parents b nil;
      },
      rw (◌>>◌, e1, alive, e2),
      record {
        built = record {
          childs_ended = upd-IsList g.childs b nil h.built.childs_ended tt;
          parents_ended = upd-IsList g.parents b nil h.built.parents_ended tt;
          top_ended = ended1;
          names_ended = ended2;
        };
        child-parent = λ x y. omega (arith, childs x y, parents y x, h.child-parent x y);
        parent-child = λ x y. omega (arith, childs x y, parents y x, h.parent-child x y);
        live_parent = λ x y.
            subst (λ n. n ≤ one_if (upd g.live b false x)) (sym (parents y x))
              (unlinked_one (b == x) (g.live x) _ (h.live_parent x y) (λ e.
                let gone = sym (at_same (λ t. child_links g t y) b x e) ∙ no_child y in
                let left = sym (at_same (λ t. S t y) b x e) ∙ none_left y in
                omega (arith, gone, left, h.parent-child x y)));
        rooted = λ x y.
            let n = parents x y in
            let r = h.rooted x y in
            unlinked_one (b == x) (g.live x)
              (count x (view t) + count y (view (upd g.parents b nil x)))
              (omega (arith, counts1 x, n, r))
              (λ e.
                let gone = sym (at_same (λ t. parent_links g t y) b x e) ∙ no_parent y in
                let one : hit b x ≡ 1 = rw e in
                omega (arith, gone, one, n, r, counts1 x, one_if-le (g.live x)));
        in_names = λ x.
            counts2 x
            ∙ unnamed_one (b == x) (named g b) (g.live x) (named g x) _ (h.in_names x)
                (at_same (named g) b x);
      },
      record {
        less_live = λ x. was_live (b == x) (g.live x);
        same_refs = λ x e. refl;
        less_childs = λ x y. omega (arith, childs x y);
        less_parents = λ x y. omega (arith, parents x y);
        shrinks = record {
          childs_shorter = upd-length g.childs b nil (omega arith);
          parents_shorter = upd-length g.parents b nil (omega arith);
        };
      },
      λ x. refl,
      childs,
      parents,
    )

-- `backend_free_skeleton` of a backend without links ends, frees it and nothing else, and the graph
-- stays linked.
pub backend_free_skeleton-IsLinked :
    (b : ℕ) (g : Graph)
    → IsLinked g
    → g.live b ≡ true
    → ((y : ℕ) → child_links g b y ≡ 0)
    → ((y : ℕ) → parent_links g b y ≡ 0)
    → (g' : Graph) × (backend_free_skeleton b g ≡ some g')
      × IsLinked g'
      × ((x : ℕ) → g'.live x ≡ upd g.live b false x)
      × ((x y : ℕ) → child_links g' x y ≡ child_links g x y)
backend_free_skeleton-IsLinked b g h alive no_child no_parent =
    let (g', e, linked, _, lives, childs, _) =
      backend_free_skeleton-IsLinkedUpto (λ p c. 0) b g (IsLinked-IsLinkedUpto g h) alive no_child
        no_parent (λ y. refl) in
    (g', e, IsLinkedUpto-IsLinked _ g' linked (λ p c. refl), lives, childs)
