-- ===== src/Backend/Childs.antt =====
-- One round of the loop over the childs in `backend_destroy` of core/backend.c, on fuel.
use frozen.Base.{refl}
use frozen.Backend.Connect.{one_if-true}
use frozen.ItemList.Count.{count}
use frozen.Base.{◌==◌}
use frozen.Base.{
  inr, inl, Bool-cases, ℕ, suc, ◌+◌, ◌≤◌, ◌<◌, ◌≡◌, sym, ap, ◌∙◌, true, some, arith, length, ◌==◌,
}
use frozen.ItemList.{Cell}
use frozen.ItemList.View.{view, IsList}
use frozen.Backend.{list_pop, ItemList, Graph, upd, ◌>>◌, backend_destroy, destroy_childs}
use frozen.Backend.Linked.{hit_at, took_at, was_empty_at, pop_at, child_links, parent_links}
use frozen.Backend.Upto.{
  IsRanked-less, IsLinkedUpto, IsLess, IsLess-trans, IsClosed, IsClosed-trans, IsClosed-same,
}
use frozen.Backend.Teardown.{DestroyEnds, ChildsEnd, IsAbove, destroy_fuel-le}

childs_run :
    (junk : Cell) (fuel b c : ℕ) (l : ItemList) (g g2 g3 : Graph)
    → g.live b ≡ true
    → list_pop (g.childs b) ≡ some (some c, l)
    → backend_destroy junk fuel c (record g { childs = upd g.childs b l }) ≡ some g2
    → destroy_childs junk fuel b g2 ≡ some g3
    → destroy_childs junk (suc fuel) b g ≡ some g3
unfolding destroy_childs
childs_run junk fuel b c l g g2 g3 alive e e2 e3 = rw (alive, e, ◌>>◌, e2, e3)

-- The exception of a child that has no parents any more is none.
settled :
    (S : ℕ → ℕ → ℕ) (b c : ℕ) (g : Graph)
    → IsLinkedUpto (λ x y. S x y + hit_at b c x y) g
    → ((y : ℕ) → parent_links g c y ≡ 0)
    → IsLinkedUpto S g
settled S b c g h empty = record {
  built = h.built;
  child-parent = h.child-parent;
  parent-child = λ x y. elim (Bool-cases (c == y)) [
    | inl same ↦
        let e : c ≡ y = ground arith in
        let gone = sym (ap (λ t. parent_links g t x) e) ∙ empty x in omega (arith, gone)
    | inr differ ↦
        let off : hit_at b c x y ≡ 0 = ground arith in omega (arith, off, h.parent-child x y)
  ];
  live_parent = h.live_parent;
  rooted = h.rooted;
  in_names = h.in_names;
}

-- No exception of a child is at its own links.
IsAbove-child :
    (rank : ℕ → ℕ) (S : ℕ → ℕ → ℕ) (b c : ℕ)
    → IsAbove rank (rank b) S
    → rank c < rank b
    → IsAbove rank (rank c) (λ x y. S x y + hit_at b c x y)
IsAbove-child rank S b c above below x y le = elim (Bool-cases (b == x)) [
  | inl same ↦
      let e : b ≡ x = ground arith in let r = ap rank e in absurd (omega (arith, r, le, below))
  | inr differ ↦
      let off : hit_at b c x y ≡ 0 = rw differ in omega (arith, off, above x y (omega arith))
]

-- Another map of childs, with the links that it drops as exceptions.
childs_dropped :
    (S S' : ℕ → ℕ → ℕ) (g : Graph) (f : ℕ → ItemList)
    → IsLinkedUpto S g
    → ((x : ℕ) → IsList (f x))
    → ((x y : ℕ) → count y (view (f x)) ≤ child_links g x y)
    → ((x y : ℕ) → child_links g x y + S x y ≤ count y (view (f x)) + S' x y)
    → ((x : ℕ) → length (view (f x)) ≤ length (view (g.childs x)))
    → let g' : Graph = record g { childs = f } in IsLinkedUpto S' g' × IsLess g g' × IsClosed g g'
childs_dropped S S' g f h ended fewer but shorter = (
  record {
    built = record {
      childs_ended = ended;
      parents_ended = h.built.parents_ended;
      top_ended = h.built.top_ended;
      names_ended = h.built.names_ended;
    };
    child-parent = λ x y. omega (arith, h.child-parent x y, fewer x y);
    parent-child = λ x y. omega (arith, h.parent-child x y, but x y);
    live_parent = h.live_parent;
    rooted = h.rooted;
    in_names = h.in_names;
  },
  record {
    less_live = λ x e. e;
    same_refs = λ x e. refl;
    less_childs = fewer;
    less_parents = λ x y. omega arith;
    shrinks = record { childs_shorter = shorter; parents_shorter = λ x. omega arith };
  },
  IsClosed-same g (record g { childs = f }) (λ x. refl) (λ x y. refl),
)

-- A child popped off the list is an exception until it is destroyed.
pub childs_step :
    (junk : Cell) (rank : ℕ → ℕ) (longest fuel : ℕ)
    → DestroyEnds junk rank longest fuel
    → ChildsEnd junk rank longest fuel
    → ChildsEnd junk rank longest (suc fuel)
unfolding destroy_childs
childs_step junk rank longest fuel destroy_ends childs_end S b g h ranked above alive enough =
    elim (pop_at g.childs b h.built.childs_ended) [
      | was_empty_at l e ended none_left same shorter ↦
          let (linked1, less1, closed1) =
            childs_dropped S S g (upd g.childs b l) h ended (λ x y. omega (arith, same x y))
              (λ x y. omega (arith, same x y)) shorter in
          (
            record g { childs = upd g.childs b l },
            rw (alive, e),
            linked1,
            less1,
            closed1,
            λ y. same b y ∙ none_left y,
            λ x e. refl,
          )
      | took_at c l e ended counts shorter fewer ↦
          let g1 : Graph = record g { childs = upd g.childs b l } in
          let S1 : ℕ → ℕ → ℕ = λ x y. S x y + hit_at b c x y in
          let (linked1, less1, closed1) =
            childs_dropped S S1 g (upd g.childs b l) h ended (λ x y. omega (arith, counts x y))
              (λ x y. omega (arith, counts x y)) shorter in
          let here : hit_at b c b c ≡ 1 = ground arith in
          let parent : 1 ≤ parent_links g c b =
            omega (arith, h.child-parent b c, counts b c, here) in
          let below : rank c < rank b = ranked.ranked b c parent in
          let alive_c : g.live c ≡ true =
            one_if-true (g.live c) (omega (arith, parent, h.rooted c b)) in
          let (g2, e2, linked2, less2, closed2, dead2, empty2, lives2) =
            destroy_ends S1 c g1 linked1
              (IsRanked-less rank longest (rank b) (suc (rank c)) g g1 ranked less1 (omega arith))
              (IsAbove-child rank S b c above below) alive_c
              (omega
                (arith, enough, destroy_fuel-le longest (suc (rank c)) (rank b) (omega arith))) in
          let less12 = IsLess-trans g g1 g2 less1 less2 in
          let (g3, e3, linked3, less3, closed3, empty3, lives3) =
            childs_end S b g2 (settled S b c g2 linked2 empty2)
              (IsRanked-less rank longest (rank b) (rank b) g g2 ranked less12 (omega arith)) above
              (lives2 b below ∙ alive)
              (omega (arith, enough, fewer, less2.shrinks.childs_shorter b)) in
          (
            g3,
            childs_run junk fuel b c l g g2 g3 alive e e2 e3,
            linked3,
            IsLess-trans g g2 g3 less12 less3,
            IsClosed-trans g g2 g3 (IsClosed-trans g g1 g2 closed1 less2 closed2) less3 closed3,
            empty3,
            λ x higher. lives3 x higher ∙ lives2 x (omega arith),
          )
    ]
