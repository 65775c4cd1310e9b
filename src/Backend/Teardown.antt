-- ===== src/Backend/Teardown.antt =====
-- One round of `backend_destroy` of core/backend.c, on fuel, given what its loop over the childs does.
use frozen.Base.{◌==◌}
use frozen.Base.{if◌then◌else◌}
use frozen.Base.{
  ℕ, zero, suc, ◌+◌, ◌≤◌, ◌<◌, ◌≡◌, ap, ◌∙◌, true, false, some, arith, length, ◌==◌, sub64,
}
use frozen.ItemList.{Cell}
use frozen.ItemList.View.{view}
use frozen.Backend.{
  Graph, upd, ◌>>◌, backend_destroy, destroy_childs, drop_parents, backend_free_skeleton,
}
use frozen.Backend.Linked.{child_links, parent_links}
use frozen.Backend.Upto.{IsLinkedUpto, IsLess, IsLess-trans, IsClosed, IsClosed-trans, IsRanked}
use frozen.Backend.Free.{backend_free_skeleton-IsLinkedUpto}
use frozen.Backend.Drop.{drop_parents-IsLinkedUpto}
use frozen.Backend.Reference.{
  refs-IsLinkedUpto, refs-IsRanked, freed-IsLess, refs-IsClosed, freed-IsClosed, upd_other,
}

-- Fuel for the backends that rank below `n`.
abbrev pub destroy_fuel : ℕ → ℕ → ℕ
destroy_fuel longest zero = 0
destroy_fuel longest (suc n) = destroy_fuel longest n + longest + 2

pub destroy_fuel-le : (longest n m : ℕ) → n ≤ m → destroy_fuel longest n ≤ destroy_fuel longest m
destroy_fuel-le longest zero m h = omega arith
destroy_fuel-le longest (suc n) zero h = absurd (omega arith)
destroy_fuel-le longest (suc n) (suc m) h = omega (arith, destroy_fuel-le longest n m (omega arith))

-- No link of a backend that ranks `n` or lower is an exception.
abbrev pub IsAbove : (ℕ → ℕ) → ℕ → (ℕ → ℕ → ℕ) → Type 0
IsAbove rank n S = (x y : ℕ) → rank x ≤ n → S x y ≡ 0

-- What `backend_destroy` does with so much fuel.
abbrev pub DestroyEnds : Cell → (ℕ → ℕ) → ℕ → ℕ → Type 0
DestroyEnds junk rank longest fuel =
    (S : ℕ → ℕ → ℕ) (b : ℕ) (g : Graph)
    → IsLinkedUpto S g
    → IsRanked rank longest (suc (rank b)) g
    → IsAbove rank (rank b) S
    → g.live b ≡ true
    → destroy_fuel longest (suc (rank b)) ≤ fuel
    → (g' : Graph) × (backend_destroy junk fuel b g ≡ some g')
      × IsLinkedUpto S g'
      × IsLess g g'
      × IsClosed g g'
      × (g'.live b ≡ false)
      × ((y : ℕ) → parent_links g' b y ≡ 0)
      × ((x : ℕ) → rank b < rank x → g'.live x ≡ g.live x)

-- What the loop over the childs does with so much fuel.
abbrev pub ChildsEnd : Cell → (ℕ → ℕ) → ℕ → ℕ → Type 0
ChildsEnd junk rank longest fuel =
    (S : ℕ → ℕ → ℕ) (b : ℕ) (g : Graph)
    → IsLinkedUpto S g
    → IsRanked rank longest (rank b) g
    → IsAbove rank (rank b) S
    → g.live b ≡ true
    → length (view (g.childs b)) + destroy_fuel longest (rank b) < fuel
    → (g' : Graph) × (destroy_childs junk fuel b g ≡ some g')
      × IsLinkedUpto S g'
      × IsLess g g'
      × IsClosed g g'
      × ((y : ℕ) → child_links g' b y ≡ 0)
      × ((x : ℕ) → rank b ≤ rank x → g'.live x ≡ g.live x)

destroy_run :
    (junk : Cell) (fuel b : ℕ) (g g2 g3 g4 : Graph)
    → g.live b ≡ true
    → g.refs b ≡ 1
    → destroy_childs junk fuel b (record g { refs = upd g.refs b 0 }) ≡ some g2
    → drop_parents junk fuel b g2 ≡ some g3
    → backend_free_skeleton b g3 ≡ some g4
    → backend_destroy junk (suc fuel) b g ≡ some g4
unfolding backend_destroy
destroy_run junk fuel b g g2 g3 g4 alive one e2 e3 e4 =
    let zeroed : sub64 (g.refs b) 1 ≡ 0 = rw one in rw (alive, zeroed, ◌>>◌, e2, e3, e4)

pub destroy_step :
    (junk : Cell) (rank : ℕ → ℕ) (longest fuel : ℕ)
    → ChildsEnd junk rank longest fuel
    → DestroyEnds junk rank longest (suc fuel)
destroy_step junk rank longest fuel childs_end S b g h ranked above alive enough =
    let here : (b == b) ≡ true = ground arith in
    let g1 : Graph = record g { refs = upd g.refs b 0 } in
    let (g2, e2, linked2, less2, closed2, empty2, lives2) =
      childs_end S b g1 (refs-IsLinkedUpto S g (upd g.refs b 0) h)
        (refs-IsRanked rank longest b g ranked) above alive
        (omega (arith, enough, ranked.short_childs b)) in
    let alive2 : g2.live b ≡ true = lives2 b (omega arith) ∙ alive in
    let (g3, e3, linked3, less3, lives3, empty3, kept3) =
      drop_parents-IsLinkedUpto junk S fuel b g2 linked2 alive2
        (omega (arith, enough, ranked.short_parents b, less2.shrinks.parents_shorter b)) in
    let (g4, e4, linked4, less4, lives4, childs4, parents4) =
      backend_free_skeleton-IsLinkedUpto S b g3 linked3 (lives3 b ∙ alive2)
        (λ y. omega (arith, empty2 y, less3.less_childs b y)) empty3
        (λ y. above b y (omega arith)) in
    let lives : (x : ℕ) → g4.live x ≡ upd g2.live b false x =
      λ x. lives4 x ∙ ap (λ t. if b == x then false else t) (lives3 x) in
    let closed =
      freed-IsClosed b g2 g4 lives (λ y x other. parents4 y x ∙ kept3 y x other)
        (λ y. omega (arith, linked2.parent-child b y, empty2 y, above b y (omega arith))) in
    let dead : g4.live b ≡ false = lives4 b ∙ rw here in
    (
      g4,
      destroy_run junk fuel b g g2 g3 g4 alive (ranked.one_ref b alive (omega arith)) e2 e3 e4,
      linked4,
      freed-IsLess b g g4 dead (IsLess-trans g1 g2 g4 less2 (IsLess-trans g2 g3 g4 less3 less4)),
      IsClosed-trans g g2 g4 (refs-IsClosed b g g2 closed2) (IsLess-trans g2 g3 g4 less3 less4)
          closed,
      dead,
      λ y. parents4 b y ∙ empty3 y,
      λ x higher.
          lives4 x
          ∙ upd_other g3.live b false x (λ e.
            let same : b ≡ x = ground arith in
            let r = ap rank same in absurd (omega (arith, r, higher)))
          ∙ lives3 x
          ∙ lives2 x (omega arith),
    )
