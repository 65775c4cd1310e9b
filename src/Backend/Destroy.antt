-- ===== src/Backend/Destroy.antt =====
-- `backend_destroy` of core/backend.c ends and keeps the graph linked.
use frozen.Backend.Childs.{childs_step}
use frozen.Base.{refl}
use frozen.Base.{ℕ, zero, suc, ◌≤◌, ◌<◌, ◌≡◌, true, false, some, arith}
use frozen.ItemList.{Cell}
use frozen.Backend.{Graph, backend_destroy}
use frozen.Backend.Linked.{IsLinked}
use frozen.Backend.Upto.{
  IsLinkedUpto-IsLinked, IsLinked-IsLinkedUpto, IsLess, IsClosed, IsLinked-IsLinkedUpto,
  IsLinkedUpto-IsLinked, IsRanked,
}
use frozen.Backend.Teardown.{destroy_fuel, DestroyEnds, ChildsEnd, destroy_step}

destroy_ends :
    (junk : Cell) (rank : ℕ → ℕ) (longest fuel : ℕ)
    → DestroyEnds junk rank longest fuel × ChildsEnd junk rank longest fuel
destroy_ends junk rank longest zero = (
  λ S b g h ranked above alive enough. absurd (omega arith),
  λ S b g h ranked above alive enough. absurd (omega arith),
)
destroy_ends junk rank longest (suc fuel) =
    let (destroys, childs) = destroy_ends junk rank longest fuel in
    (destroy_step junk rank longest fuel childs, childs_step junk rank longest fuel destroys childs)

-- `backend_destroy` of a backend that is not freed, in a linked graph without cycles, where it and each
-- backend that ranks below it have one reference, ends with `destroy_fuel` for its rank: the backend is
-- freed, the graph stays linked, no backend or link is new, those that stay keep their references
-- and their links, the childs of each one that goes go too, and each backend of a higher rank stays.
pub backend_destroy-IsLinked :
    (junk : Cell) (rank : ℕ → ℕ) (longest fuel b : ℕ) (g : Graph)
    → IsLinked g
    → IsRanked rank longest (suc (rank b)) g
    → g.live b ≡ true
    → destroy_fuel longest (suc (rank b)) ≤ fuel
    → (g' : Graph) × (backend_destroy junk fuel b g ≡ some g')
      × IsLinked g'
      × IsLess g g'
      × IsClosed g g'
      × (g'.live b ≡ false)
      × ((x : ℕ) → rank b < rank x → g'.live x ≡ g.live x)
backend_destroy-IsLinked junk rank longest fuel b g h ranked alive enough =
    let (g', e, linked, less, closed, dead, _, lives) =
      (destroy_ends junk rank longest fuel).0 (λ p c. 0) b g (IsLinked-IsLinkedUpto g h) ranked
        (λ x y le i. 0) alive enough in
    (g', e, IsLinkedUpto-IsLinked _ g' linked (λ p c. refl), less, closed, dead, lives)
