-- ===== src/ItemList/View.antt =====
-- What an array of cells stands for: its items, in order, up to the first LIST_END.
use frozen.Base.{ℕ, ◌≡◌, refl, none, some, List, [], ◌∷◌, ◌++◌, arith, length}
use frozen.ItemList.{
  Cell, list_end, free_item, item, ItemList, at_free, at_end, find_slot, cells_of,
}

abbrev pub live : List Cell → List ℕ
live [] = []
live (list_end ∷ cells) = []
live (free_item ∷ cells) = live cells
live (item p ∷ cells) = p ∷ live cells

-- The array has a LIST_END.
abbrev pub IsEnded : List Cell → Type 0
IsEnded [] = ⊥
IsEnded (list_end ∷ cells) = Unit {0}
IsEnded (free_item ∷ cells) = IsEnded cells
IsEnded (item p ∷ cells) = IsEnded cells

-- `items` is NULL or an array with a LIST_END.
abbrev pub IsList : ItemList → Type 0
IsList l = elim l.items [ none ↦ Unit {0} | some cells ↦ IsEnded cells ]

abbrev pub view : ItemList → List ℕ
view l = live (cells_of l)

-- The cells before the first free one, all of them items.
abbrev pub items_of : List ℕ → List Cell
items_of [] = []
items_of (p ∷ ps) = item p ∷ items_of ps

pub live-items_of :
    (ps : List ℕ) (cells : List Cell) → live (items_of ps ++ cells) ≡ ps ++ live cells
live-items_of [] cells = refl
live-items_of (p ∷ ps) cells = λ i. p ∷ live-items_of ps cells i

pub IsEnded-items_of :
    (ps : List ℕ) (cells : List Cell) → IsEnded cells → IsEnded (items_of ps ++ cells)
IsEnded-items_of [] cells e = e
IsEnded-items_of (p ∷ ps) cells e = IsEnded-items_of ps cells e

-- An ended array is some items and then a free cell or the end, and `find_slot` says which.
pub data Slot : List Cell → Type 0 where
  free_slot :
      (ps : List ℕ) (rest : List Cell) {cells : List Cell}
      → cells ≡ items_of ps ++ (free_item ∷ rest)
      → IsEnded rest
      → find_slot cells ≡ some (at_free (length ps))
      → Slot cells
  end_slot :
      (ps : List ℕ) (rest : List Cell) {cells : List Cell}
      → cells ≡ items_of ps ++ (list_end ∷ rest)
      → find_slot cells ≡ some (at_end (length ps))
      → Slot cells

Slot-cons : (p : ℕ) {cells : List Cell} → Slot cells → Slot (item p ∷ cells)
unfolding find_slot
Slot-cons p (free_slot ps rest e ended f) =
    free_slot (p ∷ ps) rest (λ i. item p ∷ e i) ended (ground arith)
Slot-cons p (end_slot ps rest e f) = end_slot (p ∷ ps) rest (λ i. item p ∷ e i) (ground arith)

pub Slot-of : (cells : List Cell) → IsEnded cells → Slot cells
unfolding find_slot
Slot-of [] e = absurd e
Slot-of (list_end ∷ cells) e = end_slot [] cells refl refl
Slot-of (free_item ∷ cells) e = free_slot [] cells refl e refl
Slot-of (item p ∷ cells) e = Slot-cons p (Slot-of cells e)
