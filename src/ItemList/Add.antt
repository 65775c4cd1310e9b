-- ===== src/ItemList/Add.antt =====
-- `list_add` and `list_push` of list.c: where the new item goes.
use mathlib.Core.List.{append_assoc, append-nil}
use frozen.Base.{
  sym, none, ◌⊎◌, inl, inr, Option, some, ℕ, suc, ◌≡◌, refl, ap, ◌∙◌, Bool, true, false, List, [],
  ◌∷◌, ◌++◌, length, set, take, drop,
}
use frozen.ItemList.{
  list_add, list_push, Cell, list_end, free_item, item, ItemList, cells_of, of_cells, realloc_cells,
  add_at_end, move_up, push_at_end,
}
use frozen.ItemList.View.{
  end_slot, free_slot, Slot-of, live, IsEnded, IsList, view, items_of, live-items_of,
  IsEnded-items_of,
}

module _ (a b : Cell) (rest : List Cell) where
  take-items :
      (ps : List ℕ) → take (suc (length ps)) (items_of ps ++ (a ∷ rest)) ≡ items_of ps ++ (a ∷ [])
  take-items [] = refl
  take-items (p ∷ ps) = λ i. item p ∷ take-items ps i

  take_two-items :
      (ps : List ℕ)
      → take (suc (suc (length ps))) (items_of ps ++ (a ∷ b ∷ rest)) ≡ items_of ps ++ (a ∷ b ∷ [])
  take_two-items [] = refl
  take_two-items (p ∷ ps) = λ i. item p ∷ take_two-items ps i

  pub set-items :
      (ps : List ℕ) → set (items_of ps ++ (a ∷ rest)) (length ps) b ≡ items_of ps ++ (b ∷ rest)
  set-items [] = refl
  set-items (p ∷ ps) = λ i. item p ∷ set-items ps i

set_next-items :
    (a b v : Cell) (rest : List Cell) (ps : List ℕ)
    → set (items_of ps ++ (a ∷ b ∷ rest)) (suc (length ps)) v ≡ items_of ps ++ (a ∷ v ∷ rest)
set_next-items a b v rest [] = refl
set_next-items a b v rest (p ∷ ps) = λ i. item p ∷ set_next-items a b v rest ps i

drop-items :
    (a b : Cell) (ps : List ℕ) → drop (suc (suc (length ps))) (items_of ps ++ (a ∷ b ∷ [])) ≡ []
drop-items a b [] = refl
drop-items a b (p ∷ ps) = drop-items a b ps

-- The enlarged array: the items, the old end and one more word.
realloc_grows :
    (junk : Cell) (ps : List ℕ) (rest : List Cell)
    → (b : Cell) × (realloc_cells junk (items_of ps ++ (list_end ∷ rest)) (suc (suc (length ps)))
        ≡ items_of ps ++ (list_end ∷ b ∷ []))
unfolding realloc_cells
realloc_grows junk ps [] =
    (junk, rw (append_assoc (items_of ps)) (take_two-items list_end junk _ ps))
realloc_grows junk ps (c ∷ rest) =
    (c, rw (append_assoc (items_of ps)) (take_two-items list_end c _ ps))

pub add_at_end-items :
    (junk : Cell) (ps : List ℕ) (rest : List Cell) (x : Cell)
    → add_at_end junk (items_of ps ++ (list_end ∷ rest)) (length ps) x
      ≡ items_of ps ++ (x ∷ list_end ∷ [])
unfolding add_at_end
add_at_end-items junk ps rest x =
    let (b, e) = realloc_grows junk ps rest in
    rw (e, set_next-items list_end b list_end [] ps) (set-items list_end x (list_end ∷ []) ps)

shift-items :
    (b x : Cell) (ps : List ℕ)
    → set
        (set
          (move_up (items_of ps ++ (list_end ∷ b ∷ [])) (suc (length ps)))
          (suc (length ps))
          list_end)
        0
        x
      ≡ x ∷ items_of ps ++ (list_end ∷ [])
unfolding move_up
shift-items b x [] = refl
shift-items b x (q ∷ qs) =
    rw (take-items list_end list_end (b ∷ []) qs, drop-items list_end b qs, append-nil)
      (ap (λ t. x ∷ item q ∷ t) (set-items list_end list_end [] qs))

push_at_end-items :
    (junk : Cell) (ps : List ℕ) (rest : List Cell) (x : Cell)
    → push_at_end junk (items_of ps ++ (list_end ∷ rest)) (length ps) x
      ≡ x ∷ items_of ps ++ (list_end ∷ [])
unfolding push_at_end
push_at_end-items junk ps rest x =
    let (b, e) = realloc_grows junk ps rest in
    ap (λ list. set (set (move_up list (suc (length ps))) (suc (length ps)) list_end) 0 x) e
    ∙ shift-items b x ps

-- The new items are the old ones with `p` put in at one place.
pub record Inserted (p : ℕ) (old new : List ℕ) : Type 0 where
  pub front : List ℕ
  pub back : List ℕ
  pub was : old ≡ front ++ back
  pub now : new ≡ front ++ (p ∷ back)

-- A free cell stands before the end.
abbrev pub has_free : List Cell → Bool
has_free [] = false
has_free (list_end ∷ cells) = false
has_free (free_item ∷ cells) = true
has_free (item p ∷ cells) = has_free cells

has_free-items_of :
    (ps : List ℕ) (cells : List Cell) → has_free (items_of ps ++ cells) ≡ has_free cells
has_free-items_of [] cells = refl
has_free-items_of (p ∷ ps) cells = has_free-items_of ps cells

-- What an added item does to the list: the array stays ended, the item is put in at one place, and
-- with no free cell it is put in where `end` says.
pub record Added (end : List ℕ) (p : ℕ) (l l' : ItemList) : Type 0 where
  pub ended : IsList l'
  pub inserted : Inserted p (view l) (view l')
  pub at_the_end : (has_free (cells_of l) ≡ true) ⊎ (view l' ≡ end)

reuse-Added :
    (end : List ℕ) (p : ℕ) (ps : List ℕ) (rest : List Cell)
    → IsEnded rest
    → Added end p
        (of_cells (items_of ps ++ (free_item ∷ rest)))
        (of_cells (items_of ps ++ (item p ∷ rest)))
reuse-Added end p ps rest e = record {
  ended = IsEnded-items_of ps (item p ∷ rest) e;
  inserted = record {
    front = ps;
    back = live rest;
    was = live-items_of ps (free_item ∷ rest);
    now = live-items_of ps (item p ∷ rest);
  };
  at_the_end = inl (has_free-items_of ps (free_item ∷ rest));
}

null-Added :
    (p : ℕ) → Added (p ∷ []) p (record { items = none }) (of_cells (item p ∷ list_end ∷ []))
null-Added p = record {
  ended = tt;
  inserted = record { front = []; back = []; was = refl; now = refl };
  at_the_end = inr refl;
}

add_cells :
    (junk : Cell) (p : ℕ) (cells : List Cell)
    → IsEnded cells
    → (l' : ItemList) × (list_add junk (of_cells cells) (item p) ≡ some l')
      × Added (live cells ++ (p ∷ [])) p (of_cells cells) l'
unfolding list_add
add_cells junk p cells e = elim (Slot-of cells e) [
  | free_slot ps rest split ended found ↦ (
    of_cells (set cells (length ps) (item p)),
    rw (found, list_add),
    rw (split, set-items free_item (item p) rest ps) (reuse-Added _ p ps rest ended),
  )
  | end_slot ps rest split found ↦ (
    of_cells (add_at_end junk cells (length ps) (item p)),
    rw (found, list_add),
    rw (split, add_at_end-items junk ps rest (item p))
        (record {
          ended = IsEnded-items_of ps (item p ∷ list_end ∷ []) tt;
          inserted = record {
            front = ps;
            back = [];
            was = live-items_of ps (list_end ∷ rest);
            now = live-items_of ps (item p ∷ list_end ∷ []);
          };
          at_the_end = inr (
              live-items_of ps (item p ∷ list_end ∷ [])
              ∙ ap (λ t. t ++ (p ∷ [])) (sym (live-items_of ps (list_end ∷ rest) ∙ append-nil ps)));
        }),
  )
]

push_cells :
    (junk : Cell) (p : ℕ) (cells : List Cell)
    → IsEnded cells
    → (l' : ItemList) × (list_push junk (of_cells cells) (item p) ≡ some l')
      × Added (p ∷ live cells) p (of_cells cells) l'
unfolding list_push
push_cells junk p cells e = elim (Slot-of cells e) [
  | free_slot ps rest split ended found ↦ (
    of_cells (set cells (length ps) (item p)),
    rw (found, list_push),
    rw (split, set-items free_item (item p) rest ps) (reuse-Added _ p ps rest ended),
  )
  | end_slot ps rest split found ↦ (
    of_cells (push_at_end junk cells (length ps) (item p)),
    rw (found, list_push),
    rw (split, push_at_end-items junk ps rest (item p))
        (record {
          ended = IsEnded-items_of ps (list_end ∷ []) tt;
          inserted = record {
            front = [];
            back = ps;
            was = live-items_of ps (list_end ∷ rest) ∙ append-nil ps;
            now = ap (λ t. p ∷ t) (live-items_of ps (list_end ∷ []) ∙ append-nil ps);
          };
          at_the_end = inr (
              ap (λ t. p ∷ t)
                (live-items_of ps (list_end ∷ []) ∙ sym (live-items_of ps (list_end ∷ rest))));
        }),
  )
]

-- On a list that is NULL or ended, `list_add` succeeds whatever the enlarged array holds, keeps the
-- list ended, puts the item in at one place and keeps the order of the others; with no free cell it
-- is the last item.
pub list_add-Added :
    (junk : Cell) (p : ℕ) (l : ItemList)
    → IsList l
    → (l' : ItemList) × (list_add junk l (item p) ≡ some l') × Added (view l ++ (p ∷ [])) p l l'
unfolding list_add
list_add-Added junk p l = go l.items
  where
    go :
        (items : Option (List Cell))
        → let l : ItemList = record { items = items } in
          IsList l
          → (l' : ItemList) × (list_add junk l (item p) ≡ some l')
            × Added (view l ++ (p ∷ [])) p l l'
    go none h = (_, refl, null-Added p)
    go (some cells) h = add_cells junk p cells h

-- On a list that is NULL or ended, `list_push` succeeds whatever the enlarged array holds, keeps the
-- list ended, puts the item in at one place and keeps the order of the others; with no free cell it
-- is the first item.
pub list_push-Added :
    (junk : Cell) (p : ℕ) (l : ItemList)
    → IsList l
    → (l' : ItemList) × (list_push junk l (item p) ≡ some l') × Added (p ∷ view l) p l l'
unfolding list_push
list_push-Added junk p l = go l.items
  where
    go :
        (items : Option (List Cell))
        → let l : ItemList = record { items = items } in
          IsList l
          → (l' : ItemList) × (list_push junk l (item p) ≡ some l') × Added (p ∷ view l) p l l'
    go none h = (_, refl, null-Added p)
    go (some cells) h = push_cells junk p cells h
