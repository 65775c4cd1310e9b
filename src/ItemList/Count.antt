-- ===== src/ItemList/Count.antt =====
-- How often an item is in a list, and what the operations of list.c do to that.
use frozen.Base.{
  ℕ, ◌+◌, ◌-◌, ◌≡◌, refl, inl, inr, none, some, List, [], ◌∷◌, ◌++◌, arith, ◌==◌, if◌then◌else◌,
  length, subst, sym, ◌≤◌, suc, Bool-cases, ap, ◌∙◌,
}
use frozen.ItemList.{Cell, item, ItemList, list_add, list_delete, list_pop}
use frozen.ItemList.View.{IsList, view}
use frozen.ItemList.Add.{list_add-Added}
use frozen.ItemList.Remove.{erase, list_delete-erase, list_pop-head, head_of, tail_of}

-- 1 for equal items.
abbrev pub hit : ℕ → ℕ → ℕ
hit p q = if p == q then 1 else 0

abbrev pub count : ℕ → List ℕ → ℕ
count q [] = 0
count q (p ∷ ps) = hit p q + count q ps

count-append : (q : ℕ) (xs ys : List ℕ) → count q (xs ++ ys) ≡ count q xs + count q ys
count-append q [] ys = omega arith
count-append q (x ∷ xs) ys = omega (arith, count-append q xs ys)

count-erase : (p q : ℕ) (xs : List ℕ) → count q (erase p xs) ≡ count q xs - hit p q
count-erase p q [] = omega arith
count-erase p q (x ∷ xs) = elim (Bool-cases (x == p)) [
  | inl same ↦ let e : x ≡ p = ground arith in rw (same, e) (omega arith)
  | inr differ ↦ rw differ (ground (arith, count-erase p q xs))
]

-- `list_add` of an item, on a list that is NULL or ended.
pub list_add-count :
    (junk : Cell) (p : ℕ) (l : ItemList)
    → IsList l
    → (l' : ItemList) × (list_add junk l (item p) ≡ some l')
      × IsList l'
      × ((q : ℕ) → count q (view l') ≡ count q (view l) + hit p q)
list_add-count junk p l h =
    let (l', e, a) = list_add-Added junk p l h in
    let i = a.inserted in
    (
      l',
      e,
      a.ended,
      λ q.
          let now : count q (view l') ≡ count q i.front + (hit p q + count q i.back) =
            ap (count q) i.now ∙ count-append q i.front (p ∷ i.back) in
          let was : count q (view l) ≡ count q i.front + count q i.back =
            ap (count q) i.was ∙ count-append q i.front i.back in
          omega (arith, now, was),
    )

length-erase : (p : ℕ) (xs : List ℕ) → length (erase p xs) ≤ length xs
length-erase p [] = omega arith
length-erase p (x ∷ xs) = elim (Bool-cases (x == p)) [
  | inl same ↦ rw same (omega arith)
  | inr differ ↦ rw differ (omega (arith, length-erase p xs))
]

-- `list_delete` of an item, on a list that is NULL or ended.
pub list_delete-count :
    (p : ℕ) (l : ItemList)
    → IsList l
    → (l' : ItemList) × (list_delete l (item p) ≡ some l')
      × IsList l'
      × ((q : ℕ) → count q (view l') ≡ count q (view l) - hit p q)
      × (length (view l') ≤ length (view l))
list_delete-count p l h =
    let (l', e, ended, v) = list_delete-erase p l h in
    (
      l',
      e,
      ended,
      λ q. ap (count q) v ∙ count-erase p q (view l),
      subst (λ t. length t ≤ length (view l)) (sym v) (length-erase p (view l)),
    )

-- `list_pop`, on a list that is NULL or ended.
pub data Popped (l : ItemList) : Type 0 where
  was_empty :
      (l' : ItemList)
      → list_pop l ≡ some (none, l')
      → IsList l'
      → ((q : ℕ) → count q (view l) ≡ 0)
      → ((q : ℕ) → count q (view l') ≡ 0)
      → length (view l') ≡ 0
      → Popped l
  took :
      (p : ℕ) (l' : ItemList)
      → list_pop l ≡ some (some p, l')
      → IsList l'
      → ((q : ℕ) → count q (view l) ≡ count q (view l') + hit p q)
      → length (view l) ≡ suc (length (view l'))
      → Popped l

pub list_pop-Popped : (l : ItemList) → IsList l → Popped l
list_pop-Popped l h = let (l', e, ended, v) = list_pop-head l h in go (view l) refl l' e ended v
  where
    go :
        (xs : List ℕ)
        → view l ≡ xs
        → (l' : ItemList) → list_pop l ≡ some (head_of (view l), l')
        → IsList l'
        → view l' ≡ tail_of (view l)
        → Popped l
    go [] same l' e ended v =
        let now : view l' ≡ [] = v ∙ ap tail_of same in
        was_empty l' (e ∙ ap (λ t. some (head_of t, l')) same) ended (λ q. ap (count q) same)
          (λ q. ap (count q) now) (ap (length {A = ℕ}) now)
    go (p ∷ ps) same l' e ended v =
        let now : view l' ≡ ps = v ∙ ap tail_of same in
        took p l' (e ∙ ap (λ t. some (head_of t, l')) same) ended
          (λ q. omega (arith, ap (count q) same, ap (count q) now))
          (omega (arith, ap (length {A = ℕ}) same, ap (length {A = ℕ}) now))
