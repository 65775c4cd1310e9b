-- ===== src/Backend/Linked.antt =====
-- The invariant of the graph that core/backend.c keeps, and what one list operation does to its maps.
use frozen.Base.{
  sym, ℕ, ◌+◌, ◌-◌, ◌≤◌, ◌≡◌, ap, ◌∙◌, Bool, ◌&&◌, some, arith, ◌==◌, if◌then◌else◌, Bool-cases,
  length, subst, inl, inr,
}
use frozen.ItemList.{Cell, item, ItemList, list_add, list_delete}
use frozen.ItemList.View.{IsList, view}
use frozen.ItemList.Count.{
  hit, count, list_add-count, list_delete-count, was_empty, took, list_pop-Popped,
}
use frozen.Backend.{named, suc, true, none, list_pop, Graph, upd}

-- How often `c` is a child of `p`, how often `p` is a parent of `c`, and how often an address is in
-- the list of roots and in that of the names.
abbrev pub child_links : Graph → ℕ → ℕ → ℕ
child_links g p c = count c (view (g.childs p))

abbrev pub parent_links : Graph → ℕ → ℕ → ℕ
parent_links g c p = count p (view (g.parents c))

abbrev pub top_links : Graph → ℕ → ℕ
top_links g b = count b (view g.backends_top)

abbrev pub name_links : Graph → ℕ → ℕ
name_links g b = count b (view g.backends_names)

abbrev pub one_if : Bool → ℕ
one_if t = if t then 1 else 0

-- The lists are NULL or ended.
pub record IsBuilt (g : Graph) : Type 0 where
  pub childs_ended : (b : ℕ) → IsList (g.childs b)
  pub parents_ended : (b : ℕ) → IsList (g.parents b)
  pub top_ended : IsList g.backends_top
  pub names_ended : IsList g.backends_names

-- A link is in both lists or in none, at most once, and only between backends that are not freed; a
-- root is one and has no parent; the list of names holds each backend with a name once, and no other.
pub record IsLinked (g : Graph) : Type 0 where
  pub built : IsBuilt g
  pub dual : (p c : ℕ) → child_links g p c ≡ parent_links g c p
  pub live_parent : (p c : ℕ) → child_links g p c ≤ one_if (g.live p)
  pub rooted : (b p : ℕ) → top_links g b + parent_links g b p ≤ one_if (g.live b)
  pub in_names : (b : ℕ) → name_links g b ≡ one_if (g.live b && named g b)

-- What a list operation at `b` that gives `l` does to a map of lists.
pub upd-IsList :
    (f : ℕ → ItemList) (b : ℕ) (l : ItemList)
    → ((x : ℕ) → IsList (f x))
    → IsList l
    → (x : ℕ) → IsList (upd f b l x)
upd-IsList f b l h hl x = elim (Bool-cases (b == x)) [
  | inl same ↦ rw same hl
  | inr differ ↦ rw differ (h x)
]

pub upd-length :
    (f : ℕ → ItemList) (b : ℕ) (l : ItemList)
    → length (view l) ≤ length (view (f b))
    → (x : ℕ) → length (view (upd f b l x)) ≤ length (view (f x))
upd-length f b l h x = elim (Bool-cases (b == x)) [
  | inl same ↦
      let by : b ≡ x = ground arith in
      rw same (subst (λ t. length (view l) ≤ length (view (f t))) by h)
  | inr differ ↦ rw differ (omega arith)
]

-- The lists of links get no longer.
pub record Shrinks (g g' : Graph) : Type 0 where
  pub childs_shorter : (x : ℕ) → length (view (g'.childs x)) ≤ length (view (g.childs x))
  pub parents_shorter : (x : ℕ) → length (view (g'.parents x)) ≤ length (view (g.parents x))

abbrev pub hit_at : ℕ → ℕ → ℕ → ℕ → ℕ
hit_at b x y q = if b == y then hit x q else 0

pub add_at :
    (junk : Cell) (f : ℕ → ItemList) (b x : ℕ)
    → ((y : ℕ) → IsList (f y))
    → (l : ItemList) × (list_add junk (f b) (item x) ≡ some l)
      × ((y : ℕ) → IsList (upd f b l y))
      × ((y q : ℕ) → count q (view (upd f b l y)) ≡ count q (view (f y)) + hit_at b x y q)
add_at junk f b x h =
    let (l, e, ended, counts) = list_add-count junk x (f b) (h b) in
    (
      l,
      e,
      upd-IsList f b l h ended,
      λ y q. elim (Bool-cases (b == y)) [
        | inl same ↦
            let by : b ≡ y = ground arith in
            rw same (counts q ∙ ap (λ t. count q (view (f t)) + hit x q) by)
        | inr differ ↦ rw differ (omega arith)
      ],
    )

pub delete_at :
    (f : ℕ → ItemList) (b x : ℕ)
    → ((y : ℕ) → IsList (f y))
    → (l : ItemList) × (list_delete (f b) (item x) ≡ some l)
      × ((y : ℕ) → IsList (upd f b l y))
      × ((y q : ℕ) → count q (view (upd f b l y)) ≡ count q (view (f y)) - hit_at b x y q)
      × ((y : ℕ) → length (view (upd f b l y)) ≤ length (view (f y)))
delete_at f b x h =
    let (l, e, ended, counts, shorter) = list_delete-count x (f b) (h b) in
    (
      l,
      e,
      upd-IsList f b l h ended,
      λ y q. elim (Bool-cases (b == y)) [
        | inl same ↦
            let by : b ≡ y = ground arith in
            rw same (counts q ∙ ap (λ t. count q (view (f t)) - hit x q) by)
        | inr differ ↦ rw differ (omega arith)
      ],
      upd-length f b l shorter,
    )

-- `list_pop` at `b`: no links there, or one link less.
pub data PoppedAt (f : ℕ → ItemList) (b : ℕ) : Type 0 where
  was_empty_at :
      (l : ItemList)
      → list_pop (f b) ≡ some (none, l)
      → ((y : ℕ) → IsList (upd f b l y))
      → ((q : ℕ) → count q (view (f b)) ≡ 0)
      → ((y q : ℕ) → count q (view (upd f b l y)) ≡ count q (view (f y)))
      → ((y : ℕ) → length (view (upd f b l y)) ≤ length (view (f y)))
      → PoppedAt f b
  took_at :
      (x : ℕ) (l : ItemList)
      → list_pop (f b) ≡ some (some x, l)
      → ((y : ℕ) → IsList (upd f b l y))
      → ((y q : ℕ) → count q (view (f y)) ≡ count q (view (upd f b l y)) + hit_at b x y q)
      → ((y : ℕ) → length (view (upd f b l y)) ≤ length (view (f y)))
      → suc (length (view (upd f b l b))) ≡ length (view (f b))
      → PoppedAt f b

pub pop_at : (f : ℕ → ItemList) (b : ℕ) → ((y : ℕ) → IsList (f y)) → PoppedAt f b
pop_at f b h = elim (list_pop-Popped (f b) (h b)) [
  | was_empty l e ended none_before none_after short ↦
      was_empty_at l e (upd-IsList f b l h ended) none_before
        (λ y q. elim (Bool-cases (b == y)) [
          | inl same ↦
              let by : b ≡ y = ground arith in
              rw same (none_after q ∙ sym (none_before q) ∙ ap (λ t. count q (view (f t))) by)
          | inr differ ↦ rw differ
        ])
        (upd-length f b l (omega (arith, short)))
  | took x l e ended counts short ↦
      let here : (b == b) ≡ true = ground arith in
      took_at x l e (upd-IsList f b l h ended)
        (λ y q. elim (Bool-cases (b == y)) [
          | inl same ↦
              let by : b ≡ y = ground arith in
              rw same (ap (λ t. count q (view (f t))) (sym by) ∙ counts q)
          | inr differ ↦ rw differ (omega arith)
        ])
        (upd-length f b l (omega (arith, short))) (rw here (sym short))
]
