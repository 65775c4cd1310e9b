-- ===== src/Backend/Lifetime.antt =====
-- How core/backend.c makes a backend: `backend_clone` and `backend_new_skeleton`.
use frozen.Base.{
  ap, ap, ℕ, ◌+◌, ◌≤◌, ◌≡◌, refl, sym, ◌∙◌, Bool, true, false, ◌&&◌, none, some, arith, ◌==◌,
  if◌then◌else◌,
}
use frozen.ItemList.{Cell, item, ItemList, list_init}
use frozen.ItemList.View.{IsList, view}
use frozen.ItemList.Count.{hit, count, list_add-count}
use frozen.Backend.{
  is_some, named, List, Option, list_add, Graph, upd, ◌>>◌, on_names, backend_new_skeleton,
}
use frozen.Backend.Linked.{child_links, parent_links, name_links, one_if, IsLinked, upd-IsList}
use frozen.Backend.Free.{at_same, emptied}

-- A new backend: no links, one reference, a name if it has one; the others are as they were.
pub record IsNew (b : ℕ) (name : Option (List ℕ)) (g g' : Graph) : Type 0 where
  pub new_live : (x : ℕ) → g'.live x ≡ upd g.live b true x
  pub new_name : (x : ℕ) → g'.name x ≡ upd g.name b name x
  pub new_refs : (x : ℕ) → g'.refs x ≡ upd g.refs b 1 x
  pub new_links : (x y : ℕ) → child_links g' x y ≡ child_links g x y

-- No links at an address without a backend.
pub child_links-freed :
    (g : Graph) → IsLinked g → (b : ℕ) → g.live b ≡ false → (y : ℕ) → child_links g b y ≡ 0
child_links-freed g h b dead y =
    let e : one_if (g.live b) ≡ 0 = rw dead in omega (arith, h.live_parent b y, e)

pub parent_links-freed :
    (g : Graph) → IsLinked g → (b : ℕ) → g.live b ≡ false → (y : ℕ) → parent_links g b y ≡ 0
parent_links-freed g h b dead y =
    let e : one_if (g.live b) ≡ 0 = rw dead in omega (arith, h.rooted b y, e)

add_name :
    (junk : Cell) (b : ℕ) (name : Bool) (g : Graph)
    → IsList g.backends_names
    → (l : ItemList) × ((if name then on_names (λ l. list_add junk l (item b)) g else some g)
        ≡ some (record g { backends_names = l }))
      × IsList l
      × ((q : ℕ) → count q (view l) ≡ name_links g q + (if name then hit b q else 0))
add_name junk b true g h =
    let (l, e, ended, counts) = list_add-count junk b g.backends_names h in
    (l, rw (on_names, e), ended, counts)
add_name junk b false g h = (g.backends_names, refl, h, λ q. omega arith)

-- One more name, or one less, at the address `same` says to be this one.
pub named_one :
    (same name live named : Bool) (n : ℕ)
    → n ≡ one_if (live && named)
    → (same ≡ true → live ≡ false)
    → n + (if name then one_if same else 0)
      ≡ one_if ((if same then true else live) && (if same then name else named))
named_one true name live named n h dead = let d = dead refl in ground arith
named_one false name live named n h dead = ground arith

one_if-upd : (g : Graph) (b x : ℕ) → one_if (g.live x) ≤ one_if (upd g.live b true x)
one_if-upd g b x = ground arith

-- `backend_new_skeleton` at an address that `malloc` can return ends, and the graph stays linked.
is_some-if :
    (t : Bool) (a b : Option (List ℕ))
    → is_some (if t then a else b) ≡ (if t then is_some a else is_some b)
is_some-if true a b = refl
is_some-if false a b = refl

pub backend_new_skeleton-IsLinked :
    (junk : Cell) (b : ℕ) (name : Option (List ℕ)) (g : Graph)
    → IsLinked g
    → g.live b ≡ false
    → (g' : Graph) × (backend_new_skeleton junk b name g ≡ some g')
      × IsLinked g'
      × IsNew b name g g'
unfolding backend_new_skeleton list_init
backend_new_skeleton-IsLinked junk b name g h dead =
    let nil : ItemList = record { items = none } in
    let g1 : Graph = record g {
      live = upd g.live b true;
      name = upd g.name b name;
      refs = upd g.refs b 1;
      parents = upd g.parents b nil;
      childs = upd g.childs b nil;
    } in
    let (l, e, ended, counts) = add_name junk b (is_some name) g1 h.built.names_ended in
    let childs = emptied g.childs b (child_links-freed g h b dead) in
    let parents = emptied g.parents b (parent_links-freed g h b dead) in
    (
      record g1 { backends_names = l },
      rw (◌>>◌, e),
      record {
        built = record {
          childs_ended = upd-IsList g.childs b nil h.built.childs_ended tt;
          parents_ended = upd-IsList g.parents b nil h.built.parents_ended tt;
          top_ended = h.built.top_ended;
          names_ended = ended;
        };
        dual = λ x y. childs x y ∙ h.dual x y ∙ sym (parents y x);
        live_parent = λ x y. omega (arith, childs x y, h.live_parent x y, one_if-upd g b x);
        rooted = λ x y. omega (arith, parents x y, h.rooted x y, one_if-upd g b x);
        in_names = λ x.
            counts x
            ∙ named_one (b == x) (is_some name) (g.live x) (named g x) _ (h.in_names x)
                (λ e. sym (at_same g.live b x e) ∙ dead)
            ∙ ap (λ t. one_if (upd g.live b true x && t))
                (sym (is_some-if (b == x) name (g.name x)));
      },
      record {
        new_live = λ x. refl;
        new_name = λ x. refl;
        new_refs = λ x. refl;
        new_links = childs;
      },
    )
