-- ===== src/Backend/Chains.antt =====
-- A step of `backend_new` in core/backend.c: a new backend with a child or LIST_FREE_ITEM below it.
use frozen.Base.{
  ℕ, ◌+◌, ◌-◌, ◌≤◌, ◌≡◌, refl, ap, ◌∙◌, true, Bool-cases, inl, inr, Option, none, some, ◌==◌, arith,
}
use frozen.ItemList.{Cell, ItemList}
use frozen.ItemList.View.{IsList, view}
use frozen.ItemList.Count.{count}
use frozen.ItemList.FreeItem.{list_add-free, list_delete-free}
use frozen.Backend.{Graph, upd, ◌>>◌, on_childs, backend_connect, backend_disconnect}
use frozen.Backend.Linked.{
  child_links, parent_links, top_links, one_if, IsLinked, hit_at, upd-IsList,
}
use frozen.Backend.Edges.{Keeps, backend_top-count, backend_untop-count}
use frozen.Backend.Connect.{topped-le, backend_connect-IsLinked, backend_disconnect-IsLinked}

-- The links that a backend has to what it is connected to; LIST_FREE_ITEM gives none.
abbrev pub links_to : ℕ → Option ℕ → ℕ → ℕ → ℕ
links_to b none x y = 0
links_to b (some c) x y = hit_at b c x y

-- Items that stay the same at `b`.
same_at :
    (f : ℕ → ItemList) (b : ℕ) (l : ItemList)
    → view l ≡ view (f b)
    → (x y : ℕ) → count y (view (upd f b l x)) ≡ count y (view (f x))
same_at f b l same x y = elim (Bool-cases (b == x)) [
  | inr other ↦ rw other
  | inl here ↦
      let e : b ≡ x = ground arith in rw here (ap (count y) same ∙ ap (λ t. count y (view (f t))) e)
]

-- A graph whose childs and roots are others, with the same links and with roots that have no parent.
relinked :
    (g : Graph) (b : ℕ) (l t : ItemList)
    → IsLinked g
    → IsList l
    → view l ≡ view (g.childs b)
    → IsList t
    → ((x q : ℕ) → count x (view t) + parent_links g x q ≤ one_if (g.live x))
    → IsLinked (record g { childs = upd g.childs b l; backends_top = t })
relinked g b l t h ended same ended_t rooted = record {
  built = record {
    childs_ended = upd-IsList g.childs b l h.built.childs_ended ended;
    parents_ended = h.built.parents_ended;
    top_ended = ended_t;
    names_ended = h.built.names_ended;
  };
  dual = λ x y. same_at g.childs b l same x y ∙ h.dual x y;
  live_parent = λ x y. omega (arith, same_at g.childs b l same x y, h.live_parent x y);
  rooted = rooted;
  in_names = h.in_names;
}

connect_free :
    (junk : Cell) (b : ℕ) (g : Graph)
    → IsLinked g
    → g.live b ≡ true
    → (g' : Graph) × (backend_connect junk b none g ≡ some g')
      × IsLinked g'
      × Keeps g g'
      × ((x y : ℕ) → child_links g' x y ≡ child_links g x y)
unfolding backend_connect
connect_free junk b g h alive =
    let (l, e1, ended, same) = list_add-free junk (g.childs b) (h.built.childs_ended b) in
    let g1 = record g { childs = upd g.childs b l } in
    let linked1 : IsLinked g1 =
      relinked g b l g.backends_top h ended same h.built.top_ended h.rooted in
    let (t, e2, ended_t, tops) = backend_top-count junk b g1 linked1.built alive in
    (
      record g1 { backends_top = t },
      rw (◌>>◌, on_childs, alive, e1, e2),
      relinked g b l t h ended same ended_t
          (λ x q. omega (arith, tops x, topped-le g b (top_links g) alive h.rooted x q)),
      record {
        live_kept = λ x. refl;
        name_kept = λ x. refl;
        refs_kept = λ x. refl;
        names_kept = λ x. refl;
      },
      same_at g.childs b l same,
    )

disconnect_free :
    (junk : Cell) (b : ℕ) (g : Graph)
    → IsLinked g
    → g.live b ≡ true
    → (g' : Graph) × (backend_disconnect junk b none g ≡ some g')
      × IsLinked g'
      × Keeps g g'
      × ((x y : ℕ) → child_links g' x y ≡ child_links g x y)
unfolding backend_disconnect
disconnect_free junk b g h alive =
    let (t, e1, ended_t, tops) = backend_untop-count b g h.built in
    let (l, e2, ended, same) = list_delete-free (g.childs b) (h.built.childs_ended b) in
    (
      record g { backends_top = t; childs = upd g.childs b l },
      rw (◌>>◌, e1, on_childs, alive, e2),
      relinked g b l t h ended same ended_t (λ x q. omega (arith, tops x, h.rooted x q)),
      record {
        live_kept = λ x. refl;
        name_kept = λ x. refl;
        refs_kept = λ x. refl;
        names_kept = λ x. refl;
      },
      same_at g.childs b l same,
    )

-- Both, for a child that may be LIST_FREE_ITEM.
pub connect_any :
    (junk : Cell) (b : ℕ) (prev : Option ℕ) (g : Graph)
    → IsLinked g
    → g.live b ≡ true
    → ((c : ℕ) → prev ≡ some c → g.live c ≡ true)
    → ((c : ℕ) → child_links g b c ≡ 0)
    → (g' : Graph) × (backend_connect junk b prev g ≡ some g')
      × IsLinked g'
      × Keeps g g'
      × ((x y : ℕ) → child_links g' x y ≡ child_links g x y + links_to b prev x y)
connect_any junk b none g h alive prev_live fresh =
    let (g', e, linked, kept, same) = connect_free junk b g h alive in
    (g', e, linked, kept, λ x y. omega (arith, same x y))
connect_any junk b (some c) g h alive prev_live fresh =
    backend_connect-IsLinked junk b c g h alive (prev_live c refl) (fresh c)

pub disconnect_any :
    (junk : Cell) (b : ℕ) (prev : Option ℕ) (g : Graph)
    → IsLinked g
    → g.live b ≡ true
    → ((c : ℕ) → prev ≡ some c → g.live c ≡ true)
    → (g' : Graph) × (backend_disconnect junk b prev g ≡ some g')
      × IsLinked g'
      × Keeps g g'
      × ((x y : ℕ) → child_links g' x y ≡ child_links g x y - links_to b prev x y)
disconnect_any junk b none g h alive prev_live =
    let (g', e, linked, kept, same) = disconnect_free junk b g h alive in
    (g', e, linked, kept, λ x y. omega (arith, same x y))
disconnect_any junk b (some c) g h alive prev_live =
    backend_disconnect-IsLinked junk b c g h alive (prev_live c refl)
