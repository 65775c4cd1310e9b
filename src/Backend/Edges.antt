-- ===== src/Backend/Edges.antt =====
-- `backend_top`, `backend_untop`, `backend_connect` and `backend_disconnect` of core/backend.c.
use frozen.Base.{
  ℕ, ◌+◌, ◌-◌, ◌≡◌, refl, ap, ◌∙◌, Bool, true, some, List, [], ◌∷◌, arith, if◌then◌else◌,
  Bool-cases, inl, inr,
}
use frozen.ItemList.{Cell, ItemList}
use frozen.ItemList.View.{IsList, view}
use frozen.ItemList.Walk.{null, list_count-length}
use frozen.ItemList.Count.{hit, count, list_add-count, list_delete-count}
use frozen.Backend.{
  Graph, upd, ◌>>◌, on_top, on_childs, on_parents, backend_top, backend_untop, backend_connect,
  backend_disconnect,
}
use frozen.Backend.Linked.{
  child_links, parent_links, top_links, name_links, IsBuilt, hit_at, Shrinks, add_at, delete_at,
}

pub null-count : (q : ℕ) (xs : List ℕ) → null xs ≡ true → count q xs ≡ 0
null-count q [] e = refl
null-count q (x ∷ xs) e = absurd (cc e)

-- The operation leaves the backends and their names as they are.
pub record Keeps (g g' : Graph) : Type 0 where
  pub live_kept : (b : ℕ) → g'.live b ≡ g.live b
  pub name_kept : (b : ℕ) → g'.name b ≡ g.name b
  pub refs_kept : (b : ℕ) → g'.refs b ≡ g.refs b
  pub names_kept : (b : ℕ) → name_links g' b ≡ name_links g b

-- How often `q` is a root after `backend_top` of a `b` with or without parents.
abbrev pub topped : Bool → ℕ → ℕ → ℕ → ℕ
topped rootless b n q = if rootless then n - hit b q + hit b q else n

pub backend_untop-count :
    (b : ℕ) (g : Graph)
    → IsBuilt g
    → (l : ItemList) × (backend_untop b g ≡ some (record g { backends_top = l }))
      × IsList l
      × ((q : ℕ) → count q (view l) ≡ top_links g q - hit b q)
unfolding backend_untop
backend_untop-count b g h =
    let (l, e, ended, counts, _) = list_delete-count b g.backends_top h.top_ended in
    (l, rw (on_top, e), ended, counts)

pub backend_top-count :
    (junk : Cell) (b : ℕ) (g : Graph)
    → IsBuilt g
    → g.live b ≡ true
    → (l : ItemList) × (backend_top junk b g ≡ some (record g { backends_top = l }))
      × IsList l
      × ((q : ℕ) → count q (view l) ≡ topped (null (view (g.parents b))) b (top_links g q) q)
unfolding backend_top
backend_top-count junk b g h alive =
    let empty = (list_count-length (g.parents b) (h.parents_ended b)).1 in
    elim (Bool-cases (null (view (g.parents b)))) [
      | inl rootless ↦
          let (l, e, ended, counts) = backend_untop-count b g h in
          let (l', e', ended', counts') = list_add-count junk b l ended in
          (
            l',
            rw (alive, empty, rootless, ◌>>◌, e, on_top, e'),
            ended',
            λ q. rw (rootless, counts' q, counts q),
          )
      | inr parented ↦ (g.backends_top, rw (alive, empty, parented), h.top_ended, λ q. rw parented)
    ]

-- The parts of `backend_connect`, on lists that are NULL or ended: both lists get the link, `parent`
-- becomes a root if it has no parent, and `child` is none.
pub backend_connect-count :
    (junk : Cell) (p c : ℕ) (g : Graph)
    → IsBuilt g
    → g.live p ≡ true
    → g.live c ≡ true
    → (g' : Graph) × (backend_connect junk p (some c) g ≡ some g')
      × IsBuilt g'
      × Keeps g g'
      × ((x y : ℕ) → child_links g' x y ≡ child_links g x y + hit_at p c x y)
      × ((x y : ℕ) → parent_links g' x y ≡ parent_links g x y + hit_at c p x y)
      × ((q : ℕ)
          → top_links g' q ≡ topped (null (view (g.parents p))) p (top_links g q) q - hit c q)
unfolding backend_connect
backend_connect-count junk p c g h live_p live_c =
    let (cs, e1, ended1, counts1) = add_at junk g.childs p c h.childs_ended in
    let g1 = record g { childs = upd g.childs p cs } in
    let built1 : IsBuilt g1 = record {
      childs_ended = ended1;
      parents_ended = h.parents_ended;
      top_ended = h.top_ended;
      names_ended = h.names_ended;
    } in
    let (t2, e2, ended2, counts2) = backend_top-count junk p g1 built1 live_p in
    let g2 = record g1 { backends_top = t2 } in
    let built2 : IsBuilt g2 = record {
      childs_ended = ended1;
      parents_ended = h.parents_ended;
      top_ended = ended2;
      names_ended = h.names_ended;
    } in
    let (t3, e3, ended3, counts3) = backend_untop-count c g2 built2 in
    let (ps, e4, ended4, counts4) = add_at junk g.parents c p h.parents_ended in
    (
      record g2 { backends_top = t3; parents = upd g.parents c ps },
      rw (◌>>◌, on_childs, live_p, e1, e2, e3, on_parents, live_c, e4),
      record {
        childs_ended = ended1;
        parents_ended = ended4;
        top_ended = ended3;
        names_ended = h.names_ended;
      },
      record {
        live_kept = λ b. refl;
        name_kept = λ b. refl;
        refs_kept = λ b. refl;
        names_kept = λ b. refl;
      },
      counts1,
      counts4,
      λ q. omega (arith, counts3 q, counts2 q),
    )

-- The parts of `backend_disconnect`: `parent` is no root, both lists lose the link, and `child` becomes
-- a root if it has no parent left.
pub backend_disconnect-count :
    (junk : Cell) (p c : ℕ) (g : Graph)
    → IsBuilt g
    → g.live p ≡ true
    → g.live c ≡ true
    → (g' : Graph) × (backend_disconnect junk p (some c) g ≡ some g')
      × IsBuilt g'
      × Keeps g g'
      × Shrinks g g'
      × ((x y : ℕ) → child_links g' x y ≡ child_links g x y - hit_at p c x y)
      × ((x y : ℕ) → parent_links g' x y ≡ parent_links g x y - hit_at c p x y)
      × ((q : ℕ)
          → top_links g' q ≡ topped (null (view (g'.parents c))) c (top_links g q - hit p q) q)
unfolding backend_disconnect
backend_disconnect-count junk p c g h live_p live_c =
    let (t1, e1, ended1, counts1) = backend_untop-count p g h in
    let (cs, e2, ended2, counts2, shorter_cs) = delete_at g.childs p c h.childs_ended in
    let (ps, e3, ended3, counts3, shorter_ps) = delete_at g.parents c p h.parents_ended in
    let g3 = record g {
      backends_top = t1;
      childs = upd g.childs p cs;
      parents = upd g.parents c ps;
    } in
    let built3 : IsBuilt g3 = record {
      childs_ended = ended2;
      parents_ended = ended3;
      top_ended = ended1;
      names_ended = h.names_ended;
    } in
    let (t4, e4, ended4, counts4) = backend_top-count junk c g3 built3 live_c in
    (
      record g3 { backends_top = t4 },
      rw (◌>>◌, e1, on_childs, live_p, e2, on_parents, live_c, e3, e4),
      record {
        childs_ended = ended2;
        parents_ended = ended3;
        top_ended = ended4;
        names_ended = h.names_ended;
      },
      record {
        live_kept = λ b. refl;
        name_kept = λ b. refl;
        refs_kept = λ b. refl;
        names_kept = λ b. refl;
      },
      record { childs_shorter = shorter_cs; parents_shorter = shorter_ps },
      counts2,
      counts3,
      λ q. counts4 q ∙ ap (λ n. topped (null (view (g3.parents c))) c n q) (counts1 q),
    )
