-- ===== src/Backend/Drop.antt =====
-- The loop of `backend_destroy` in core/backend.c that takes a backend out of its parents.
use frozen.Base.{◌==◌}
use frozen.Base.{ℕ, zero, suc, ◌+◌, ◌-◌, ◌<◌, ◌≡◌, refl, sym, ◌∙◌, true, some, arith, length}
use frozen.ItemList.{Cell}
use frozen.ItemList.View.{view}
use frozen.ItemList.Count.{hit}
use frozen.Backend.{false, Graph, upd, ◌>>◌, backend_disconnect, drop_parents}
use frozen.Backend.Linked.{
  child_links, parent_links, top_links, hit_at, IsBuilt, Shrinks, pop_at, was_empty_at, took_at,
}
use frozen.Backend.Edges.{Keeps, backend_disconnect-count}
use frozen.Backend.Connect.{one_if-le, one_if-true, topped-le, hit_at-swap, in_names_kept}
use frozen.Backend.Upto.{IsLinkedUpto, IsLess, IsLess-trans}

-- A parent that was just popped off `b`'s list, and the `backend_disconnect` from it.
drop_parent :
    (junk : Cell) (S : ℕ → ℕ → ℕ) (b p : ℕ) (g g1 : Graph)
    → IsLinkedUpto S g
    → g.live b ≡ true
    → IsBuilt g1
    → Keeps g g1
    → Shrinks g g1
    → ((x y : ℕ) → child_links g1 x y ≡ child_links g x y)
    → ((x y : ℕ) → parent_links g x y ≡ parent_links g1 x y + hit_at b p x y)
    → ((x : ℕ) → top_links g1 x ≡ top_links g x)
    → (g' : Graph) × (backend_disconnect junk p (some b) g1 ≡ some g')
      × IsLinkedUpto S g'
      × IsLess g g'
      × ((x : ℕ) → g'.live x ≡ g.live x)
      × Shrinks g1 g'
      × ((y x : ℕ) → (b == y) ≡ false → parent_links g' y x ≡ parent_links g y x)
drop_parent junk S b p g g1 h alive built1 kept1 shrinks1 childs1 parents1 tops1 =
    let here : hit_at b p b p ≡ 1 = ground arith in
    let live_p : g.live p ≡ true =
      one_if-true (g.live p) (omega (arith, h.live_parent p b, parents1 b p, here)) in
    let (g', e, built, kept, shrinks, childs, parents, tops) =
      backend_disconnect-count junk p b g1 built1 (kept1.live_kept p ∙ live_p)
        (kept1.live_kept b ∙ alive) in
    let lives : (x : ℕ) → g'.live x ≡ g.live x = λ x. kept.live_kept x ∙ kept1.live_kept x in
    (
      g',
      e,
      record {
        built = built;
        child-parent = λ x y. omega (
          arith,
          childs x y,
          childs1 x y,
          parents y x,
          parents1 y x,
          h.child-parent x y,
          hit_at-swap p b x y,
          h.rooted y x,
          one_if-le (g.live y),
        );
        parent-child = λ x y. omega (
          arith,
          childs x y,
          childs1 x y,
          parents y x,
          parents1 y x,
          h.parent-child x y,
          hit_at-swap p b x y,
          h.rooted y x,
          one_if-le (g.live y),
          h.child-parent x y,
        );
        live_parent =
            λ x y. rw (lives x) (omega (arith, parents y x, parents1 y x, h.live_parent x y));
        rooted = λ x y.
            let bound =
              topped-le g' b (λ t. top_links g1 t - hit p t) (lives b ∙ alive)
                (λ t r.
                  rw (lives t) (omega (arith, h.rooted t r, parents t r, parents1 t r, tops1 t)))
                x y in
            omega (arith, bound, tops x);
        in_names = in_names_kept g1 g' (in_names_kept g g1 h.in_names kept1) kept;
      },
      record {
        less_live = λ x e. sym (lives x) ∙ e;
        same_refs = λ x e. kept.refs_kept x ∙ kept1.refs_kept x;
        less_childs = λ x y. omega (arith, childs x y, childs1 x y);
        less_parents = λ x y. omega (arith, parents x y, parents1 x y);
        shrinks = record {
          childs_shorter = λ x. omega (arith, shrinks1.childs_shorter x, shrinks.childs_shorter x);
          parents_shorter =
              λ x. omega (arith, shrinks1.parents_shorter x, shrinks.parents_shorter x);
        };
      },
      lives,
      shrinks,
      λ y x other.
          let off : hit_at b p y x ≡ 0 = rw other in omega (arith, off, parents y x, parents1 y x),
    )

-- The loop ends, with more fuel than parents; then `b` has no parents.
pub drop_parents-IsLinkedUpto :
    (junk : Cell) (S : ℕ → ℕ → ℕ) (fuel b : ℕ) (g : Graph)
    → IsLinkedUpto S g
    → g.live b ≡ true
    → length (view (g.parents b)) < fuel
    → (g' : Graph) × (drop_parents junk fuel b g ≡ some g')
      × IsLinkedUpto S g'
      × IsLess g g'
      × ((x : ℕ) → g'.live x ≡ g.live x)
      × ((y : ℕ) → parent_links g' b y ≡ 0)
      × ((y x : ℕ) → (b == y) ≡ false → parent_links g' y x ≡ parent_links g y x)
unfolding drop_parents
drop_parents-IsLinkedUpto junk S zero b g h alive enough = absurd (omega arith)
drop_parents-IsLinkedUpto junk S (suc fuel) b g h alive enough =
    elim (pop_at g.parents b h.built.parents_ended) [
      | was_empty_at l e ended none_left same shorter ↦ (
        record g { parents = upd g.parents b l },
        rw (alive, e),
        record {
          built = record {
            childs_ended = h.built.childs_ended;
            parents_ended = ended;
            top_ended = h.built.top_ended;
            names_ended = h.built.names_ended;
          };
          child-parent = λ x y. omega (arith, h.child-parent x y, same y x);
          parent-child = λ x y. omega (arith, h.parent-child x y, same y x);
          live_parent = λ x y. omega (arith, h.live_parent x y, same y x);
          rooted = λ x y. omega (arith, h.rooted x y, same x y);
          in_names = h.in_names;
        },
        record {
          less_live = λ x e. e;
          same_refs = λ x e. refl;
          less_childs = λ x y. omega arith;
          less_parents = λ x y. omega (arith, same x y);
          shrinks = record { childs_shorter = λ x. omega arith; parents_shorter = shorter };
        },
        λ x. refl,
        λ y. same b y ∙ none_left y,
        λ y x other. same y x,
      )
      | took_at p l e ended counts shorter fewer ↦
          let g1 : Graph = record g { parents = upd g.parents b l } in
          let (g2, e2, linked2, less2, lives2, shrinks2, kept2) =
            drop_parent junk S b p g g1 h alive
              (record {
                childs_ended = h.built.childs_ended;
                parents_ended = ended;
                top_ended = h.built.top_ended;
                names_ended = h.built.names_ended;
              })
              (record {
                live_kept = λ x. refl;
                name_kept = λ x. refl;
                refs_kept = λ x. refl;
                names_kept = λ x. refl;
              })
              (record { childs_shorter = λ x. omega arith; parents_shorter = shorter })
              (λ x y. refl) counts (λ x. refl) in
          let (g3, e3, linked3, less3, lives3, gone3, kept3) =
            drop_parents-IsLinkedUpto junk S fuel b g2 linked2 (lives2 b ∙ alive)
              (omega (arith, enough, fewer, shrinks2.parents_shorter b)) in
          (
            g3,
            rw (alive, e, ◌>>◌, e2, e3),
            linked3,
            IsLess-trans g g2 g3 less2 less3,
            λ x. lives3 x ∙ lives2 x,
            gone3,
            λ y x other. kept3 y x other ∙ kept2 y x other,
          )
    ]
