-- ===== src/Backend/Make.antt =====
-- A backend that `backend_new` of core/backend.c makes, or takes back.
use frozen.Base.{
  ℕ, ◌+◌, ◌≡◌, refl, sym, ap, ◌∙◌, Bool, true, false, Bool-cases, inl, inr, Option, none, some,
  List, ◌==◌, ◌&&◌, if◌then◌else◌, arith,
}
use frozen.ItemList.{Cell}
use frozen.ItemList.View.{IsList, view}
use frozen.ItemList.Count.{hit, count, list_add-count}
use frozen.Backend.{
  Graph, ◌>>◌, upd, backend_connect, backend_disconnect, backend_new_skeleton,
  backend_free_skeleton,
}
use frozen.Backend.Linked.{child_links, IsLinked}
use frozen.Backend.Lifetime.{backend_new_skeleton-IsLinked, child_links-freed, parent_links-freed}
use frozen.Backend.Free.{backend_free_skeleton-IsLinked}
use frozen.Backend.Build.{NewCtx, new_backend}
use frozen.Backend.Chains.{links_to, connect_any, disconnect_any}

-- A backend at a free address that is connected, and what undoes that.
record Tried (junk : Cell) (b : ℕ) (name : Option (List ℕ)) (prev : Option ℕ) (g : Graph)
    : Type 0 where
  made : Graph
  makes : (backend_new_skeleton junk b name >> backend_connect junk b prev) g ≡ some made
  made_linked : IsLinked made
  made_live : (x : ℕ) → made.live x ≡ upd g.live b true x
  made_links : (x y : ℕ) → child_links made x y ≡ child_links g x y + links_to b prev x y
  undone : Graph
  undoes : (backend_disconnect junk b prev >> backend_free_skeleton b) made ≡ some undone
  undone_linked : IsLinked undone
  undone_live : (x : ℕ) → undone.live x ≡ g.live x
  undone_links : (x y : ℕ) → child_links undone x y ≡ child_links g x y

upd_undone :
    (live : ℕ → Bool) (b x : ℕ)
    → live b ≡ false
    → (if b == x then false else (if b == x then true else live x)) ≡ live x
upd_undone live b x dead = elim (Bool-cases (b == x)) [
  | inl same ↦ let e : b ≡ x = ground arith in rw same (sym (sym (ap live e) ∙ dead))
  | inr other ↦ rw other
]

stays_live : (live : ℕ → Bool) (b c : ℕ) → live c ≡ true → upd live b true c ≡ true
stays_live live b c h = elim (Bool-cases (b == c)) [ inl same ↦ rw same | inr other ↦ rw other h ]

try :
    (junk : Cell) (b : ℕ) (name : Option (List ℕ)) (prev : Option ℕ) (g : Graph)
    → IsLinked g
    → g.live b ≡ false
    → ((c : ℕ) → prev ≡ some c → g.live c ≡ true)
    → Tried junk b name prev g
try junk b name prev g h dead prev_live =
    let here : (b == b) ≡ true = ground arith in
    let (g1, e1, linked1, new1) = backend_new_skeleton-IsLinked junk b name g h dead in
    let alive1 : g1.live b ≡ true = new1.new_live b ∙ rw here in
    let prev_live1 : (c : ℕ) → prev ≡ some c → g1.live c ≡ true =
      λ c e. new1.new_live c ∙ stays_live g.live b c (prev_live c e) in
    let fresh : (y : ℕ) → child_links g b y ≡ 0 = child_links-freed g h b dead in
    let (g2, e2, linked2, kept2, childs2) =
      connect_any junk b prev g1 linked1 alive1 prev_live1 (λ c. new1.new_links b c ∙ fresh c) in
    let (g3, e3, linked3, kept3, childs3) =
      disconnect_any junk b prev g2 linked2 (kept2.live_kept b ∙ alive1)
        (λ c e. kept2.live_kept c ∙ prev_live1 c e) in
    let back : (x y : ℕ) → child_links g3 x y ≡ child_links g x y =
      λ x y. omega (arith, childs3 x y, childs2 x y, new1.new_links x y) in
    let lives3 : (x : ℕ) → g3.live x ≡ upd g.live b true x =
      λ x. kept3.live_kept x ∙ kept2.live_kept x ∙ new1.new_live x in
    let (g4, e4, linked4, lives4, childs4) =
      backend_free_skeleton-IsLinked b g3 linked3 (lives3 b ∙ rw here) (λ y. back b y ∙ fresh y)
        (λ y. sym (linked3.dual y b) ∙ back y b ∙ h.dual y b ∙ parent_links-freed g h b dead y) in
    record {
      made = g2;
      makes = rw (◌>>◌, e1, e2);
      made_linked = linked2;
      made_live = λ x. kept2.live_kept x ∙ new1.new_live x;
      made_links = λ x y. omega (arith, childs2 x y, new1.new_links x y);
      undone = g4;
      undoes = rw (◌>>◌, e3, e4);
      undone_linked = linked4;
      undone_live = λ x.
          lives4 x ∙ ap (λ t. if b == x then false else t) (lives3 x) ∙ upd_undone g.live b x dead;
      undone_links = λ x y. childs4 x y ∙ back x y;
    }

-- What a step makes of the backends: one more, with its link, or none and all as it was.
pub data Stepped (b : ℕ) (ctx ctx' : NewCtx) : Bool → Option ℕ → Type 0 where
  one_made :
      ((x : ℕ) → ctx'.graph.live x ≡ upd ctx.graph.live b true x)
      → ((x y : ℕ)
          → child_links ctx'.graph x y
            ≡ child_links ctx.graph x y + links_to b ctx.backend_prev x y)
      → ((q : ℕ) → count q (view ctx'.backends) ≡ count q (view ctx.backends) + hit b q)
      → Stepped b ctx ctx' true (some b)
  none_made :
      ((x : ℕ) → ctx'.graph.live x ≡ ctx.graph.live x)
      → ((x y : ℕ) → child_links ctx'.graph x y ≡ child_links ctx.graph x y)
      → ctx'.backends ≡ ctx.backends
      → Stepped b ctx ctx' false none

-- A step of `backend_new` with a class that is found, on a linked graph, where `malloc` gives a free
-- address and the backend below is not freed, ends and keeps the graph linked. If `func_init` and
-- `func_configure` succeed there is one more backend, connected to the one below and to no other; if one
-- of them fails the backends, the links and the list of new backends are as they were.
pub new_backend-Stepped :
    (junk : Cell) (malloc : Graph → ℕ) (func_init func_configure : ℕ → Bool)
    (name : Option (List ℕ)) (ctx : NewCtx)
    → IsLinked ctx.graph
    → IsList ctx.backends
    → ctx.graph.live (malloc ctx.graph) ≡ false
    → ((c : ℕ) → ctx.backend_prev ≡ some c → ctx.graph.live c ≡ true)
    → (r : Option ℕ) × (ctx' : NewCtx) × (new_backend junk malloc func_init func_configure name ctx
        ≡ some (r, ctx'))
      × IsLinked ctx'.graph
      × Stepped
          (malloc ctx.graph)
          ctx
          ctx'
          (func_init (malloc ctx.graph) && func_configure (malloc ctx.graph))
          r
unfolding new_backend
new_backend-Stepped junk malloc func_init func_configure name ctx h ended dead prev_live =
    let b = malloc ctx.graph in
    let t = try junk b name ctx.backend_prev ctx.graph h dead prev_live in
    let (l, e, ended', counts) = list_add-count junk b ctx.backends ended in
    elim (Bool-cases (func_init b)) [
      | inr failed ↦ (
        none,
        record ctx { graph = t.undone },
        rw (t.makes, failed, t.undoes),
        t.undone_linked,
        rw failed (none_made t.undone_live t.undone_links refl),
      )
      | inl started ↦ elim (Bool-cases (func_configure b)) [
        | inr failed ↦ (
          none,
          record ctx { graph = t.undone },
          rw (t.makes, started, failed, t.undoes),
          t.undone_linked,
          rw (started, failed) (none_made t.undone_live t.undone_links refl),
        )
        | inl ready ↦ (
          some b,
          record ctx { graph = t.made; backends = l },
          rw (t.makes, started, ready, e),
          t.made_linked,
          rw (started, ready) (one_made t.made_live t.made_links counts),
        )
      ]
    ]
