-- ===== src/Mphf/Values.antt =====
-- The values that the keys of an index of mphf_chm_imp.c have, and what is left of them with other
-- numbers.
use frozen.Base.{ok, ◌<◌, ℕ, ◌+◌, ◌%◌, ◌^◌, ◌≡◌, ◌≢◌, refl, sym, ap, subst, ◌∙◌, some, List, length}
use frozen.Mphf.{Chm, vertex_0, vertex_1, mphf_chm_imp_query}
use frozen.Mphf.Edges.{Leads, Leads-ne}
use frozen.Mphf.Loop.{num, Small}
use frozen.Mphf.Link.{IsValid}
use frozen.Mphf.Numbers.{with_numbers, with_numbers-IsValid, Leads-to, query_lem}

-- Edge `id` is that of a key, and a query of the key finds `x`.
pub record Holds (c : Chm) (key id x : ℕ) : Type 0 where
  pub edge : Leads c (vertex_0 c key) id (vertex_1 c key)
  pub found : mphf_chm_imp_query key c ≡ ok (some x)

-- The key has edge `id` and the value, cut to its bits, and what another edge held it holds still.
pub record Updated (c c' : Chm) (key id value : ℕ) : Type 0 where
  pub valid : IsValid c'
  pub stored : Holds c' key id (value % 2 ^ c.bi_value)
  pub kept : (key' id' x : ℕ) → id' ≢ id → Holds c key' id' x → Holds c' key' id' x

-- The vertices of a key depend on the hashes and the number of vertices.
module _ (c : Chm) (g : List ℕ) (n key : ℕ) where
  vertex_0_same : vertex_0 (with_numbers c g n) key ≡ vertex_0 c key
  unfolding vertex_0
  vertex_0_same = refl

  vertex_1_same : vertex_1 (with_numbers c g n) key ≡ vertex_1 c key
  unfolding vertex_1
  vertex_1_same = refl

module _ {c : Chm} (valid : IsValid c) (bits : c.bi_value < 64) (n : ℕ) (g' : List ℕ)
    (size : length g' ≡ length c.be_g) (small : Small g') (key a b : ℕ) (p : vertex_0 c key ≡ a)
    (q : vertex_1 c key ≡ b) where
  e0 : vertex_0 (with_numbers c g' n) key ≡ a
  e0 = vertex_0_same c g' n key ∙ p

  e1 : vertex_1 (with_numbers c g' n) key ≡ b
  e1 = vertex_1_same c g' n key ∙ q

  final_query :
      a ≢ b
      → mphf_chm_imp_query key (with_numbers c g' n)
        ≡ ok (some ((num g' a + num g' b) % 2 ^ c.bi_value))
  final_query ne =
      query_lem (with_numbers c g' n) key (with_numbers-IsValid c g' n valid size small) bits
        (λ h. ne (sym e0 ∙ h ∙ e1))
      ∙ ap
          (λ x.
            ok (some ((num g' x + num g' (vertex_1 (with_numbers c g' n) key)) % 2 ^ c.bi_value)))
          e0
      ∙ ap (λ x. ok (some ((num g' a + num g' x) % 2 ^ c.bi_value))) e1

  -- A key whose edge has the sum `x` has the value `x`.
  pub Holds-final :
      {id x : ℕ}
      → Leads c a id b
      → (num g' a + num g' b) % 2 ^ c.bi_value ≡ x
      → Holds (with_numbers c g' n) key id x
  Holds-final {id = id} l sum = record {
    edge =
        subst (λ y. Leads (with_numbers c g' n) y id (vertex_1 (with_numbers c g' n) key)) (sym e0)
          (subst (λ y. Leads (with_numbers c g' n) a id y) (sym e1) (Leads-to c g' n l));
    found = final_query (λ e. Leads-ne valid.graph l (sym e)) ∙ ap (λ x. ok (some x)) sum;
  }

-- The sum over the edge of a key that holds a value.
pub Holds-sum :
    {c : Chm} {key id x : ℕ}
    → IsValid c
    → c.bi_value < 64
    → Holds c key id x
    → (num c.be_g (vertex_0 c key) + num c.be_g (vertex_1 c key)) % 2 ^ c.bi_value ≡ x
Holds-sum {c} {key = key} valid bits held =
    cc (sym (query_lem c key valid bits (λ e. Leads-ne valid.graph held.edge (sym e))) ∙ held.found)
