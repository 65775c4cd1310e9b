-- ===== src/Mphf/Rebuilt.antt =====
-- A rebuild of an index of mphf_chm_imp.c ends with an index in use that has no edges.
use native.Mathlib.Nat.{pow-le-pow_right, mod-lt}
use frozen.Base.{
  if-intro, ◌⊎◌, logged, ℕ, zero, suc, ◌/◌, ◌^◌, ◌≤◌, ◌<◌, ◌≡◌, refl, sym, ◌∙◌, inl, inr, none,
  some, [], get_elem?, length-replicate, replicate, ◌==◌, leb, Result, ok, err, fault,
  if◌then◌else◌, arith,
}
use frozen.SafeMath.Exact.{safe_mul-Checked}
use frozen.Mphf.{Outcome, failed, Edge, Chm, done, cell, graph_get_edge}
use frozen.Mphf.Loop.{num, IsSized}
use frozen.Mphf.Link.{IsValid}
use frozen.Mphf.Bits.{log_any-Bits, bits_to_bytes-le}
use frozen.Mphf.Build.{
  capacity_curr, chm_const, bits_to_bytes, scaled, chm_imp_configure_r, chm_imp_file_init,
  wanted_elements, mphf_chm_imp_rebuild,
}

abbrev Sane : Result ℕ → Type 0
Sane (ok n) = (0 < n / 100) × (n / 100 < 2 ^ 63)
Sane (err e) = Unit
Sane fault = Unit

scaled-Sane : (capacity : ℕ) → 0 < capacity → capacity < 2 ^ 64 → Sane (scaled capacity)
unfolding scaled
scaled-Sane capacity h small = elim (safe_mul-Checked capacity chm_const) [
  | inl (e, b) ↦ rw (e, scaled) (omega arith, omega arith)
  | inr (e, over) ↦ elim (safe_mul-Checked (capacity / 100) chm_const) [
    | inl (e2, b) ↦ rw (e, scaled, e2) (omega arith, omega arith)
    | inr (e2, _) ↦ rw (e, scaled, e2) tt
  ]
]

nil_edge : (c : Chm) (k : ℕ) → c.be_e ≡ [] → graph_get_edge c k ≡ none
unfolding graph_get_edge
nil_edge c zero e = refl
nil_edge c (suc k) e = rw e refl

num-replicate : (n w : ℕ) → num (replicate n 0) w ≡ 0
num-replicate zero w = refl
num-replicate (suc n) zero = refl
num-replicate (suc n) (suc w) = num-replicate n w

replicate_first : (n v first : ℕ) → get_elem? (replicate n 0) v ≡ some first → first ≡ 0
replicate_first zero v first h = cc h
replicate_first (suc n) zero first h = cc h
replicate_first (suc n) (suc v) first h = replicate_first n v first h

-- An index as `chm_imp_configure_r` leaves it.
record Configured (c c' : Chm) : Type 0 where
  sized : IsSized c'
  vertices : 0 < c'.nvertex
  room : c'.nvertex ≤ cell c'.bt_vertex
  hashes : (c'.hash1 ≡ c.hash1) × (c'.hash2 ≡ c.hash2)

abbrev Setup : Chm → Outcome Chm → Type 0
Setup c m = (m ≡ failed logged c) ⊎ ((c' : Chm) × (m ≡ done c') × Configured c c')

positive_capacity : (wanted : ℕ) → 0 < (if wanted == 0 then 1 else wanted)
positive_capacity wanted = ground arith

small_capacity : (wanted : ℕ) → wanted < 2 ^ 64 → (if wanted == 0 then 1 else wanted) < 2 ^ 64
small_capacity wanted h = ground arith

configure_scaled :
    (fuel wanted : ℕ) (c : Chm) (r : Result ℕ)
    → scaled (if wanted == 0 then 1 else wanted) ≡ r
    → Sane r
    → 63 ≤ fuel
    → IsSized c
    → Setup c (chm_imp_configure_r fuel wanted c)
unfolding chm_imp_configure_r
configure_scaled fuel wanted c (err x) e sane h sized = inl (rw (e, chm_imp_configure_r) refl)
configure_scaled fuel wanted c fault e sane h sized = inl (rw (e, chm_imp_configure_r) refl)
configure_scaled fuel wanted c (ok n) e sane h sized =
    let (bits, e1, lt, p, q) = log_any-Bits fuel (n / 100) h sane.1 in
    let fits = pow-le-pow_right {n = 2} (omega arith) (bits_to_bytes-le bits p q) in
    inr (
      record c {
        nvertex = n / 100;
        capacity = if wanted == 0 then 1 else wanted;
        bi_vertex = bits;
        bt_vertex = bits_to_bytes bits;
      },
      rw (e, chm_imp_configure_r, e1) refl,
      record {
        sized = record { fits = sized.fits; word = sized.word };
        vertices = sane.0;
        room = unfold cell in omega arith;
        hashes = (refl, refl);
      },
    )

wanted_elements-lt : (c : Chm) → c.capacity < 2 ^ 64 → wanted_elements c < 2 ^ 64
unfolding wanted_elements
wanted_elements-lt c h =
    if-intro (λ (x : ℕ). x < 2 ^ 64) (leb (capacity_curr c.capacity) c.nelements)
      (λ _. mod-lt _ {m = 2 ^ 64} (omega arith)) (λ _. h)

init-IsValid :
    (c : Chm)
    → IsSized c
    → 0 < c.nvertex
    → c.nvertex ≤ cell c.bt_vertex
    → IsValid (chm_imp_file_init c)
unfolding chm_imp_file_init
init-IsValid c sized vertices room =
    let empty = λ (k : ℕ) (e : Edge) (h : graph_get_edge (chm_imp_file_init c) k ≡ some e).
      let p : ⊥ = cc (sym (nil_edge (chm_imp_file_init c) k refl) ∙ h) in p in
    record {
      graph = record {
        loopless = λ k e h. absurd (empty k e h);
        falling = λ k e h. absurd (empty k e h);
        linked = λ v k u f l h. absurd (empty k l.edge l.stored);
      };
      sized = record { fits = sized.fits; word = sized.word };
      vertices = vertices;
      small = λ w. let e = num-replicate c.nvertex w in omega arith;
      g_size = length-replicate c.nvertex 0;
      v_size = length-replicate c.nvertex 0;
      room = room;
      firsts = λ v f h. let e = replicate_first c.nvertex v f h in omega arith;
    }

-- An index in use without edges, with the hashes that were drawn.
pub record Rebuilt (random1 random2 : ℕ) (c : Chm) : Type 0 where
  pub valid : IsValid c
  pub empty : c.be_e ≡ []
  pub hashes : (c.hash1 ≡ random1) × (c.hash2 ≡ random2)

-- With fuel for 63 rounds, a rebuild of an index whose capacity is a word and whose values fit their
-- bytes ends: either with the error of too many elements, or with an index in use that has no edges and
-- the two hashes that were drawn.
pub mphf_chm_imp_rebuild-Rebuilt :
    (fuel random1 random2 : ℕ) (c : Chm)
    → 63 ≤ fuel
    → c.capacity < 2 ^ 64
    → IsSized c
    → ((c' : Chm) × (mphf_chm_imp_rebuild fuel random1 random2 c ≡ failed logged c'))
      ⊎ ((c' : Chm) × (mphf_chm_imp_rebuild fuel random1 random2 c ≡ done c')
          × Rebuilt random1 random2 c')
unfolding mphf_chm_imp_rebuild
mphf_chm_imp_rebuild-Rebuilt fuel random1 random2 c h small sized =
    let c1 = record c { hash1 = random1; hash2 = random2; nelements = 0 } in
    let w = wanted_elements c in
    let lt = wanted_elements-lt c small in
    let cap : ℕ = if w == 0 then 1 else w in
    let sane = scaled-Sane cap (positive_capacity w) (small_capacity w lt) in
    elim (configure_scaled fuel w c1 (scaled cap) refl sane h
      (record { fits = sized.fits; word = sized.word })) [
        | inl e ↦ inl (c1, rw (e, mphf_chm_imp_rebuild) refl)
        | inr (c2, e, s) ↦ inr (
          chm_imp_file_init c2,
          rw (e, mphf_chm_imp_rebuild) refl,
          record {
            valid = init-IsValid c2 s.sized s.vertices s.room;
            empty = unfold chm_imp_file_init in refl;
            hashes = unfold chm_imp_file_init in s.hashes;
          },
        )
      ]
