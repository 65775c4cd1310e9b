-- ===== src/Mphf/Added.antt =====
-- What `graph_add_edge` of mphf_chm_imp.c does to the sums, in each of its three cases.
use frozen.Base.{
  ℕ, suc, ◌+◌, ◌%◌, ◌^◌, ◌≡◌, ◌≢◌, refl, sym, ap, subst, ◌∙◌, inl, inr, Bool-cases, some, List, [],
  get_elem?, length, ◌==◌, sub64, arith,
}
use frozen.Mphf.{Chm, Outcome, done, failed, starved, with_g, update_g, graph_recalc, write_cell}
use frozen.Mphf.Edges.{Leads, InChain-le}
use frozen.Mphf.Runs.{with_cell-done, write_cell-Wrote, get_or-some}
use frozen.Mphf.Loop.{Leads-pos, num, SameSum, Small}
use frozen.Mphf.Recalc.{graph_recalc-Recalced}
use frozen.Mphf.Settle.{Settled, Wrote-Settled, Recalced-Settled}
use frozen.Mphf.Link.{IsValid, with_edge}
use frozen.Mphf.Linked.{Leads-new, Leads-cases, with_edge-IsValid}
use frozen.Mphf.Numbers.{Settled-sum}

-- `c` with the numbers `g'`, which give edge `id` from `v` to `u` its value and keep all others.
pub record Summed (c : Chm) (id v u value : ℕ) (g g' : List ℕ) : Type 0 where
  pub size : length g' ≡ length g
  pub small : Small g'
  pub sum : (num g' v + num g' u) % 2 ^ c.bi_value ≡ value % 2 ^ c.bi_value
  pub others : (a id' b : ℕ) → id' ≢ id → Leads c a id' b → SameSum c g g' a b

pub with_g-done :
    (c : Chm) (m : Outcome (List ℕ)) {c' : Chm}
    → with_g c m ≡ done c'
    → (g : List ℕ) × (m ≡ done g) × (record c { be_g = g } ≡ c')
with_g-done c (done g) h = (g, refl, cc h)
with_g-done c (failed e g) h = cc h
with_g-done c starved h = cc h

module _ {c : Chm} {v0 v1 n0 n1 : ℕ} (valid : IsValid c) (apart : v0 ≢ v1)
    (at0 : get_elem? c.be_v v0 ≡ some n0) (at1 : get_elem? c.be_v v1 ≡ some n1) where
  abbrev pub linked : Chm
  linked = with_edge c v0 v1 n0 n1

  abbrev pub id : ℕ
  id = suc (length c.be_e)

  -- A vertex that had no edge has the new one alone.
  alone : {v : ℕ} → get_elem? c.be_v v ≡ some 0 → (id' w : ℕ) → Leads linked v id' w → id' ≡ id
  alone {v = v} at id' w l = elim (Leads-cases valid apart at0 at1 l) [
    | inl (p, _) ↦ p
    | inr old ↦
        let le = InChain-le valid.graph (valid.graph.linked v id' w 0 old at) in
        let pos = Leads-pos c v id' w old in absurd (omega arith)
  ]

  -- The value of the new edge is a sum, whichever end has taken the new number.
  from_0 :
      {value : ℕ} {g' : List ℕ}
      → Settled linked id v0 v1 (sub64 value (num c.be_g v0)) c.be_g g'
      → Summed linked id v0 v1 value c.be_g g'
  from_0 {value = value} s =
      let sized = (with_edge-IsValid valid apart at0 at1).sized in
      record {
        size = s.size;
        small = s.small valid.small;
        sum = Settled-sum value sized valid.small s;
        others = s.others;
      }

  from_1 :
      {value : ℕ} {g' : List ℕ}
      → Settled linked id v1 v0 (sub64 value (num c.be_g v1)) c.be_g g'
      → Summed linked id v0 v1 value c.be_g g'
  from_1 {value = value} {g' = g'} s =
      let sized = (with_edge-IsValid valid apart at0 at1).sized in
      let e : num g' v0 + num g' v1 ≡ num g' v1 + num g' v0 = omega arith in
      record {
        size = s.size;
        small = s.small valid.small;
        sum = ap (λ k. k % 2 ^ c.bi_value) e ∙ Settled-sum value sized valid.small s;
        others = s.others;
      }

  fresh_0 :
      (value t : ℕ) {g' : List ℕ}
      → n0 ≡ 0
      → get_elem? c.be_g v1 ≡ some t
      → write_cell c.bt_value v0 (sub64 value t) c.be_g ≡ done g'
      → Summed linked id v0 v1 value c.be_g g'
  fresh_0 value t {g' = g'} none_yet at write =
      let after = with_edge-IsValid valid apart at0 at1 in
      let lone = alone (subst (λ n. get_elem? c.be_v v0 ≡ some n) none_yet at0) in
      let q = get_or-some c.be_g v1 t at in
      let wrote = write_cell-Wrote c.bt_value v0 (sub64 value t) c.be_g write in
      from_1 (
        subst (λ x. Settled linked id v1 v0 (sub64 value x) c.be_g g') (sym q)
          (Wrote-Settled (λ e. apart (sym e)) lone after.graph after.sized wrote))

  fresh_1 :
      (value t : ℕ) {g' : List ℕ}
      → n1 ≡ 0
      → get_elem? c.be_g v0 ≡ some t
      → write_cell c.bt_value v1 (sub64 value t) c.be_g ≡ done g'
      → Summed linked id v0 v1 value c.be_g g'
  fresh_1 value t {g' = g'} none_yet at write =
      let after = with_edge-IsValid valid apart at0 at1 in
      let lone = alone (subst (λ n. get_elem? c.be_v v1 ≡ some n) none_yet at1) in
      let q = get_or-some c.be_g v0 t at in
      let wrote = write_cell-Wrote c.bt_value v1 (sub64 value t) c.be_g write in
      from_0 (
        subst (λ x. Settled linked id v0 v1 (sub64 value x) c.be_g g') (sym q)
          (Wrote-Settled apart lone after.graph after.sized wrote))

  joined :
      (fuel value t0 t1 : ℕ) {g' : List ℕ}
      → get_elem? c.be_g v0 ≡ some t0
      → get_elem? c.be_g v1 ≡ some t1
      → graph_recalc fuel linked [] v1 t1 (sub64 value t0) id c.be_g ≡ done g'
      → Summed linked id v0 v1 value c.be_g g'
  joined fuel value t0 t1 {g' = g'} at_0 at_1 run =
      let after = with_edge-IsValid valid apart at0 at1 in
      let calc =
        graph_recalc-Recalced after.graph after.sized fuel [] v1 t1 (sub64 value t0) id c.be_g g'
          (omega arith) (get_or-some c.be_g v1 t1 at_1) run in
      from_0 (
        subst (λ x. Settled linked id v0 v1 (sub64 value x) c.be_g g')
          (sym (get_or-some c.be_g v0 t0 at_0))
          (Recalced-Settled after.graph (Leads-new valid apart at0 at1) calc))

  pub update_g-Summed :
      (fuel value : ℕ) {c' : Chm}
      → update_g fuel v0 v1 n0 n1 value id linked ≡ done c'
      → (g' : List ℕ) × (record linked { be_g = g' } ≡ c') × Summed linked id v0 v1 value c.be_g g'
  unfolding update_g
  update_g-Summed fuel value h = elim (Bool-cases (n0 == 0)) [
    | inl t0 ↦
        let k = rw t0 at h in
        let (t, e1, k1) = with_cell-done (get_elem? c.be_g v1) linked _ k in
        let (g', e2, e3) = with_g-done linked _ k1 in (g', e3, fresh_0 value t (ground arith) e1 e2)
    | inr f0 ↦
        let k = rw f0 at h in
        elim (Bool-cases (n1 == 0)) [
          | inl t1 ↦
              let k1 = rw t1 at k in
              let (t, e1, k2) = with_cell-done (get_elem? c.be_g v0) linked _ k1 in
              let (g', e2, e3) = with_g-done linked _ k2 in
              (g', e3, fresh_1 value t (ground arith) e1 e2)
          | inr f1 ↦
              let k1 = rw f1 at k in
              let (t0, e0, k2) = with_cell-done (get_elem? c.be_g v0) linked _ k1 in
              let (t1, e1, k3) = with_cell-done (get_elem? c.be_g v1) linked _ k2 in
              let (g', e2, e3) = with_g-done linked _ k3 in
              (g', e3, joined fuel value t0 t1 e0 e1 e2)
        ]
  ]
