-- ===== src/Mphf/Update.antt =====
-- `mphf_chm_imp_update`: a key whose edge is there has the new value, any other key is inserted.
use frozen.Base.{
  Errno, ℕ, suc, ◌+◌, ◌%◌, ◌^◌, ◌<◌, ◌≡◌, ◌≢◌, refl, sym, ap, ap₂, subst, ◌∙◌, ◌⊎◌, inl, inr,
  Bool-cases, Option-cases, Option, none, some, List, [], get_elem?, length, ◌==◌, sub64, Result,
  ok, err, fault, logged, ℕ_discrete, arith,
}
use native.Mathlib.Nat.{mod-mod}
use frozen.Mphf.Sums.{add-mod_congr, cut-mod, sub64-add}
use frozen.Mphf.{
  Edge, Chm, done, ◌>>=◌, cell, cut, write_cell, graph_recalc, update_edge, graph_find_edge,
  vertex_0, vertex_1, mphf_chm_imp_insert, mphf_chm_imp_update,
}
use frozen.Mphf.Edges.{Leads}
use frozen.Mphf.Runs.{>>=-done, Wrote, write_cell-Wrote, get_or-some, if-done_then}
use frozen.Mphf.Loop.{num, Small, Wrote-Small}
use frozen.Mphf.Recalc.{graph_recalc-Recalced}
use frozen.Mphf.Settle.{Settled, Recalced-Settled}
use frozen.Mphf.Link.{IsValid, HasMasks}
use frozen.Mphf.Numbers.{with_numbers-IsValid}
use frozen.Mphf.Values.{Holds, Updated, Holds-final, Holds-sum}
use frozen.Mphf.Added.{with_g-done}
use frozen.Mphf.Find.{graph_find_edge-Leads}
use frozen.Mphf.Insert.{mphf_chm_imp_insert-Updated}

-- A number that is written again changes nothing.
Settled-again :
    {c : Chm} {id v u x : ℕ} {g gm g' : List ℕ}
    → IsValid c
    → Settled c id v u x g gm
    → Wrote c.bt_value u x gm g'
    → Settled c id v u x g g'
Settled-again {c} {u = u} {gm = gm} {g' = g'} valid s wrote =
    let same : (w : ℕ) → num g' w ≡ num gm w = λ w. elim (ℕ_discrete w u) [
      | yes e ↦ ap (λ y. num g' y) e ∙ wrote.written ∙ sym s.new ∙ ap (λ y. num gm y) (sym e)
      | no ne ↦ wrote.others w ne
    ] in
    record {
      size = wrote.size ∙ s.size;
      small = λ h. Wrote-Small valid.sized wrote (s.small h);
      kept = same _ ∙ s.kept;
      new = wrote.written;
      others = λ a id' b n l.
          ap₂ (λ p q. (p + q) % 2 ^ c.bi_value) (same a) (same b) ∙ s.others a id' b n l;
    }

-- The key has edge `id`, and what a query of it finds is off the value by the difference of the numbers
-- that its two vertices had; what another edge held it holds still.
pub record Drifted (c c' : Chm) (key id value : ℕ) : Type 0 where
  pub valid : IsValid c'
  pub result : ℕ
  pub stored : Holds c' key id result
  pub drift :
      (result + num c.be_g (vertex_1 c key)) % 2 ^ c.bi_value
      ≡ (value + num c.be_g (vertex_0 c key)) % 2 ^ c.bi_value
  pub kept : (key' id' x : ℕ) → id' ≢ id → Holds c key' id' x → Holds c' key' id' x

Settled-drift :
    {c : Chm} {id v u : ℕ} {g g' : List ℕ} (value : ℕ)
    → IsValid c
    → Small g
    → Settled c id v u (sub64 value (num g u)) g g'
    → ((num g' v + num g' u) % 2 ^ c.bi_value + num g u) % 2 ^ c.bi_value
      ≡ (value + num g v) % 2 ^ c.bi_value
Settled-drift {c} {v = v} {u = u} {g = g} {g' = g'} value valid small s =
    let m = 2 ^ c.bi_value in
    let d = sub64 value (num g u) in
    let sized = valid.sized in
    let e : num g' v + num g' u + num g u ≡ cut c.bt_value d + num g u + num g v =
      omega (arith, s.kept, s.new) in
    add-mod_congr m ((num g' v + num g' u) % m) (num g' v + num g' u) (num g u) (num g u)
      (mod-mod (num g' v + num g' u) m) refl
    ∙ ap (λ k. k % m) e
    ∙ add-mod_congr m (cut c.bt_value d + num g u) value (num g v) (num g v)
        (add-mod_congr m (cut c.bt_value d) d (num g u) (num g u)
            (cut-mod c.bi_value c.bt_value sized.fits sized.word d) refl
          ∙ sub64-add c.bi_value c.bt_value sized.fits sized.word value (num g u) (small u))
        refl

update_edge-Drifted :
    (fuel key value id t : ℕ) (c : Chm) {c' : Chm}
    → IsValid c
    → c.bi_value < 64
    → Leads c (vertex_0 c key) id (vertex_1 c key)
    → get_elem? c.be_g (vertex_1 c key) ≡ some t
    → update_edge fuel (vertex_1 c key) t (sub64 value t) id c ≡ done c'
    → Drifted c c' key id value
unfolding update_edge
update_edge-Drifted fuel key value id t c {c' = c'} valid bits leads at h =
    let v0 = vertex_0 c key in
    let v1 = vertex_1 c key in
    let x = sub64 value t in
    let (g', run, e) =
      with_g-done c (graph_recalc fuel c [] v1 t x id c.be_g >>= write_cell c.bt_value v1 x) h in
    let (gm, run1, write) = >>=-done (graph_recalc fuel c [] v1 t x id c.be_g) _ run in
    let number = get_or-some c.be_g v1 t at in
    let calc =
      graph_recalc-Recalced valid.graph valid.sized fuel [] v1 t x id c.be_g gm (omega arith) number
        run1 in
    let settled =
      Settled-again valid (Recalced-Settled valid.graph leads calc)
        (write_cell-Wrote c.bt_value v1 x gm write) in
    let small = settled.small valid.small in
    let n = c.nelements in
    subst (λ y. Drifted c y key id value) e
      (record {
        valid = with_numbers-IsValid c g' n valid settled.size small;
        result = (num g' v0 + num g' v1) % 2 ^ c.bi_value;
        stored = Holds-final valid bits n g' settled.size small key v0 v1 refl refl leads refl;
        drift =
            Settled-drift value valid valid.small
              (subst (λ y. Settled c id v0 v1 (sub64 value y) c.be_g g') (sym number) settled);
        kept = λ key' id' y ne held.
            let a = vertex_0 c key' in
            let b = vertex_1 c key' in
            Holds-final valid bits n g' settled.size small key' a b refl refl held.edge
              (settled.others a id' b ne held.edge ∙ Holds-sum valid bits held);
      })

-- What a search for an edge comes to.
data Search (r : Option (Result ℕ)) : Type 0 where
  starved_at : r ≡ none → Search r
  found_at : (id : ℕ) → r ≡ some (ok id) → Search r
  missing : (e : Errno) → r ≡ some (err e) → Search r
  faulty : r ≡ some fault → Search r

Search-cases : (r : Option (Result ℕ)) → Search r
Search-cases none = starved_at refl
Search-cases (some (ok id)) = found_at id refl
Search-cases (some (err e)) = missing e refl
Search-cases (some fault) = faulty refl

-- After a successful update of an index in use, of values below 64 bits and cells below 8 bytes, whose
-- edges have not used up the ids that a cell holds, either the key has been inserted with its value, or an edge of it was there: then the other keys hold
-- what they held, and a query of the key finds its value plus the number that its first vertex had less
-- the number that its second vertex had, up to the bits of a value.
pub mphf_chm_imp_update-Drifted :
    (fuel : ℕ) (fresh : Edge) (key value : ℕ) (c : Chm) {c' : Chm}
    → IsValid c
    → HasMasks c
    → suc (length c.be_e) < cell c.bt_vertex
    → mphf_chm_imp_update fuel fresh key value c ≡ done c'
    → Updated c c' key (suc (length c.be_e)) value
      ⊎ ((id : ℕ) × Leads c (vertex_0 c key) id (vertex_1 c key) × Drifted c c' key id value)
unfolding mphf_chm_imp_update
mphf_chm_imp_update-Drifted fuel fresh key value c {c' = c'} valid masks few h =
    let v0 = vertex_0 c key in
    let v1 = vertex_1 c key in
    let new = mphf_chm_imp_insert fuel fresh key value c in
    let inserted = λ (k : new ≡ done c').
      (mphf_chm_imp_insert-Updated fuel fresh key value c valid masks few k).0 in
    let h1 = if-done_then c.writeable _ logged c h in
    elim (Bool-cases (v0 == v1)) [
      | inl same ↦ let h2 = rw same at h1 in inl (inserted h2)
      | inr differ ↦
          let h2 = rw differ at h1 in
          elim (Option-cases (get_elem? c.be_v v0)) [
            | inl lost ↦ let h3 = rw lost at h2 in inl (inserted h3)
            | inr (first, at0) ↦
                let h3 = rw at0 at h2 in
                elim (Search-cases (graph_find_edge fuel c v0 v1 first)) [
                  | starved_at e ↦ let h4 = rw e at h3 in cc h4
                  | missing x e ↦ let h4 = rw e at h3 in inl (inserted h4)
                  | faulty e ↦ let h4 = rw e at h3 in inl (inserted h4)
                  | found_at id e ↦
                      let h4 = rw e at h3 in
                      elim (Option-cases (get_elem? c.be_g v1)) [
                        | inl lost ↦ let h5 = rw lost at h4 in inl (inserted h5)
                        | inr (t, at1) ↦
                            let h5 = rw at1 at h4 in
                            let leads = graph_find_edge-Leads fuel c v0 v1 first id e in
                            inr (
                              id,
                              leads,
                              update_edge-Drifted fuel key value id t c valid masks.value_mask leads
                                  at1 h5,
                            )
                      ]
                ]
          ]
    ]
