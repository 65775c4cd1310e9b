-- ===== src/Pool/Ticks.antt =====
-- `pool_group_limit` of backends that count by their ticks: where it does not end.
use frozen.Base.{
  ℕ, zero, suc, ◌<◌, ◌≤◌, ◌≡◌, ◌≢◌, refl, inl, inr, true, none, some, List, [], ◌∷◌, arith, leb,
  length, get_elem?, set, sym, ap, le→leb,
}
use frozen.Pool.{
  method_random, action_destroy, parameter_ticks, Rule, Member, nothing_found, look_from,
  pool_parameter_get, act, pool_backend_action, action_at, repeat_limit,
}
use frozen.Pool.Scan.{total, look_from-total, choose-Chosen}

-- A dead backend whose parameter is the ticks of its last interval. Its handler is
-- `pool_backend_request_died`, so no request changes its ticks any more.
abbrev pub IsTicking : Member → Type 0
IsTicking m =
    (m.died ≡ true) × (m.parameter ≡ parameter_ticks) × (m.usage_parameter ≡ m.usage_ticks_last)

abbrev pub AllTicking : List Member → Type 0
AllTicking [] = Unit {0}
AllTicking (m ∷ members) = IsTicking m × AllTicking members

module _ (query : Member → ℕ) (random : ℕ → ℕ) (rule : Rule)
    (not_random : rule.mode ≢ method_random) (destroys : rule.action ≡ action_destroy) where
  acted : Member → Member
  acted = pool_backend_action query rule.action_request action_destroy

  acted-IsTicking :
      (m : Member)
      → IsTicking m
      → IsTicking (acted m) × ((acted m).usage_parameter ≡ m.usage_parameter)
  unfolding acted pool_backend_action act pool_parameter_get
  acted-IsTicking m (dead, p, u) = ((refl, p, rw p), rw p (sym u))

  set-AllTicking :
      (members : List Member) (i : ℕ) (m : Member) (acc : ℕ)
      → AllTicking members
      → get_elem? members i ≡ some m
      → AllTicking (set members i (acted m))
        × (total acc (set members i (acted m)) ≡ total acc members)
  unfolding acted total
  set-AllTicking [] i m acc t e = absurd (cc e)
  set-AllTicking (x ∷ members) zero m acc (tx, t) e =
      let same : x ≡ m = cc e in let (t', u) = acted-IsTicking x tx in rw (sym same) ((t', t), rw u)
  set-AllTicking (x ∷ members) (suc i) m acc (tx, t) e =
      let (t', u) = set-AllTicking members i m _ t e in ((tx, t'), u)

  action-acted :
      (members : List Member) (i : ℕ) (m : Member)
      → get_elem? members i ≡ some m
      → action_at query random rule members i ≡ set members i (acted m)
  unfolding acted
  action-acted members i m at =
      rw (at, action_at)
        (ap (λ a. set members i (pool_backend_action query rule.action_request a m)) destroys)

  -- In a group of backends that have all been destroyed and count by their ticks, with a rule that
  -- destroys and any method but the random one, the loop never ends if the sum of the ticks of their last
  -- intervals reaches the limit and is not 0: no number of rounds is enough.
  pub repeat_limit-diverges :
      (fuel : ℕ) (members : List Member)
      → AllTicking members
      → rule.limit ≤ total 0 members
      → 0 < total 0 members
      → repeat_limit query random rule fuel members ≡ none
  unfolding repeat_limit
  repeat_limit-diverges zero members t over some_ticks = refl
  repeat_limit-diverges (suc fuel) members t over some_ticks =
      let g : (look_from 0 members nothing_found).parameter_group ≡ total 0 members =
        look_from-total 0 members nothing_found in
      let full : leb rule.limit (total 0 members) ≡ true = le→leb _ _ over in
      elim (choose-Chosen rule.mode (random fuel) (length members) members not_random) [
        | inl (c, z) ↦ absurd (omega (arith, z, some_ticks))
        | inr (i, m, c, at, p) ↦
            let (t', u) = set-AllTicking members i m 0 t at in
            let ih =
              repeat_limit-diverges fuel (set members i (acted m)) t' (rw u over)
                (rw u some_ticks) in
            rw (g, full, c, action-acted members i m at) ih
      ]
