-- ===== src/Pool/Limit.antt =====
-- `pool_group_limit` of backends that count for 1 each: where it ends, and with what.
use frozen.Base.{
  map, ◌++◌, ℕ, zero, suc, ◌+◌, ◌-◌, ◌^◌, ◌<◌, ◌≤◌, ◌≡◌, ◌≢◌, refl, inl, inr, true, false, Option,
  none, some, List, [], ◌∷◌, arith, leb, ◌==◌, if◌then◌else◌, length, get_elem?, set, min, add64,
  uint_max, Bool-cases, ap, ◌∙◌, sym, leb→le, leb→lt,
}
use mathlib.Core.List.{append-nil}
use frozen.Pool.{
  method_random, action_destroy, parameter_one, Rule, Member, nothing_found, look_from, choose,
  pool_parameter_get, act, pool_backend_action, action_at, repeat_limit, pool_group_limit,
}
use frozen.Pool.Scan.{total, look_from-total, choose-Chosen}

-- A backend that counts for 1 until it dies.
abbrev pub IsSingle : Member → Type 0
IsSingle m = (m.parameter ≡ parameter_one) × (m.usage_parameter ≡ (if m.died then 0 else 1))

abbrev pub AllSingle : List Member → Type 0
AllSingle [] = Unit {0}
AllSingle (m ∷ members) = IsSingle m × AllSingle members

-- How many backends of a group live.
abbrev pub alive : List Member → ℕ
alive [] = 0
alive (m ∷ members) = if m.died then alive members else suc (alive members)

alive-length : (members : List Member) → alive members ≤ length members
alive-length [] = omega arith
alive-length (m ∷ members) = elim (Bool-cases m.died) [
  | inl dead ↦ rw dead (omega (arith, alive-length members))
  | inr lives ↦ rw lives (omega (arith, alive-length members))
]

total-alive :
    (acc : ℕ) (members : List Member)
    → AllSingle members
    → acc + length members < 2 ^ 64
    → total acc members ≡ acc + alive members
unfolding total
total-alive acc [] s small = omega arith
total-alive acc (m ∷ members) ((p, u), s) small = elim (Bool-cases m.died) [
  | inl dead ↦
      let z : m.usage_parameter ≡ 0 = u ∙ rw dead in
      rw (z, dead) (total-alive acc members s (omega (arith, small)))
  | inr lives ↦
      let one : m.usage_parameter ≡ 1 = u ∙ rw lives in
      let a : add64 acc 1 ≡ acc + 1 = omega (arith, small) in
      rw (one, lives, a) (total-alive (acc + 1) members s (omega (arith, small)) ∙ omega arith)
]

-- The childs of each backend, with those that have been destroyed.
abbrev pub all_childs : List Member → List (List ℕ)
all_childs = map (λ m. m.killed ++ m.childs)

module _ (query : Member → ℕ) (passed : Member → Member) where
  destroyed : Member → Member
  destroyed = pool_backend_action query passed action_destroy

  destroyed-childs :
      (m : Member) → (destroyed m).killed ++ (destroyed m).childs ≡ m.killed ++ m.childs
  unfolding destroyed pool_backend_action act
  destroyed-childs m = elim (Bool-cases m.forked) [
    | inl forked ↦ rw forked (append-nil (m.killed ++ m.childs))
    | inr own ↦ rw own
  ]

  destroyed-IsSingle : (m : Member) → IsSingle m → IsSingle (destroyed m)
  unfolding destroyed pool_backend_action act pool_parameter_get
  destroyed-IsSingle m (p, u) = (p, rw p)

  destroyed_died : (m : Member) → (destroyed m).died ≡ true
  unfolding destroyed pool_backend_action act
  destroyed_died m = refl

  set-alive :
      (members : List Member) (i : ℕ) (m : Member)
      → AllSingle members
      → get_elem? members i ≡ some m
      → 0 < m.usage_parameter
      → AllSingle (set members i (destroyed m))
        × (suc (alive (set members i (destroyed m))) ≡ alive members)
        × (length (set members i (destroyed m)) ≡ length members)
        × (all_childs (set members i (destroyed m)) ≡ all_childs members)
  set-alive [] i m s e p = absurd (cc e)
  set-alive (x ∷ members) zero m ((px, ux), s) e p =
      let same : x ≡ m = cc e in
      let lives : x.died ≡ false = elim (Bool-cases x.died) [
        | inr lives ↦ lives
        | inl dead ↦
            let z : x.usage_parameter ≡ 0 = ux ∙ rw dead in
            let q : 0 < x.usage_parameter = rw same p in absurd (omega (arith, z, q))
      ] in
      (
        (rw (sym same) (destroyed-IsSingle x (px, ux)), s),
        rw (destroyed_died m, lives),
        refl,
        ap (λ t. t ∷ all_childs members) (rw (sym same) (destroyed-childs x)),
      )
  set-alive (x ∷ members) (suc i) m (sx, s) e p =
      let (s', a, l, k) = set-alive members i m s e p in
      (
        (sx, s'),
        elim (Bool-cases x.died) [ inl dead ↦ rw dead a | inr lives ↦ rw lives (ap suc a) ],
        ap suc l,
        ap (λ t. (x.killed ++ x.childs) ∷ t) k,
      )

module _ (query : Member → ℕ) (random : ℕ → ℕ) (rule : Rule)
    (not_random : rule.mode ≢ method_random) where
  -- The end of the loop: the group, with as many living backends as before or as the limit leaves, and
  -- in which each child of a backend is still its child or has been destroyed.
  abbrev pub Limited : List Member → Option (List Member) → Type 0
  Limited members out =
      (after : List Member) × (out ≡ some after)
      × (length after ≡ length members)
      × (alive after ≡ min (alive members) (rule.limit - 1))
      × (all_childs after ≡ all_childs members)

  repeat-step :
      (fuel : ℕ) (members : List Member)
      → AllSingle members
      → length members < 2 ^ 64
      → repeat_limit query random rule (suc fuel) members ≡ (
          if leb rule.limit (alive members)
          then elim (choose rule.mode
              (random fuel)
              (length members)
              (look_from 0 members nothing_found)) [
                | none ↦ some members
                | some i ↦
                    repeat_limit query random rule fuel (action_at query random rule members i)
              ]
          else some members)
  unfolding repeat_limit
  repeat-step fuel members s small =
      let g : (look_from 0 members nothing_found).parameter_group ≡ alive members =
        look_from-total 0 members nothing_found
        ∙ total-alive 0 members s (omega (arith, small))
        ∙ omega arith in
      rw g

  action-set :
      (members : List Member) (i : ℕ) (m : Member)
      → rule.action ≡ action_destroy
      → get_elem? members i ≡ some m
      → action_at query random rule members i
        ≡ set members i (destroyed query rule.action_request m)
  unfolding destroyed
  action-set members i m d at =
      rw (at, action_at)
        (ap (λ a. set members i (pool_backend_action query rule.action_request a m)) d)

  repeat_limit-Limited :
      (fuel : ℕ) (members : List Member)
      → rule.action ≡ action_destroy
      → AllSingle members
      → length members < 2 ^ 64
      → alive members < fuel
      → Limited members (repeat_limit query random rule fuel members)
  repeat_limit-Limited zero members d s small enough = absurd (omega (arith, enough))
  repeat_limit-Limited (suc fuel) members d s small enough =
      elim (Bool-cases (leb rule.limit (alive members))) [
        | inr below ↦
            let lt : alive members < rule.limit = leb→lt _ _ below in
            (members, repeat-step fuel members s small ∙ rw below, refl, omega (arith, lt), refl)
        | inl above ↦
            let le : rule.limit ≤ alive members = leb→le _ _ above in
            elim (choose-Chosen rule.mode (random fuel) (length members) members not_random) [
              | inl (c, z) ↦
                  let t = total-alive 0 members s (omega (arith, small)) in
                  (
                    members,
                    repeat-step fuel members s small ∙ rw (above, c),
                    refl,
                    omega (arith, t, z),
                    refl,
                  )
              | inr (i, m, c, at, p) ↦
                  let gone = destroyed query rule.action_request m in
                  let (s', a, l, kids) = set-alive query rule.action_request members i m s at p in
                  let (after, e, l', k, kids') =
                    repeat_limit-Limited fuel (set members i gone) d s' (omega (arith, l, small))
                      (omega (arith, a, enough)) in
                  let next : action_at query random rule members i ≡ set members i gone =
                    action-set members i m d at in
                  (
                    after,
                    repeat-step fuel members s small ∙ rw (above, c, next, e),
                    l' ∙ l,
                    omega (arith, k, a, le),
                    kids' ∙ kids,
                  )
            ]
      ]

  -- In a group of backends that each count for 1 until they die, fewer than the largest
  -- `uintmax_t`, with a rule that destroys and any method but the random one, the loop ends
  -- within as many rounds as there are backends and one more. The group keeps its length, each child
  -- of a backend is still its child or has been destroyed, and as many backends live as before or, if
  -- those are more, as the limit less one: a group that is at its limit, which the documentation calls
  -- the maximum, loses a backend too.
  pub pool_group_limit-Limited :
      (members : List Member)
      → rule.action ≡ action_destroy
      → AllSingle members
      → length members < uint_max
      → Limited members (pool_group_limit query random rule (suc (length members)) members)
  unfolding pool_group_limit
  pool_group_limit-Limited [] d s small = ([], refl, refl, omega arith, refl)
  pool_group_limit-Limited (m ∷ members) d s small = elim (Bool-cases (rule.limit == uint_max)) [
    | inl unlimited ↦
        let l : rule.limit ≡ uint_max = ground arith in
        (m ∷ members, rw unlimited, refl, omega (arith, l, small, alive-length (m ∷ members)), refl)
    | inr limited ↦ rw limited (
        repeat_limit-Limited (suc (length (m ∷ members))) (m ∷ members) d s (omega (arith, small))
          (omega (arith, alive-length (m ∷ members))))
  ]
