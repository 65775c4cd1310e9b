-- ===== src/Balancer.antt =====
-- src/libfrozen/backends/request/balancer/balancer.c: the choice of the backend that a request goes to, in
-- every mode but the linear one. What `backend_query` returns and what `random` yields are parameters.
pub mod Rounds
mod Tests
use frozen.Base.{
  ℕ, zero, suc, ◌+◌, ◌-◌, ◌*◌, ◌%◌, ◌^◌, Bool, true, false, Option, none, some, List, [], ◌∷◌, ◌==◌,
  if◌then◌else◌, replicate, get_elem?, add64, Result, ok, err, fault, eexist, logged,
}
use frozen.ItemList.{ItemList, list_count, list_flatten}

-- `balancer_mode`.
pub data Mode : Type 0 where
  mode_random mode_counting mode_linear : Mode

-- The part of `balancer_userdata` that a request reads, with the list that `pool` points at.
pub record Balancer : Type 0 where
  pub mode : Mode
  pub counter : ℕ
  pub clone : ℕ
  pub pool : ItemList

-- The number of rounds of the loop that ends by `--clone_i > 0`: at 0 the counter wraps first.
unfoldable pub clone_rounds : ℕ → ℕ
clone_rounds clone = if clone == 0 then 2 ^ 64 else clone

-- The `switch` on the mode: the index, and the new counter. `r` is what `random` yields.
unfoldable pub pick : Mode → ℕ → ℕ → ℕ × ℕ
pick mode_random r counter = (r, counter)
pick mode_counting r counter = (counter, add64 counter 1)
pick mode_linear r counter = (0, counter)

module _ (random : ℕ → ℕ) (backend_query : ℕ → Result ℕ) where
  -- The loop from `redo`, with the rounds that are left: the backends that were queried, the counter
  -- afterwards, and what is returned. `random n` is what `random` yields with `n` rounds left.
  unfoldable pub redo : Mode → List ℕ → ℕ → ℕ → ℕ → List ℕ × ℕ × Result ℕ
  unfolding pick
  redo mode lchilds lsz zero counter = ([], counter, err eexist)
  redo mode lchilds lsz (suc rounds) counter =
      let (i, counter') = pick mode (random rounds) counter in
      elim (get_elem? lchilds (i % lsz)) [
        | none ↦ ([], counter', fault)
        | some child ↦ elim (backend_query child) [
          | err e ↦ (child ∷ [], counter', err e)
          | fault ↦ (child ∷ [], counter', fault)
          | ok ret ↦
              let (childs, counter'', r) = redo mode lchilds lsz rounds counter' in
              (child ∷ childs, counter'', r)
        ]
      ]

  -- `balancer_request_rest`; the array on the stack holds any words, here zeros, before it is filled.
  unfoldable pub balancer_request_rest : Balancer → List ℕ × Balancer × Result ℕ
  unfolding redo clone_rounds
  balancer_request_rest b = elim (list_count b.pool) [
    | none ↦ ([], b, fault)
    | some zero ↦ ([], b, err logged)
    | some (suc n) ↦ elim (list_flatten b.pool (replicate (suc n) 0) (suc n)) [
      | none ↦ ([], b, fault)
      | some lchilds ↦
          let (childs, counter, r) = redo b.mode lchilds (suc n) (clone_rounds b.clone) b.counter in
          (childs, record b { counter = counter }, r)
    ]
  ]
