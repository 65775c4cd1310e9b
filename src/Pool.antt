-- ===== src/Pool.antt =====
-- src/libfrozen/backends/backend/pool/pool.c: the limits that a pool keeps on groups of backends. The
-- value that a parameter request yields, what an action request leaves of a backend, `random` and `time`
-- are parameters. Each call runs with no other thread: what requests that come meanwhile do to the ticks
-- is left out, and so is what backend_destroy of a child does, which is no backend of the group.
pub mod Scan
pub mod Limit
pub mod Ticks
mod Tests
use frozen.Base.{
  ℕ, zero, suc, ◌+◌, ◌%◌, Bool, true, false, Option, none, some, List, [], ◌∷◌, ◌++◌, ltb, leb,
  ◌==◌, if◌then◌else◌, length, get_elem?, set, uint_max, add64, Result, err, ebadf,
}

-- `parameter_method`, `choose_method` and `action_method`.
pub data Parameter : Type 0 where
  parameter_request parameter_ticks parameter_one : Parameter

pub data Method : Type 0 where
  method_random method_first method_last method_highest method_lowest : Method

pub data ActionMethod : Type 0 where
  action_destroy action_request : ActionMethod

-- A backend of a pool: its `pool_userdata`, whether it is forked (`perfork_childs` is not its own
-- list), whether its handler is `pool_backend_request_died`, the items of its list of childs, and the
-- childs that backend_destroy has been called on, in this order.
pub record Member : Type 0 where
  pub created_on : ℕ
  pub usage_parameter : ℕ
  pub usage_ticks_last : ℕ
  pub usage_ticks_curr : ℕ
  pub usage_ticks_time : ℕ
  pub tick_interval : ℕ
  pub parameter : Parameter
  pub forked : Bool
  pub died : Bool
  pub childs : List ℕ
  pub killed : List ℕ

-- `rule`, with what passing its action request on leaves of a backend.
pub record Rule : Type 0 where
  pub limit : ℕ
  pub mode : Method
  pub action : ActionMethod
  pub action_request : Member → Member

-- The best backend so far, by its index.
abbrev pub Best : Type 0
Best = Option (ℕ × Member)

-- `pool_kill_check`, with `better` the comparison of the new backend with the best one.
abbrev pub kill_check : (Member → Member → Bool) → Best → ℕ → Member → Best
kill_check better none i m = some (i, m)
kill_check better (some (j, best)) i m = if better m best then some (i, m) else some (j, best)

-- What a pass over the group finds.
pub record Found : Type 0 where
  pub parameter_group : ℕ
  pub backend_first : Best
  pub backend_last : Best
  pub backend_low : Best
  pub backend_high : Best

abbrev pub nothing_found : Found
nothing_found = record {
  parameter_group = 0;
  backend_first = none;
  backend_last = none;
  backend_low = none;
  backend_high = none;
}

-- One round of the `for` loop.
unfoldable pub look_at : ℕ → Member → Found → Found
look_at i m f = if m.usage_parameter == 0 then f else record {
  parameter_group = add64 f.parameter_group m.usage_parameter;
  backend_first = kill_check (λ a b. ltb a.created_on b.created_on) f.backend_first i m;
  backend_last = kill_check (λ a b. ltb b.created_on a.created_on) f.backend_last i m;
  backend_low = kill_check (λ a b. ltb a.usage_parameter b.usage_parameter) f.backend_low i m;
  backend_high = kill_check (λ a b. ltb b.usage_parameter a.usage_parameter) f.backend_high i m;
}

unfoldable pub look_from : ℕ → List Member → Found → Found
unfolding look_at
look_from i [] f = f
look_from i (m ∷ members) f = look_from (suc i) members (look_at i m f)

abbrev pub index_of : Best → Option ℕ
index_of none = none
index_of (some (i, m)) = some i

-- The `switch` on the method, by index; `r` is what `random` yields.
unfoldable pub choose : Method → ℕ → ℕ → Found → Option ℕ
choose method_random r lsz f = if lsz == 0 then none else some (r % lsz)
choose method_first r lsz f = index_of f.backend_first
choose method_last r lsz f = index_of f.backend_last
choose method_highest r lsz f = index_of f.backend_high
choose method_lowest r lsz f = index_of f.backend_low

-- `pool_backend_request_cticks` before it passes the request on, at the time `time_curr`.
unfoldable pub count_tick : ℕ → Member → Member
count_tick time_curr m =
    if ltb (add64 m.usage_ticks_time m.tick_interval) time_curr
    then record m {
      usage_ticks_time = time_curr;
      usage_ticks_last = m.usage_ticks_curr;
      usage_ticks_curr = 1;
    }
    else record m { usage_ticks_curr = add64 m.usage_ticks_curr 1 }

module _ (query : Member → ℕ) where
  -- `pool_parameter_get`.
  unfoldable pub pool_parameter_get : Member → ℕ
  pool_parameter_get m = elim m.parameter [
    | parameter_one ↦ if m.died then 0 else 1
    | parameter_ticks ↦ m.usage_ticks_last
    | parameter_request ↦ query m
  ]

  -- The `switch` of `pool_backend_action`. A forked backend pops its childs and destroys each.
  unfoldable pub act : (Member → Member) → ActionMethod → Member → Member
  act passed action_destroy m = record m {
    died = true;
    childs = if m.forked then [] else m.childs;
    killed = if m.forked then m.killed ++ m.childs else m.killed;
  }
  act passed action_request m = passed m

  -- `pool_backend_action`.
  unfoldable pub pool_backend_action : (Member → Member) → ActionMethod → Member → Member
  unfolding pool_parameter_get act
  pool_backend_action passed action m = record (act passed action m) {
    usage_parameter = pool_parameter_get (act passed action m);
  }

  module _ (random : ℕ → ℕ) (rule : Rule) where
    abbrev pub action_at : List Member → ℕ → List Member
    action_at members i = elim (get_elem? members i) [
      | none ↦ members
      | some m ↦ set members i (pool_backend_action rule.action_request rule.action m)
    ]

    -- The loop from `repeat` on fuel, with `random n` what `random` yields with `n` rounds left; `none`
    -- is a loop that has not ended.
    unfoldable pub repeat_limit : ℕ → List Member → Option (List Member)
    unfolding look_from choose pool_backend_action
    repeat_limit zero members = none
    repeat_limit (suc fuel) members =
        let f = look_from 0 members nothing_found in
        if leb rule.limit f.parameter_group
        then elim (choose rule.mode (random fuel) (length members) f) [
          | none ↦ some members
          | some i ↦ repeat_limit fuel (action_at members i)
        ]
        else some members

    -- `pool_group_limit`.
    unfoldable pub pool_group_limit : ℕ → List Member → Option (List Member)
    unfolding repeat_limit
    pool_group_limit fuel [] = some []
    pool_group_limit fuel (m ∷ members) =
        if rule.limit == uint_max then some (m ∷ members) else repeat_limit fuel (m ∷ members)

-- `pool_backend_request_died`.
unfoldable pub pool_backend_request_died : Member → Result ℕ
pool_backend_request_died m = err ebadf
