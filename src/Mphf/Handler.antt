-- ===== src/Mphf/Handler.antt =====
-- src/libfrozen/backends/index/mphf/mphf.c: the requests to the index, and the mark that a failed
-- insertion leaves until the next rebuild.
use frozen.Base.{
  fault, enosys, ℕ, Bool, true, false, Option, none, some, List, [], ◌∷◌, Result, ok, err, Errno,
  einval, ebadf, enoent, logged, if◌then◌else◌,
}
use frozen.Mphf.{
  Edge, Chm, Outcome, done, failed, starved, mphf_chm_imp_insert, mphf_chm_imp_update,
  mphf_chm_imp_query,
}
use frozen.Mphf.Build.{mphf_chm_imp_rebuild}

-- The actions that the handler knows, and the others.
pub data IndexAction : Type 0 where
  create write read delete rebuild other : IndexAction

-- A request: its action, the key and the number behind the output key, if they are there; what new
-- cells hold and the two random numbers, as the environment gives them.
pub record Request : Type 0 where
  pub action : Option IndexAction
  pub input : Option ℕ
  pub output : Option ℕ
  pub fresh : Edge
  pub random1 : ℕ
  pub random2 : ℕ

-- `mphf_userdata`.
pub record Userdata : Type 0 where
  pub mphf : Chm
  pub broken : Bool

-- A result with the state after it; `none` where the fuel was too little. The result of a success is
-- the number behind the output key.
abbrev pub Answer : Type 0
Answer = Option (Result ℕ × Userdata)

abbrev pub is_ebadf : Errno → Bool
is_ebadf ebadf = true
is_ebadf e = false

-- An insertion or an update: EBADF marks the index as broken.
unfoldable pub changed : ℕ → Bool → Outcome Chm → Answer
changed value broken (done c) = some (ok value, record { mphf = c; broken = broken })
changed value broken (failed e c) =
    some (err e, record { mphf = c; broken = if is_ebadf e then true else broken })
changed value broken starved = none

unfoldable pub serve : ℕ → IndexAction → ℕ → ℕ → Edge → Userdata → Answer
unfolding changed
serve fuel create key value fresh u =
    changed value u.broken (mphf_chm_imp_insert fuel fresh key value u.mphf)
serve fuel write key value fresh u =
    changed value u.broken (mphf_chm_imp_update fuel fresh key value u.mphf)
serve fuel read key value fresh u = elim (mphf_chm_imp_query key u.mphf) [
  | ok none ↦ some (err enoent, u)
  | ok (some x) ↦ some (ok x, u)
  | err e ↦ some (err e, u)
  | fault ↦ some (fault, u)
]
serve fuel delete key value fresh u = some (err logged, u)
serve fuel rebuild key value fresh u = some (ok value, u)
serve fuel other key value fresh u = some (ok value, u)

-- A rebuild answers EBADF where it succeeds.
unfoldable pub rebuilt : Bool → Outcome Chm → Answer
rebuilt broken (done c) = some (err ebadf, record { mphf = c; broken = false })
rebuilt broken (failed e c) = some (err e, record { mphf = c; broken = broken })
rebuilt broken starved = none

-- All requests but rebuilds.
unfoldable pub handle : ℕ → IndexAction → Request → Userdata → Answer
unfolding serve
handle fuel action r u = if u.broken then some (err ebadf, u) else elim r.input [
  | none ↦ some (err einval, u)
  | some key ↦ elim r.output [
    | none ↦ some (err einval, u)
    | some value ↦ serve fuel action key value r.fresh u
  ]
]

unfoldable pub by_action : ℕ → Option IndexAction → Request → Userdata → Answer
unfolding handle rebuilt
by_action fuel none r u = some (err enosys, u)
by_action fuel (some rebuild) r u =
    rebuilt u.broken (mphf_chm_imp_rebuild fuel r.random1 r.random2 u.mphf)
by_action fuel (some create) r u = handle fuel create r u
by_action fuel (some write) r u = handle fuel write r u
by_action fuel (some read) r u = handle fuel read r u
by_action fuel (some delete) r u = handle fuel delete r u
by_action fuel (some other) r u = handle fuel other r u

unfoldable pub mphf_handler : ℕ → Request → Userdata → Answer
unfolding by_action
mphf_handler fuel r u = by_action fuel r.action r u

-- The answers to requests in their order, and the state behind them.
unfoldable pub mphf_session : ℕ → List Request → Userdata → Option (List (Result ℕ) × Userdata)
unfolding mphf_handler
mphf_session fuel [] u = some ([], u)
mphf_session fuel (r ∷ rs) u = elim (mphf_handler fuel r u) [
  | none ↦ none
  | some (a, u') ↦ elim (mphf_session fuel rs u') [
    | none ↦ none
    | some (as_list, u'') ↦ some (a ∷ as_list, u'')
  ]
]
