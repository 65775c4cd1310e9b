-- ===== src/Mphf/Broken.antt =====
-- The mark of mphf.c: from an insertion that closes a circle on, only a rebuild is done.
use frozen.Base.{
  arith, if-intro, ℕ, true, false, ◌≡◌, refl, sym, ◌∙◌, Option, none, some, List, [], ◌∷◌, map, err,
  ebadf,
}
use frozen.Mphf.{Chm, failed, mphf_chm_imp_insert}
use frozen.Mphf.Handler.{
  by_action, Answer, IndexAction, create, write, read, delete, rebuild, other, Request, Userdata,
  handle, mphf_handler, mphf_session,
}

-- A request with an action that is not a rebuild.
abbrev pub Plain : Option IndexAction → Type 0
Plain none = ⊥
Plain (some rebuild) = ⊥
Plain (some create) = Unit
Plain (some write) = Unit
Plain (some read) = Unit
Plain (some delete) = Unit
Plain (some other) = Unit

abbrev pub AllPlain : List Request → Type 0
AllPlain [] = Unit
AllPlain (r ∷ rs) = Plain r.action × AllPlain rs

handle_broken :
    (fuel : ℕ) (action : IndexAction) (r : Request) (u : Userdata)
    → u.broken ≡ true
    → handle fuel action r u ≡ some (err ebadf, u)
unfolding handle
handle_broken fuel action r u e =
    if-intro (λ (x : Answer). x ≡ some (err ebadf, u)) u.broken (λ _. refl) (λ f. cc (sym e ∙ f))

action_broken :
    (fuel : ℕ) (a : Option IndexAction) (r : Request) (u : Userdata)
    → Plain a
    → u.broken ≡ true
    → by_action fuel a r u ≡ some (err ebadf, u)
unfolding by_action
action_broken fuel none r u p e = absurd p
action_broken fuel (some rebuild) r u p e = absurd p
action_broken fuel (some create) r u p e = handle_broken fuel create r u e
action_broken fuel (some write) r u p e = handle_broken fuel write r u e
action_broken fuel (some read) r u p e = handle_broken fuel read r u e
action_broken fuel (some delete) r u p e = handle_broken fuel delete r u e
action_broken fuel (some other) r u p e = handle_broken fuel other r u e

handler_broken :
    (fuel : ℕ) (r : Request) (u : Userdata)
    → Plain r.action
    → u.broken ≡ true
    → mphf_handler fuel r u ≡ some (err ebadf, u)
unfolding mphf_handler
handler_broken fuel r u p e = action_broken fuel r.action r u p e

session_broken :
    (fuel : ℕ) (rs : List Request) (u : Userdata)
    → AllPlain rs
    → u.broken ≡ true
    → mphf_session fuel rs u ≡ some (map (λ r. err ebadf) rs, u)
unfolding mphf_session
session_broken fuel [] u p e = refl
session_broken fuel (r ∷ rs) u p e =
    rw (handler_broken fuel r u p.0 e, session_broken fuel rs u p.1 e, mphf_session) refl

create_fails :
    (fuel : ℕ) (r : Request) (u : Userdata) (key value : ℕ) (c : Chm)
    → r.action ≡ some create
    → r.input ≡ some key
    → r.output ≡ some value
    → u.broken ≡ false
    → mphf_chm_imp_insert fuel r.fresh key value u.mphf ≡ failed ebadf c
    → mphf_handler fuel r u ≡ some (err ebadf, record { mphf = c; broken = true })
unfolding mphf_handler
create_fails fuel r u key value c a i o b f = ground arith

-- Once a create request of a key comes to an insertion that answers EBADF, it and all requests behind
-- it answer EBADF, if each of them names an action and none of them a rebuild; and the index stays as
-- that insertion has left it.
pub mphf_session-broken :
    (fuel : ℕ) (r : Request) (rs : List Request) (u : Userdata) (key value : ℕ) (c : Chm)
    → r.action ≡ some create
    → r.input ≡ some key
    → r.output ≡ some value
    → u.broken ≡ false
    → mphf_chm_imp_insert fuel r.fresh key value u.mphf ≡ failed ebadf c
    → AllPlain rs
    → mphf_session fuel (r ∷ rs) u
      ≡ some (err ebadf ∷ map (λ r. err ebadf) rs, record { mphf = c; broken = true })
unfolding mphf_session
mphf_session-broken fuel r rs u key value c a i o b f p =
    let first = create_fails fuel r u key value c a i o b f in
    let rest = session_broken fuel rs (record { mphf = c; broken = true }) p refl in
    rw (first, rest, mphf_session) refl
