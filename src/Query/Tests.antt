-- ===== src/Query/Tests.antt =====
-- A table of two types: the default type and one that has a single handler.
use frozen.Base.{
  subst, zero, suc, length, get_elem?, fault, ℕ, ◌≡◌, refl, none, some, List, [], ◌∷◌, arith, ok,
  err, enosys,
}
use frozen.Query.{Proto, Header, proto_func, api_handlers, data_query}
use frozen.Query.Dispatch.{data_query-inherited}
use frozen.Query.Dispatch.Answered.{HasTables, Answered, data_query-Answered}

abbrev default_proto : Proto ℕ
default_proto = record {
  api_type = api_handlers;
  handler_default = none;
  handlers = none ∷ some 10 ∷ some 20 ∷ none ∷ [];
}

abbrev own_proto : Proto ℕ
own_proto = record {
  api_type = api_handlers;
  handler_default = none;
  handlers = none ∷ some 11 ∷ none ∷ none ∷ [];
}

abbrev two_protos : List (Proto ℕ)
two_protos = default_proto ∷ own_proto ∷ []

abbrev three_args : List ℕ
three_args = 3 ∷ 3 ∷ 3 ∷ 3 ∷ []

abbrev call : ℕ → Header
call action = record { nargs = 3; action = action }

test_own : data_query 99 0 two_protos three_args (some 1) (some (call 1)) ≡ ok 11
unfolding data_query
test_own = refl

test_missing : data_query 99 0 two_protos three_args (some 1) (some (call 3)) ≡ err enosys
unfolding data_query
test_missing = refl

test_unchecked : data_query 99 0 two_protos three_args (some 1) (some (call 7)) ≡ fault
unfolding data_query
test_unchecked = refl

tables : HasTables 99 0 two_protos three_args 4
tables = record { default_type = omega arith; nargs_size = refl; handlers_size = sizes }
  where
    sizes :
        (i : ℕ) (proto : Proto ℕ) → get_elem? two_protos i ≡ some proto → length proto.handlers ≡ 4
    sizes zero proto e =
        let same : default_proto ≡ proto = cc e in subst (λ p. length p.handlers ≡ 4) same refl
    sizes (suc zero) proto e =
        let same : own_proto ≡ proto = cc e in subst (λ p. length p.handlers ≡ 4) same refl
    sizes (suc (suc i)) proto e = absurd (cc e)

data_query-Answered_example :
    Answered 99 0 two_protos three_args
      (data_query 99 0 two_protos three_args (some 1) (some (call 3)))
data_query-Answered_example =
    data_query-Answered 99 0 two_protos three_args 4 1 (some (call 3)) tables (omega arith)
      (omega arith)

own_missing : proto_func own_proto 2 ≡ ok none
unfolding proto_func
own_missing = refl

data_query-inherited_example :
    data_query 99 0 two_protos three_args (some 1) (some (call 2))
    ≡ data_query 99 0 two_protos three_args (some 0) (some (call 2))
data_query-inherited_example =
    data_query-inherited 99 0 two_protos three_args 1 (call 2) own_proto default_proto (omega arith)
      (omega arith) (omega arith) (omega arith) refl refl own_missing refl
