-- ===== src/Query/Dispatch/Answered.antt =====
-- The answers of `data_query`, where its tables have a place for the action.
use frozen.Base.{
  subst, ℕ, ◌^◌, ◌<◌, ◌≡◌, refl, ◌⊎◌, inl, inr, false, Option, none, some, List, arith, ltb, ◌||◌,
  length, get_elem?, Result, ok, err, einval, enosys, Bool-cases, sym,
}
use frozen.Query.{
  ApiType, api_default_handler, entry, or_enosys, api_handlers, Proto, Header, proto_func,
  invalid_type, data_query,
}
use frozen.Query.Dispatch.{
  get_elem?-inside, query, find, check, find-own, find-inherited, query-found,
}

api_type-cases : (t : ApiType) → (t ≡ api_default_handler) ⊎ (t ≡ api_handlers)
api_type-cases api_default_handler = inl refl
api_type-cases api_handlers = inr refl

func_cases :
    {F : Type 0} (r : Result (Option F)) (o : Option F)
    → r ≡ ok o
    → (r ≡ ok none) ⊎ ((func : F) × (r ≡ ok (some func)))
func_cases r none e = inl e
func_cases r (some func) e = inr (func, e)

-- An action below the size of the table has an entry, NULL or not.
own_func :
    {F : Type 0} (actions : ℕ) (proto : Proto F) (action : ℕ)
    → action < actions
    → length proto.handlers ≡ actions
    → (proto_func proto action ≡ ok none)
      ⊎ ((func : F) × (proto_func proto action ≡ ok (some func)))
unfolding proto_func
own_func actions proto action below size =
    let (h, there) = get_elem?-inside proto.handlers action (omega (arith, below, size)) in
    elim (api_type-cases proto.api_type) [
      | inl e ↦ func_cases _ proto.handler_default (rw (e, proto_func) refl)
      | inr e ↦ func_cases _ h (rw (e, there, proto_func) refl)
    ]

module _ {F : Type 0} (type_invalid type_default : ℕ) (data_protos : List (Proto F))
    (fastcall_nargs : List ℕ) where
  -- The answers that the comment of `data_query` names: a handler to call, EINVAL or ENOSYS.
  abbrev pub Answered : Result F → Type 0
  Answered r = ((func : F) × (r ≡ ok func)) ⊎ (r ≡ err einval) ⊎ (r ≡ err enosys)

  -- Every table has a place for each action below `actions`, which is ACTION_INVALID.
  pub record HasTables (actions : ℕ) : Type 0 where
    pub default_type : type_default < length data_protos
    pub nargs_size : length fastcall_nargs ≡ actions
    pub handlers_size :
        (i : ℕ) (proto : Proto F)
        → get_elem? data_protos i ≡ some proto
        → length proto.handlers ≡ actions

  -- The action of a call, if there is one, is below `actions`.
  abbrev pub IsBelow : ℕ → Option Header → Type 0
  IsBelow actions none = Unit {0}
  IsBelow actions (some fargs) = fargs.action < actions

  entry-Answered : (func : Option F) → Answered (or_enosys (ok func))
  entry-Answered none = inr (inr refl)
  entry-Answered (some func) = inl (func, refl)

  or_enosys-Answered :
      (actions action : ℕ) (proto : Proto F)
      → action < actions
      → length proto.handlers ≡ actions
      → Answered (or_enosys (entry (get_elem? proto.handlers action)))
  or_enosys-Answered actions action proto below size =
      let (func, there) = get_elem?-inside proto.handlers action (omega (arith, below, size)) in
      rw there (entry-Answered func)

  find-Answered :
      (actions type : ℕ) (proto : Proto F) (action : ℕ)
      → HasTables actions
      → action < actions
      → get_elem? data_protos type ≡ some proto
      → Answered (find type_invalid type_default data_protos fastcall_nargs proto action)
  find-Answered actions type proto action tables below p =
      let (default, d) = get_elem?-inside data_protos type_default tables.default_type in
      let inherited =
        or_enosys-Answered actions action default below
          (tables.handlers_size type_default default d) in
      elim (own_func actions proto action below (tables.handlers_size type proto p)) [
        | inl none_here ↦
            subst Answered
              (sym (
                find-inherited type_invalid type_default data_protos fastcall_nargs proto default
                  action none_here d))
              inherited
        | inr (func, e) ↦ inl (
          func,
          find-own type_invalid type_default data_protos fastcall_nargs proto action func e,
        )
      ]

  guard_false :
      (type : ℕ) (fargs : Header)
      → type < 2 ^ 32
      → (invalid_type type_invalid type_default data_protos fastcall_nargs type
          || ltb fargs.nargs 2)
        ≡ false
      → type < length data_protos
  unfolding invalid_type
  guard_false type fargs small e = ground arith

  check-Answered :
      (actions : ℕ) (fargs : Header) (r : Result F)
      → HasTables actions
      → fargs.action < actions
      → Answered r
      → Answered (check type_invalid type_default data_protos fastcall_nargs fargs r)
  unfolding check
  check-Answered actions fargs r tables below (inr (inl e)) = inr (inl (rw e))
  check-Answered actions fargs r tables below (inr (inr e)) = inr (inr (rw e))
  check-Answered actions fargs r tables below (inl (func, e)) =
      let (nargs, n) =
        get_elem?-inside fastcall_nargs fargs.action (omega (arith, below, tables.nargs_size)) in
      elim (Bool-cases (ltb fargs.nargs nargs)) [
        | inl few ↦ inr (inl (rw (e, check, n, few)))
        | inr enough ↦ inl (func, rw (e, check, n, enough))
      ]

  -- For a type below 2 ^ 32 and an action below ACTION_INVALID, which is the size of the tables, whatever
  -- the tables hold and however many arguments there are, `data_query` either finds a handler or answers
  -- EINVAL or ENOSYS, as long as the default type is in the table: it reads no table behind its end.
  pub data_query-Answered :
      (actions type : ℕ) (fargs : Option Header)
      → HasTables actions
      → IsBelow actions fargs
      → type < 2 ^ 32
      → Answered (data_query type_invalid type_default data_protos fastcall_nargs (some type) fargs)
  unfolding data_query query
  data_query-Answered actions type none tables below small = inr (inl refl)
  data_query-Answered actions type (some fargs) tables below small =
      elim (Bool-cases (
        invalid_type type_invalid type_default data_protos fastcall_nargs type
        || ltb fargs.nargs 2)) [
          | inl bad ↦ inr (inl (rw (bad, data_query)))
          | inr good ↦
              let (proto, p) =
                get_elem?-inside data_protos type (guard_false type fargs small good) in
              subst Answered
                (sym (
                  query-found type_invalid type_default data_protos fastcall_nargs type fargs proto
                    good p))
                (check-Answered actions fargs
                  (find type_invalid type_default data_protos fastcall_nargs proto fargs.action)
                  tables below (find-Answered actions type proto fargs.action tables below p))
        ]
