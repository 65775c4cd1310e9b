-- ===== src/Query/Dispatch.antt =====
-- Which handler `data_query` finds.
pub mod Answered
use frozen.Base.{
  subst, if◌then◌else◌, ℕ, zero, suc, ◌%◌, ◌^◌, ◌≤◌, ◌<◌, ◌≡◌, ◌≢◌, refl, ◌⊎◌, inl, inr, true,
  false, Option, none, some, List, [], ◌∷◌, arith, ltb, leb, ◌==◌, ◌||◌, length, get_elem?, Result,
  ok, err, fault, einval, enosys, Bool-cases, Option-cases, ap, ◌∙◌, sym,
}
use frozen.Query.{
  ApiType, api_default_handler, entry, or_enosys, api_handlers, Proto, Header, proto_func,
  find_func, invalid_type, data_query,
}

pub get_elem?-inside :
    {A : Type 0} (xs : List A) (i : ℕ) → i < length xs → (x : A) × (get_elem? xs i ≡ some x)
get_elem?-inside [] i h = absurd (omega (arith, h))
get_elem?-inside (x ∷ xs) zero h = (x, refl)
get_elem?-inside (x ∷ xs) (suc i) h = get_elem?-inside xs i (omega (arith, h))

pub get_elem?-outside : {A : Type 0} (xs : List A) (i : ℕ) → length xs ≤ i → get_elem? xs i ≡ none
get_elem?-outside [] i h = refl
get_elem?-outside (x ∷ xs) zero h = absurd (omega (arith, h))
get_elem?-outside (x ∷ xs) (suc i) h = get_elem?-outside xs i (omega (arith, h))

pub inside-get_elem? :
    {A : Type 0} (xs : List A) (i : ℕ) (x : A) → get_elem? xs i ≡ some x → i < length xs
inside-get_elem? [] i x e = absurd (cc e)
inside-get_elem? (y ∷ xs) zero x e = omega arith
inside-get_elem? (y ∷ xs) (suc i) x e = omega (arith, inside-get_elem? xs i x e)

table_func :
    {F : Type 0} (proto : Proto F) (action : ℕ)
    → proto.api_type ≡ api_handlers
    → proto_func proto action ≡ entry (get_elem? proto.handlers action)
unfolding proto_func
table_func proto action e = rw (e, proto_func)

module _ {F : Type 0} (type_invalid type_default : ℕ) (data_protos : List (Proto F))
    (fastcall_nargs : List ℕ) where
  pub query : Option ℕ → Option Header → Result F
  query = data_query type_invalid type_default data_protos fastcall_nargs

  pub find : Proto F → ℕ → Result F
  find = find_func type_invalid type_default data_protos fastcall_nargs

  pub find-own :
      (proto : Proto F) (action : ℕ) (func : F)
      → proto_func proto action ≡ ok (some func)
      → find proto action ≡ ok func
  unfolding find find_func
  find-own proto action func e = rw (e, find_func)

  find-out :
      (proto : Proto F) (action : ℕ) → proto_func proto action ≡ fault → find proto action ≡ fault
  unfolding find find_func
  find-out proto action e = rw (e, find_func)

  pub find-inherited :
      (proto default : Proto F) (action : ℕ)
      → proto_func proto action ≡ ok none
      → get_elem? data_protos type_default ≡ some default
      → find proto action ≡ or_enosys (entry (get_elem? default.handlers action))
  unfolding find find_func
  find-inherited proto default action e d = rw (e, d, find_func)

  -- What is left of `data_query` where the handler is found.
  pub check : Header → Result F → Result F
  check fargs r = elim r [
    | err e ↦ err e
    | fault ↦ fault
    | ok func ↦ elim (get_elem? fastcall_nargs fargs.action) [
      | none ↦ fault
      | some nargs ↦ if ltb fargs.nargs nargs then err einval else ok func
    ]
  ]

  pub query-found :
      (type : ℕ) (fargs : Header) (proto : Proto F)
      → (invalid_type type_invalid type_default data_protos fastcall_nargs type
          || ltb fargs.nargs 2)
        ≡ false
      → get_elem? data_protos type ≡ some proto
      → query (some type) (some fargs) ≡ check fargs (find proto fargs.action)
  unfolding query find data_query check
  query-found type fargs proto e p = rw (e, p, data_query)

  query-few :
      (type : ℕ) (fargs : Header)
      → ltb fargs.nargs 2 ≡ true
      → query (some type) (some fargs) ≡ err einval
  unfolding query data_query
  query-few type fargs few =
      let g : (invalid_type type_invalid type_default data_protos fastcall_nargs type
            || ltb fargs.nargs 2)
          ≡ true =
        ground arith in
      rw (g, data_query)

  guard_passes :
      (type : ℕ) (fargs : Header)
      → type < 2 ^ 32
      → type ≢ type_invalid
      → type < length data_protos
      → ltb fargs.nargs 2 ≡ false
      → (invalid_type type_invalid type_default data_protos fastcall_nargs type
          || ltb fargs.nargs 2)
        ≡ false
  unfolding invalid_type
  guard_passes type fargs small valid inside enough = ground arith

  find-same :
      (proto default : Proto F) (action : ℕ)
      → proto_func proto action ≡ ok none
      → get_elem? data_protos type_default ≡ some default
      → default.api_type ≡ api_handlers
      → find proto action ≡ find default action
  find-same proto default action own d table =
      let e = table_func default action table in
      let inherited = find-inherited proto default action own d in
      elim (Option-cases (get_elem? default.handlers action)) [
        | inl out ↦ inherited ∙ rw out (sym (find-out default action (e ∙ rw out)))
        | inr (none, there) ↦
            inherited ∙ sym (find-inherited default default action (e ∙ rw there) d)
        | inr (some func, there) ↦
            inherited ∙ rw there (sym (find-own default action func (e ∙ rw there)))
      ]

  -- An action that is not below the size of a type's table is not refused: with two arguments or more,
  -- and a valid type that has a table, it is read behind the end of the table.
  pub data_query-unchecked :
      (type : ℕ) (fargs : Header) (proto : Proto F)
      → type < 2 ^ 32
      → type ≢ type_invalid
      → get_elem? data_protos type ≡ some proto
      → proto.api_type ≡ api_handlers
      → length proto.handlers ≤ fargs.action
      → ltb fargs.nargs 2 ≡ false
      → data_query type_invalid type_default data_protos fastcall_nargs (some type) (some fargs)
        ≡ fault
  unfolding query check
  data_query-unchecked type fargs proto small valid p table out enough =
      let inside = inside-get_elem? data_protos type proto p in
      let outside = get_elem?-outside proto.handlers fargs.action out in
      query-found type fargs proto (guard_passes type fargs small valid inside enough) p
      ∙ ap (check fargs)
          (find-out proto fargs.action (table_func proto fargs.action table ∙ rw outside))

  -- Where the entry of a type for an action is NULL, `data_query` answers exactly as for the default type,
  -- and reads behind the end of a table exactly where it does so for the default type. Both
  -- types are below 2 ^ 32, in the table and valid, and the default type has a table of handlers.
  pub data_query-inherited :
      (type : ℕ) (fargs : Header) (proto default : Proto F)
      → type < 2 ^ 32
      → type_default < 2 ^ 32
      → type ≢ type_invalid
      → type_default ≢ type_invalid
      → get_elem? data_protos type ≡ some proto
      → get_elem? data_protos type_default ≡ some default
      → proto_func proto fargs.action ≡ ok none
      → default.api_type ≡ api_handlers
      → data_query type_invalid type_default data_protos fastcall_nargs (some type) (some fargs)
        ≡ data_query type_invalid type_default data_protos fastcall_nargs
            (some type_default)
            (some fargs)
  unfolding query
  data_query-inherited type fargs proto default small small' valid valid' p d own table =
      let in_table = inside-get_elem? data_protos type proto p in
      let in_table' = inside-get_elem? data_protos type_default default d in
      elim (Bool-cases (ltb fargs.nargs 2)) [
        | inl few ↦ query-few type fargs few ∙ sym (query-few type_default fargs few)
        | inr enough ↦
            query-found type fargs proto (guard_passes type fargs small valid in_table enough) p
            ∙ ap (check fargs) (find-same proto default fargs.action own d table)
            ∙ sym (
                query-found type_default fargs default
                  (guard_passes type_default fargs small' valid' in_table' enough) d)
      ]

  -- The cast of the type to 32 bits lets a type that is behind the end of the table, and is not the
  -- invalid one, pass the guard if its low 32 bits are in the table and two arguments are given;
  -- the table is then read behind its end.
  pub data_query-truncated :
      (type : ℕ) (fargs : Header)
      → type ≢ type_invalid
      → length data_protos ≤ type
      → type % 2 ^ 32 < length data_protos
      → 2 ≤ fargs.nargs
      → data_query type_invalid type_default data_protos fastcall_nargs (some type) (some fargs)
        ≡ fault
  unfolding data_query invalid_type
  data_query-truncated type fargs valid out low n =
      let g : ((type == type_invalid)
            || leb (length data_protos) (type % 2 ^ 32)
            || ltb fargs.nargs 2)
          ≡ false =
        ground arith in
      rw (g, get_elem?-outside data_protos type out)
