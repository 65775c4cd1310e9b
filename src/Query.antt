-- ===== src/Query.antt =====
-- src/libfrozen/core/data.c: `data_query`, which finds the handler of an action in the table of the data
-- type. A handler is a value of any type F; calling it is left to the caller. TYPE_INVALID,
-- TYPE_DEFAULTT, `data_protos` and `fastcall_nargs`, which the build generates, are parameters. The
-- tables are lists, and `fault` is a read behind the end of one.
pub mod Dispatch
mod Tests
use frozen.Base.{
  ℕ, ◌%◌, ◌^◌, Bool, true, false, Option, none, some, List, ltb, leb, ◌==◌, ◌||◌, if◌then◌else◌,
  length, get_elem?, Result, ok, err, fault, einval, enosys,
}

-- `data_api_type`.
pub data ApiType : Type 0 where
  api_default_handler api_handlers : ApiType

-- `data_proto_t`; `none` is a NULL handler.
pub record Proto (F : Type 0) : Type 0 where
  pub api_type : ApiType
  pub handler_default : Option F
  pub handlers : List (Option F)

-- `fastcall_header`.
pub record Header : Type 0 where
  pub nargs : ℕ
  pub action : ℕ

-- What a table holds for an action.
abbrev pub entry : {F : Type 0} → Option (Option F) → Result (Option F)
entry none = fault
entry (some func) = ok func

-- The second test of the handler for NULL.
abbrev pub or_enosys : {F : Type 0} → Result (Option F) → Result F
or_enosys (ok none) = err enosys
or_enosys (ok (some func)) = ok func
or_enosys (err e) = err e
or_enosys fault = fault

-- The `switch` on the type of the table. The action is an index that nothing has compared with the
-- size of the table.
unfoldable pub proto_func : {F : Type 0} → Proto F → ℕ → Result (Option F)
proto_func proto action = elim proto.api_type [
  | api_default_handler ↦ ok proto.handler_default
  | api_handlers ↦ entry (get_elem? proto.handlers action)
]

module _ {F : Type 0} (type_invalid type_default : ℕ) (data_protos : List (Proto F))
    (fastcall_nargs : List ℕ) where
  -- The handler, or else that of the default type.
  unfoldable pub find_func : Proto F → ℕ → Result F
  unfolding proto_func
  find_func proto action = elim (proto_func proto action) [
    | ok (some func) ↦ ok func
    | ok none ↦ elim (get_elem? data_protos type_default) [
      | none ↦ fault
      | some default ↦ or_enosys (entry (get_elem? default.handlers action))
    ]
    | err e ↦ err e
    | fault ↦ fault
  ]

  -- The guards of `data_query`; the cast to `unsigned` keeps 32 bits of the type.
  unfoldable pub invalid_type : ℕ → Bool
  invalid_type type = (type == type_invalid) || leb (length data_protos) (type % 2 ^ 32)

  -- `data_query` up to the call: `none` is a NULL pointer.
  unfoldable pub data_query : Option ℕ → Option Header → Result F
  unfolding find_func invalid_type
  data_query none fargs = err einval
  data_query (some type) none = err einval
  data_query (some type) (some fargs) =
      if invalid_type type || ltb fargs.nargs 2
      then err einval
      else elim (get_elem? data_protos type) [
        | none ↦ fault
        | some proto ↦ elim (find_func proto fargs.action) [
          | err e ↦ err e
          | fault ↦ fault
          | ok func ↦ elim (get_elem? fastcall_nargs fargs.action) [
            | none ↦ fault
            | some nargs ↦ if ltb fargs.nargs nargs then err einval else ok func
          ]
        ]
      ]
