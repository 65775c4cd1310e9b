-- ===== src/Uint/Types.antt =====
-- The unsigned types of src/libfrozen/data/uint: each file is the template at the size of its type.
use native.Mathlib.Nat.{pow-le-pow_right}
use frozen.Base.{
  ◌*◌, ◌∙◌, ap₂, ap, sym, ℕ, ◌≡◌, ◌<◌, ◌≤◌, ◌⊎◌, inl, inr, refl, Bool, Option, some, List, Result,
  ok, arith,
}
use frozen.Uint.{
  modulus, Action, action_add, action_multiply, Format, uint_len, uint_alloc, uint_compare,
  uint_arith, uint_arith_no_arg, uint_convert_to, uint_convert_from, uint_is_null,
}
use frozen.Uint.Arith.{Computed, uint_arith-Computed}

-- The handlers of a type, as its `data_proto_t` lists them.
pub record UintProto : Type 0 where
  pub alloc : Option ℕ → Result ℕ
  pub physicallen : ℕ
  pub logicallen : ℕ
  pub compare : ℕ → Option ℕ → Result ℕ
  pub arith_two : Action → ℕ → Option ℕ → ℕ × Result (Unit {0})
  pub arith_no_arg : Action → ℕ → ℕ × Result (Unit {0})
  pub convert_to : Option (List ℕ → Result ℕ) → Format → ℕ → Result ℕ
  pub convert_from :
      (List ℕ → ℕ)
      → Option ℕ
      → Option (ℕ → Result (List ℕ))
      → Format
      → Option ℕ
      → Option ℕ × Result (Unit {0})
  pub is_null : Option ℕ → Bool

-- The table at `k` bytes.
abbrev proto_of : ℕ → UintProto
proto_of k = record {
  alloc = uint_alloc k;
  physicallen = uint_len k;
  logicallen = uint_len k;
  compare = uint_compare k;
  arith_two = uint_arith k;
  arith_no_arg = uint_arith_no_arg k;
  convert_to = uint_convert_to k;
  convert_from = uint_convert_from k;
  is_null = uint_is_null k;
}

unfoldable pub uint8_t_proto : UintProto
uint8_t_proto = proto_of 1

unfoldable pub uint16_t_proto : UintProto
uint16_t_proto = proto_of 2

unfoldable pub uint32_t_proto : UintProto
uint32_t_proto = proto_of 4

unfoldable pub uint64_t_proto : UintProto
uint64_t_proto = proto_of 8

-- `uint_t` is `uintmax_t`.
unfoldable pub uint_t_proto : UintProto
uint_t_proto = proto_of 8

unfoldable pub size_t_proto : UintProto
size_t_proto = proto_of 8

-- The entries of `data_protos` for these types.
pub data UintType : Type 0 where
  type_uint8t type_uint16t type_uint32t type_uint64t type_uintt type_sizet : UintType

unfoldable pub uint_protos : UintType → UintProto
unfolding uint8_t_proto uint16_t_proto uint32_t_proto uint64_t_proto uint_t_proto size_t_proto
uint_protos type_uint8t = uint8_t_proto
uint_protos type_uint16t = uint16_t_proto
uint_protos type_uint32t = uint32_t_proto
uint_protos type_uint64t = uint64_t_proto
uint_protos type_uintt = uint_t_proto
uint_protos type_sizet = size_t_proto

-- The arithmetic of a type is the template's at the length that the type reports.
arith_two-template :
    (t : UintType) → (uint_protos t).arith_two ≡ uint_arith ((uint_protos t).physicallen)
unfolding uint_protos uint_len
arith_two-template type_uint8t = refl
arith_two-template type_uint16t = refl
arith_two-template type_uint32t = refl
arith_two-template type_uint64t = refl
arith_two-template type_uintt = refl
arith_two-template type_sizet = refl

module _ (n w : ℕ) (le : n ≤ w) (a b : ℕ) where
  modulus-le : modulus n ≤ modulus w
  modulus-le = pow-le-pow_right {n = 2} (omega arith) {i = 8 * n} {j = 8 * w} (omega (arith, le))

  add_same :
      (out out' : ℕ × Result (Unit {0}))
      → Computed n action_add a b out
      → Computed w action_add a b out'
      → out.1 ≡ ok tt
      → out' ≡ out
  add_same (v, r) (v', r') (inr (bad, _)) c' fine = absurd (cc (bad, fine))
  add_same (v, r) (v', r') (inl (_, e, lt)) (inr (_, e')) fine =
      absurd (omega (arith, lt, e', modulus-le))
  add_same (v, r) (v', r') (inl (_, e, lt)) (inl (r_ok, e', _)) fine =
      ap₂ (λ x y. (x, y)) (e' ∙ sym e) (r_ok ∙ sym fine)

  multiply_same :
      (out out' : ℕ × Result (Unit {0}))
      → Computed n action_multiply a b out
      → Computed w action_multiply a b out'
      → out.1 ≡ ok tt
      → out' ≡ out
  multiply_same (v, r) (v', r') (inr (bad, _, _)) c' fine = absurd (cc (bad, fine))
  multiply_same (v, r) (v', r') (inl (_, e, lt)) (inr (_, _, big)) fine =
      absurd (omega (arith, lt, big, modulus-le))
  multiply_same (v, r) (v', r') (inl (_, e, lt)) (inl (r_ok, e', _)) fine =
      ap₂ (λ x y. (x, y)) (e' ∙ sym e) (r_ok ∙ sym fine)

  template_same :
      (action : Action)
      → (action ≡ action_add) ⊎ (action ≡ action_multiply)
      → a < modulus n
      → b < modulus n
      → (uint_arith n action a (some b)).1 ≡ ok tt
      → uint_arith w action a (some b) ≡ uint_arith n action a (some b)
  template_same action which ha hb fine =
      let ha' : a < modulus w = omega (arith, ha, modulus-le) in
      let hb' : b < modulus w = omega (arith, hb, modulus-le) in
      elim which [
        | inl e ↦
            let fine' : (uint_arith n action_add a (some b)).1 ≡ ok tt = rw (sym e) fine in
            rw e (
              add_same _ _ (uint_arith-Computed n action_add a b (inl refl) ha hb)
                (uint_arith-Computed w action_add a b (inl refl) ha' hb') fine')
        | inr e ↦
            let fine' : (uint_arith n action_multiply a (some b)).1 ≡ ok tt = rw (sym e) fine in
            rw e (
              multiply_same _ _
                (uint_arith-Computed n action_multiply a b (inr (inr (inl refl))) ha hb)
                (uint_arith-Computed w action_multiply a b (inr (inr (inl refl))) ha' hb') fine')
      ]

-- A sum or a product of two words that fit one unsigned type, which the type computes without an
-- error, is what every type that is no shorter computes, without an error too.
pub arith-widened :
    (narrow wide : UintType) (action : Action) (a b : ℕ)
    → (action ≡ action_add) ⊎ (action ≡ action_multiply)
    → (uint_protos narrow).physicallen ≤ (uint_protos wide).physicallen
    → a < modulus ((uint_protos narrow).physicallen)
    → b < modulus ((uint_protos narrow).physicallen)
    → ((uint_protos narrow).arith_two action a (some b)).1 ≡ ok tt
    → (uint_protos wide).arith_two action a (some b)
      ≡ (uint_protos narrow).arith_two action a (some b)
arith-widened narrow wide action a b which le ha hb fine =
    let n = (uint_protos narrow).physicallen in
    let w = (uint_protos wide).physicallen in
    let f : (uint_arith n action a (some b)).1 ≡ ok tt =
      ap (λ (g : Action → ℕ → Option ℕ → ℕ × Result (Unit {0})). (g action a (some b)).1)
        (sym (arith_two-template narrow))
      ∙ fine in
    ap (λ (g : Action → ℕ → Option ℕ → ℕ × Result (Unit {0})). g action a (some b))
      (arith_two-template wide)
    ∙ template_same n w le a b action which ha hb f
    ∙ ap (λ (g : Action → ℕ → Option ℕ → ℕ × Result (Unit {0})). g action a (some b))
        (sym (arith_two-template narrow))
