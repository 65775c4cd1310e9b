-- ===== src/Uint/Tests.antt =====
-- The unsigned types at four bytes.
use frozen.Base.{
  ◌<◌, ℕ, ◌≤◌, Option, ◌≡◌, refl, some, inl, [], ◌∷◌, arith, ok, err, eoverflow, length, true,
}
use frozen.Uint.{
  modulus, action_add, action_decrement, binary, to_bytes, uint_len, uint_is_null, uint_arith,
  uint_arith_no_arg, uint_convert_to, uint_convert_from,
}
use frozen.Uint.Types.{uint_protos, type_uint8t, type_uint64t, arith-widened}
use frozen.Uint.Arith.{Computed, uint_arith-Computed}
use frozen.Uint.Bytes.{uint_convert_to-from}
use frozen.Memory.{Memory, exact, alloc_malloc, memory_read, memory_write}
use frozen.Memory.Valid.{IsAllocated}

test_decrement : uint_arith_no_arg 4 action_decrement 0 ≡ (4294967295, err eoverflow)
unfolding uint_arith_no_arg
test_decrement = refl

test_len : uint_len 4 ≡ 4
unfolding uint_len
test_len = refl

test_is_null : uint_is_null 4 (some 0) ≡ true
unfolding uint_is_null
test_is_null = refl

uint_arith-Computed_example :
    Computed 4 action_add 4000000000 1000000000
      (uint_arith 4 action_add 4000000000 (some 1000000000))
uint_arith-Computed_example =
    uint_arith-Computed 4 action_add 4000000000 1000000000 (inl refl) (omega arith) (omega arith)

abbrev six_bytes : Memory
six_bytes = record {
  ptr = some (1 ∷ 2 ∷ 3 ∷ 4 ∷ 5 ∷ 6 ∷ []);
  ptr_size = 6;
  exact_size = 6;
  page_size = 0;
  zero_fill = true;
  type = exact;
  alloc = alloc_malloc;
}

six_bytes-IsAllocated : IsAllocated six_bytes
six_bytes-IsAllocated = record { has_block = refl; sized = refl; fits = omega arith; malloc = refl }

uint_convert_to-from_example :
    let (m', r) = memory_write six_bytes 0 (to_bytes 4 1000) in
    (uint_convert_to 4 (some (λ bytes. (memory_write six_bytes 0 bytes).1)) binary 1000 ≡ ok 4)
    × (uint_convert_from 4 length Option.none (some (memory_read m' 0)) binary (some 0)
        ≡ (some 1000, ok tt))
uint_convert_to-from_example =
    uint_convert_to-from 4 1000 six_bytes length Option.none 0 (omega arith) six_bytes-IsAllocated
      (omega arith)

widths-le : (uint_protos type_uint8t).physicallen ≤ (uint_protos type_uint64t).physicallen
unfolding uint_protos uint_len
widths-le = omega arith

fits_uint8 : (a : ℕ) → a ≤ 200 → a < modulus ((uint_protos type_uint8t).physicallen)
unfolding uint_protos uint_len
fits_uint8 a h = omega (arith, h)

small_sum : ((uint_protos type_uint8t).arith_two action_add 200 (some 50)).1 ≡ ok tt
unfolding uint_protos uint_arith
small_sum = refl

arith-widened_example :
    (uint_protos type_uint64t).arith_two action_add 200 (some 50)
    ≡ (uint_protos type_uint8t).arith_two action_add 200 (some 50)
arith-widened_example =
    arith-widened type_uint8t type_uint64t action_add 200 50 (inl refl) widths-le
      (fits_uint8 200 (omega arith)) (fits_uint8 50 (omega arith)) small_sum
