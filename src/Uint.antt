-- ===== src/Uint.antt =====
-- src/libfrozen/data/uint/uint32_t.c and the other files that the template uint.c.m4 makes for the
-- unsigned types: `k` is `sizeof` of the type, whose words are below 2 ^ (8 * k). `none` is a NULL
-- pointer. The machine is little-endian.
pub mod Arith
pub mod Bytes
pub mod Types
mod Tests
use frozen.Base.{
  ℕ, zero, suc, ◌+◌, ◌-◌, ◌*◌, ◌/◌, ◌%◌, ◌^◌, Bool, true, false, Option, none, some, List, [], ◌∷◌,
  ◌++◌, ltb, ◌==◌, if◌then◌else◌, take, replicate, Result, ok, err, fault, einval, enomem, enosys,
  efault, eoverflow, eof,
}

-- The `action` of a call, of the ones that the arithmetic handlers switch on.
pub data Action : Type 0 where
  action_add action_sub action_multiply action_divide action_increment action_decrement : Action

-- The `format` of a conversion, as the handlers switch on it.
pub data Format : Type 0 where
  clean binary human other_format : Format

-- A word of `n` bytes in memory, and the word that `n` bytes of memory hold.
unfoldable pub to_bytes : ℕ → ℕ → List ℕ
to_bytes zero v = []
to_bytes (suc n) v = v % 256 ∷ to_bytes n (v / 256)

unfoldable pub of_bytes : List ℕ → ℕ
of_bytes [] = 0
of_bytes (b ∷ bytes) = b + 256 * of_bytes bytes

module _ (k : ℕ) where
  abbrev pub modulus : ℕ
  modulus = 2 ^ (8 * k)

  -- `__MAX(type)`.
  abbrev pub type_max : ℕ
  type_max = modulus - 1

  unfoldable pub uint_len : ℕ
  uint_len = k

  -- `data_uint32_t_compare`: the number that is returned.
  unfoldable pub uint_compare : ℕ → Option ℕ → Result ℕ
  uint_compare a none = err einval
  uint_compare a (some b) = ok (if a == b then 0 else if ltb a b then 1 else 2)

  -- `data_uint32_t_arith`: the word that `data1` holds afterwards, and what is returned. At 16 bits the
  -- product is one of `int`; where it does not fit an `int`, it is taken to wrap.
  unfoldable pub uint_arith : Action → ℕ → Option ℕ → ℕ × Result (Unit {0})
  uint_arith action a none = (a, err einval)
  uint_arith action_add a (some b) =
      ((a + b) % modulus, if ltb (type_max - a) b then err eoverflow else ok tt)
  uint_arith action_sub a (some b) =
      ((a + modulus - b) % modulus, if ltb a (0 + b) then err eoverflow else ok tt)
  uint_arith action_multiply a (some b) =
      if b == 0
      then (0, ok tt)
      else ((a * b) % modulus, if ltb (type_max / b) a then err eoverflow else ok tt)
  uint_arith action_divide a (some b) = if b == 0 then (a, err einval) else (a / b, ok tt)
  uint_arith _ a (some b) = (a, err eof)

  -- `data_uint32_t_arith_no_arg`.
  unfoldable pub uint_arith_no_arg : Action → ℕ → ℕ × Result (Unit {0})
  uint_arith_no_arg action_increment a =
      ((a + 1) % modulus, if ltb (type_max - a) 1 then err eoverflow else ok tt)
  uint_arith_no_arg action_decrement a =
      ((a + modulus - 1) % modulus, if ltb a (0 + 1) then err eoverflow else ok tt)
  uint_arith_no_arg _ a = (a, err eof)

  -- `data_uint32_t_convert_to`: `dest` is what ACTION_WRITE at offset 0 of the destination returns, with
  -- the size written; the result is what is transferred.
  unfoldable pub uint_convert_to : Option (List ℕ → Result ℕ) → Format → ℕ → Result ℕ
  unfolding to_bytes
  uint_convert_to none format a = err einval
  uint_convert_to (some write) clean a = write (to_bytes k a)
  uint_convert_to (some write) binary a = write (to_bytes k a)
  uint_convert_to (some write) _ a = err enosys

  -- `data_uint32_t_alloc`: `memory` is the word that the new block holds, and `none` is a `malloc` that
  -- fails.
  unfoldable pub uint_alloc : Option ℕ → Result ℕ
  uint_alloc none = err enomem
  uint_alloc (some word) = ok word

  -- `data_uint32_t_is_null`.
  unfoldable pub uint_is_null : Option ℕ → Bool
  uint_is_null none = true
  uint_is_null (some a) = a == 0

  -- The word that ACTION_READ of the source makes: `read n` are the bytes, `n` at most, that it puts
  -- into the cleared buffer; `strtoul` of the buffer is the C library's.
  module _ (strtoul : List ℕ → ℕ) where
    unfoldable pub read_word : (ℕ → Result (List ℕ)) → Format → Result ℕ
    unfolding of_bytes
    read_word read human = elim (read 1023) [
      | ok bytes ↦ ok (strtoul bytes % modulus)
      | err e ↦ err efault
      | fault ↦ fault
    ]
    read_word read other_format = err enosys
    read_word read _ = elim (read k) [
      | ok bytes ↦ ok (of_bytes (take k (bytes ++ replicate k 0)))
      | err e ↦ err efault
      | fault ↦ fault
    ]

    -- `data_uint32_t_convert_from`: the word of `dst`, which is allocated if it is NULL and then stays
    -- so on an error, and the result.
    unfoldable pub uint_convert_from :
        Option ℕ → Option (ℕ → Result (List ℕ)) → Format → Option ℕ → Option ℕ × Result (Unit {0})
    unfolding read_word uint_alloc
    uint_convert_from memory none format dst = (dst, err einval)
    uint_convert_from memory (some read) format none = elim (uint_alloc memory) [
      | err e ↦ (none, err enomem)
      | fault ↦ (none, fault)
      | ok word ↦ elim (read_word read format) [
        | ok a ↦ (some a, ok tt)
        | err e ↦ (some word, err e)
        | fault ↦ (some word, fault)
      ]
    ]
    uint_convert_from memory (some read) format (some old) = elim (read_word read format) [
      | ok a ↦ (some a, ok tt)
      | err e ↦ (some old, err e)
      | fault ↦ (some old, fault)
    ]
