-- ===== src/HashData.antt =====
-- src/libfrozen/data/hash/hash_t.c: the comparison and the copy of hashes as data. What data_query
-- answers for the data of two items is a parameter: `none` where it returns something else than 0, and
-- the result of the comparison where it returns 0.
pub mod Compared
pub mod Copied
mod Tests
use frozen.Base.{ℕ, zero, suc, Option, none, some, Result, ok, err, einval, efault}
use frozen.Hash.{
  Data, HashT, HashRef, item, inline, end, null, ref, hash_data_find, Iter, iter_ok, iter_break,
  iter_continue, hash_iter, hash_copy,
}
use frozen.Hash.Visit.{no_flags}

-- What a comparison came to, as the callback answers it and leaves it in `fargs->result`.
abbrev pub verdict : Option ℕ → ℕ → Iter × ℕ
verdict none result = (iter_break, 2)
verdict (some zero) result = (iter_continue, result)
verdict (some (suc r)) result = (iter_break, suc r)

-- Whether the walk over the first hash has come to its end.
abbrev pub walked : Iter × ℕ → ℕ
walked (iter_ok, result) = 0
walked (iter_break, result) = result
walked (iter_continue, result) = result

module _ (compare : Data → Data → Option ℕ) where
  -- The comparison of the data of a key with what the second hash has under the key.
  abbrev pub compare_found : Data → Option Data → Option ℕ
  compare_found d none = none
  compare_found d (some d2) = compare d d2

  -- The callback; `hash_iter` without flags calls it with items alone.
  unfoldable pub data_hash_t_compare_iter : HashRef → HashT → ℕ → Iter × ℕ
  unfolding hash_data_find
  data_hash_t_compare_iter hash2 (item k d rest) result =
      verdict (compare_found d (hash_data_find hash2 k)) result
  data_hash_t_compare_iter hash2 (inline h rest) result = (iter_break, 2)
  data_hash_t_compare_iter hash2 (end next) result = (iter_break, 2)

  -- `data2` is `none` where it is NULL or of another type than a hash. `result` is what the caller has
  -- in `fargs->result`.
  unfoldable pub data_hash_t_compare : HashRef → Option HashRef → ℕ → Result ℕ
  unfolding data_hash_t_compare_iter hash_iter
  data_hash_t_compare hash1 none result = err einval
  data_hash_t_compare null (some hash2) result = ok 0
  data_hash_t_compare (ref h) (some hash2) result =
      ok (walked (hash_iter (data_hash_t_compare_iter hash2) no_flags (ref h) result))

-- `data_hash_t_copy`, with what ACTION_COPY makes of a data holder as a parameter; the copy of NULL is
-- an error.
unfoldable pub data_hash_t_copy : (Data → Data) → HashRef → Result HashRef
unfolding hash_copy
data_hash_t_copy copy null = err efault
data_hash_t_copy copy (ref h) = ok (hash_copy copy (ref h))
