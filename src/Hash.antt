-- ===== src/Hash.antt =====
-- src/libfrozen/core/hash.c: arrays of key-value pairs with inline hashes and a next hash. A pointer to an
-- item is the rest of its array, so a HashT is both an array and a place in one.
pub mod Flat
pub mod Visit
pub mod Copy
mod Tests
use frozen.Base.{
  ℕ, zero, suc, ◌+◌, ◌-◌, ◌*◌, ◌/◌, ◌%◌, ◌^◌, Bool, true, false, Option, none, some, ◌==◌, ◌&&◌,
  not, if◌then◌else◌, leb, uint_max,
}

-- `data_t`.
pub record Data : Type 0 where
  pub type : ℕ
  pub ptr : ℕ

-- `hash_ptr_null`, `hash_ptr_end` and `hash_ptr_inline`, as words.
abbrev pub key_null : ℕ
key_null = 2 ^ 64 - 1

abbrev pub key_end : ℕ
key_end = 2 ^ 64 - 2

abbrev pub key_inline : ℕ
key_inline = 2 ^ 64 - 3

-- `struct hash_t`: an item with a key that is neither `hash_ptr_end` nor `hash_ptr_inline`, an inline
-- item, or the end with the next hash. `hash_null` is an item with the key `hash_ptr_null`.
mutual
  pub data HashT : Type 0 where
    item : ℕ → Data → HashT → HashT
    inline : HashRef → HashT → HashT
    end : HashRef → HashT

  pub data HashRef : Type 0 where
    null : HashRef
    ref : HashT → HashRef

abbrev pub or_else : HashRef → HashRef → HashRef
or_else null h = h
or_else (ref h') h = ref h'

-- `hash_find`: the first item with the key, in the order of the array, an inline hash in its place and
-- the next hash behind the end.
unfoldable mutual
  pub hash_find : HashRef → ℕ → HashRef
  hash_find null key = null
  hash_find (ref h) key = find_in h key

  pub find_in : HashT → ℕ → HashRef
  find_in (item k d rest) key = if k == key then ref (item k d rest) else find_in rest key
  find_in (inline h rest) key =
      if key_inline == key
      then ref (inline h rest)
      else or_else (hash_find h key) (find_in rest key)
  find_in (end next) key = if key_end == key then ref (end next) else hash_find next key

-- `hash_data_find`, of an item: the `data` of the others is the hash that they hold.
unfoldable pub hash_data_find : HashRef → ℕ → Option Data
unfolding hash_find
hash_data_find h key = elim (hash_find h key) [
  | null ↦ none
  | ref (item k d rest) ↦ some d
  | ref (inline h' rest) ↦ none
  | ref (end next) ↦ none
]

-- What a callback of `hash_iter` returns.
pub data Iter : Type 0 where
  iter_ok iter_break iter_continue : Iter

-- `hash_iter_flags`.
pub record Flags : Type 0 where
  pub with_null : Bool
  pub with_end : Bool
  pub with_inline : Bool

abbrev pub is_ok : Iter → Bool
is_ok iter_ok = true
is_ok _ = false

abbrev pub is_continue : Iter → Bool
is_continue iter_continue = true
is_continue _ = false

-- The rest of the walk, made only if the callback says ITER_CONTINUE.
abbrev pub after {ℓ} : {S : Type ℓ} → Iter × S → (S → Iter × S) → Iter × S
after (r, s) k = if is_continue r then k s else (r, s)

abbrev pub after_inline {ℓ} : {S : Type ℓ} → Iter × S → (S → Iter × S) → Iter × S
after_inline (r, s) k = if is_ok r then k s else (r, s)

-- `hash_iter` with the callback's `arg` as a state.
module _ {S : Type 0} (func : HashT → S → Iter × S) (flags : Flags) where
  unfoldable mutual
    pub hash_iter : HashRef → S → Iter × S
    hash_iter null s = (iter_break, s)
    hash_iter (ref h) s = iter_in h s

    pub iter_in : HashT → S → Iter × S
    iter_in (item k d rest) s =
        if (k == key_null) && not flags.with_null
        then iter_in rest s
        else after (func (item k d rest) s) (iter_in rest)
    iter_in (inline null rest) s = iter_in rest s
    iter_in (inline (ref h) rest) s =
        after (if flags.with_inline then func (inline (ref h) rest) s else (iter_continue, s))
          (λ s'. after_inline (iter_in h s') (iter_in rest))
    iter_in (end null) s =
        if flags.with_end then after (func (end null) s) (λ s'. (iter_ok, s')) else (iter_ok, s)
    iter_in (end (ref h)) s = iter_in h s

-- `hash_nelements`: the items before the end and the end, counted in an `unsigned int`, which wraps.
unfoldable pub count_items : HashT → ℕ
count_items (item k d rest) = suc (count_items rest)
count_items (inline h rest) = suc (count_items rest)
count_items (end next) = 0

unfoldable pub hash_nelements : HashRef → ℕ
unfolding count_items
hash_nelements null = 0
hash_nelements (ref h) = (count_items h + 1) % 2 ^ 32

-- `hash_copy`, where `malloc` succeeds and no array has 2^32 - 1 used items or more, so that the counter
-- of the items that it allocates does not wrap; with what ACTION_COPY makes of a data holder as a parameter. An
-- inline hash is itself copied, by the handler that data/hash_t has for ACTION_COPY.
module _ (copy : Data → Data) where
  unfoldable mutual
    pub hash_copy : HashRef → HashRef
    hash_copy null = null
    hash_copy (ref h) = ref (copy_in h)

    pub copy_in : HashT → HashT
    copy_in (item k d rest) = if k == key_null then copy_in rest else item k (copy d) (copy_in rest)
    copy_in (inline h rest) = inline (hash_copy h) (copy_in rest)
    copy_in (end next) = end (hash_copy next)

-- `hash_assign_hash_null`, with the type of void data as a parameter, and the array that `hash_new`
-- fills.
unfoldable pub nulls : ℕ → ℕ → HashT
nulls void zero = end null
nulls void (suc n) = item key_null (record { type = void; ptr = 0 }) (nulls void n)

-- `sizeof(hash_t)`: a key and a data holder of two words.
abbrev pub sizeof_hash : ℕ
sizeof_hash = 24

-- `hash_new`, where `malloc` succeeds. The bound of the loop, `nelements - 1`, wraps at 0, and the loop
-- then runs over the block: `none`.
unfoldable pub hash_new : ℕ → ℕ → Option HashRef
unfolding nulls
hash_new void zero = none
hash_new void (suc n) =
    if leb (uint_max / sizeof_hash) (suc n) then some null else some (ref (nulls void n))
