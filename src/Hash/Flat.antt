-- ===== src/Hash/Flat.antt =====
-- A hash as the list of its pairs, and `hash_find` as the lookup of the first one.
use mathlib.Core.List.{append-nil}
use frozen.Base.{
  lt→leb, uint_max, ℕ, zero, suc, ◌/◌, ◌^◌, ◌<◌, ◌≡◌, refl, inl, inr, true, false, Option, none,
  some, List, [], ◌∷◌, ◌++◌, ◌==◌, if◌then◌else◌, arith, Bool-cases, ap, ◌∙◌, if-intro,
}
use frozen.Hash.{
  sizeof_hash, Data, key_null, key_end, key_inline, HashT, HashRef, item, inline, end, null, ref,
  or_else, hash_find, find_in, hash_data_find, hash_new, nulls, count_items, hash_nelements,
}

abbrev pub Pairs : Type 0
Pairs = List (ℕ × Data)

-- The pairs in order, with each inline hash in its place and the next hash at the end.
unfoldable mutual
  pub flat : HashRef → Pairs
  flat null = []
  flat (ref h) = flat_in h

  pub flat_in : HashT → Pairs
  flat_in (item k d rest) = if k == key_null then flat_in rest else (k, d) ∷ flat_in rest
  flat_in (inline h rest) = flat h ++ flat_in rest
  flat_in (end next) = flat next

unfoldable pub lookup : ℕ → Pairs → Option Data
lookup key [] = none
lookup key ((k, d) ∷ pairs) = if k == key then some d else lookup key pairs

abbrev pub or_option : Option Data → Option Data → Option Data
or_option none b = b
or_option (some d) b = some d

pub lookup-append :
    (key : ℕ) (xs ys : Pairs) → lookup key (xs ++ ys) ≡ or_option (lookup key xs) (lookup key ys)
unfolding lookup
lookup-append key [] ys = refl
lookup-append key ((k, d) ∷ xs) ys = elim (Bool-cases (k == key)) [
  | inl hit ↦ rw hit
  | inr miss ↦ rw miss (lookup-append key xs ys)
]

-- Nothing is found, or an item with the key.
pub data Finds (key : ℕ) : HashRef → Option Data → Type 0 where
  nothing : {h : HashRef} {o : Option Data} → h ≡ null → o ≡ none → Finds key h o
  found :
      (d : Data) (rest : HashT) {h : HashRef} {o : Option Data}
      → h ≡ ref (item key d rest)
      → o ≡ some d
      → Finds key h o

-- The keys that a pair can have.
abbrev pub IsKey : ℕ → Type 0
IsKey key = key < key_inline

or-Finds :
    (key : ℕ) {h h' : HashRef} {o o' : Option Data}
    → Finds key h o
    → Finds key h' o'
    → Finds key (or_else h h') (or_option o o')
or-Finds key (nothing e f) g = rw (e, f) g
or-Finds key (found d rest e f) g = found d rest (rw e) (rw f)

module _ (key : ℕ) (is_key : IsKey key) where
  not_end : (key_end == key) ≡ false
  not_end = ground arith

  not_inline : (key_inline == key) ≡ false
  not_inline = ground arith

  null_not : (key_null == key) ≡ false
  null_not = ground arith

  hit_not_null : (k : ℕ) → (k == key) ≡ true → (k == key_null) ≡ false
  hit_not_null k h = ground arith

  item-Finds :
      (k : ℕ) (d : Data) (rest : HashT)
      → Finds key (find_in rest key) (lookup key (flat_in rest))
      → Finds key (find_in (item k d rest) key) (lookup key (flat_in (item k d rest)))
  unfolding hash_find lookup flat
  item-Finds k d rest f = elim (Bool-cases (k == key)) [
    | inl hit ↦
        let e : k ≡ key = ground arith in rw (hit_not_null k hit, hit) (found d rest (rw e) refl)
    | inr miss ↦ rw miss (
        if-intro (λ (t : Pairs). Finds key (find_in rest key) (lookup key t)) (k == key_null)
          (λ _. f) (λ _. rw miss f))
  ]

  mutual
    unfolding hash_find lookup flat

    find-Finds : (h : HashRef) → Finds key (hash_find h key) (lookup key (flat h))
    find-Finds null = nothing refl refl
    find-Finds (ref h) = in-Finds h

    in-Finds : (h : HashT) → Finds key (find_in h key) (lookup key (flat_in h))
    in-Finds (item k d rest) = item-Finds k d rest (in-Finds rest)
    in-Finds (inline h rest) =
        rw (not_inline, lookup-append key (flat h) (flat_in rest))
          (or-Finds key (find-Finds h) (in-Finds rest))
    in-Finds (end next) = rw not_end (find-Finds next)

data_found :
    (key : ℕ) (h : HashRef) (o : Option Data)
    → Finds key (hash_find h key) o
    → hash_data_find h key ≡ o
unfolding hash_data_find
data_found key h o (nothing e f) = rw (e, f, hash_data_find)
data_found key h o (found d rest e f) = rw (e, f, hash_data_find)

-- For the key of a pair, `hash_data_find` is the first pair with the key among the pairs of the hash in
-- order, with each inline hash in its place, and the next hash at the end.
pub hash_data_find-lookup :
    (key : ℕ) (h : HashRef) → IsKey key → hash_data_find h key ≡ lookup key (flat h)
hash_data_find-lookup key h k = data_found key h _ (find-Finds key k h)

-- A pair in front of an inline hash reassigns its key and no other: the idiom of a new request around an
-- old one.
pub hash_find_reassigned :
    (key k : ℕ) (d : Data) (old : HashRef)
    → IsKey key
    → IsKey k
    → hash_data_find (ref (item k d (inline old (end null)))) key
      ≡ (if k == key then some d else hash_data_find old key)
unfolding flat lookup
hash_find_reassigned key k d old is_key is_k =
    let n : (k == key_null) ≡ false = ground arith in
    hash_data_find-lookup key (ref (item k d (inline old (end null)))) is_key
    ∙ rw (n, append-nil (flat old), hash_data_find-lookup key old is_key)

flat-nulls : (void n : ℕ) → flat_in (nulls void n) ≡ []
unfolding flat nulls
flat-nulls void zero = refl
flat-nulls void (suc n) = flat-nulls void n

count-nulls : (void n : ℕ) → count_items (nulls void n) ≡ n
unfolding count_items nulls
count-nulls void zero = refl
count-nulls void (suc n) = ap suc (count-nulls void n)

-- `hash_new` of a positive number of elements below 2^32 gives a hash of as many, in which the key
-- of no pair is found.
pub hash_new-empty :
    (void n key : ℕ)
    → suc n < 2 ^ 32
    → IsKey key
    → (h : HashT) × (hash_new void (suc n) ≡ some (ref h))
      × (hash_nelements (ref h) ≡ suc n)
      × (hash_data_find (ref h) key ≡ none)
unfolding hash_new hash_nelements flat lookup
hash_new-empty void n key lt k = (
  nulls void n,
  rw (lt→leb (uint_max / sizeof_hash) (suc n) (omega (arith, lt))),
  omega (arith, count-nulls void n, lt),
  hash_data_find-lookup key (ref (nulls void n)) k ∙ ap (lookup key) (flat-nulls void n),
)
