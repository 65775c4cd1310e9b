-- ===== src/HashData/Tests.antt =====
-- Comparisons of small hashes, where data is equal if its words are.
use frozen.Base.{true, ℕ, ◌≡◌, refl, Option, some, ◌==◌, if◌then◌else◌, ok, arith}
use frozen.Hash.{Data, HashT, HashRef, item, inline, end, null, ref}
use frozen.Hash.Flat.{flat}
use frozen.HashData.{data_hash_t_compare, data_hash_t_copy}
use frozen.HashData.Compared.{Compared, data_hash_t_compare-Compared}
use frozen.HashData.Copied.{HasDistinctKeys, data_hash_t_copy-compare}

abbrev word : ℕ → Data
word n = record { type = 1; ptr = n }

abbrev by_word : Data → Data → Option ℕ
by_word d d' = if d.ptr == d'.ptr then some 0 else some 1

by_word_same : (d : Data) → by_word d d ≡ some 0
by_word_same d = let e : (d.ptr == d.ptr) ≡ true = ground arith in rw e refl

abbrev old_request : HashT
old_request = item 1 (word 10) (item 2 (word 20) (end null))

abbrev new_request : HashT
new_request = item 2 (word 21) (inline (ref old_request) (end null))

abbrev longer : HashT
longer = item 3 (word 30) (inline (ref old_request) (end null))

-- A hash is equal to one that has more keys, and not the other way round.
test_part : data_hash_t_compare by_word (ref old_request) (some (ref longer)) 7 ≡ ok 0
unfolding data_hash_t_compare
test_part = refl

test_more : data_hash_t_compare by_word (ref longer) (some (ref old_request)) 7 ≡ ok 2
unfolding data_hash_t_compare
test_more = refl

-- A request that assigns a key again differs from itself.
test_self : data_hash_t_compare by_word (ref new_request) (some (ref new_request)) 0 ≡ ok 1
unfolding data_hash_t_compare
test_self = refl

old_request-HasDistinctKeys : HasDistinctKeys (flat (ref old_request))
unfolding flat
old_request-HasDistinctKeys =
    (omega arith, ((λ e. absurd (omega (arith, e))), tt), (omega arith, tt, tt))

data_hash_t_compare-Compared_example :
    (r : ℕ) × (data_hash_t_compare by_word (ref longer) (some (ref old_request)) 7 ≡ ok r)
    × Compared by_word (ref old_request) (flat (ref longer)) r
data_hash_t_compare-Compared_example =
    data_hash_t_compare-Compared by_word (ref old_request) longer 7

data_hash_t_copy-compare_example :
    (h' : HashRef) × (data_hash_t_copy (λ d. d) (ref old_request) ≡ ok h')
    × (data_hash_t_compare by_word (ref old_request) (some h') 7 ≡ ok 0)
data_hash_t_copy-compare_example =
    data_hash_t_copy-compare (λ d. d) by_word by_word_same old_request 7 old_request-HasDistinctKeys
