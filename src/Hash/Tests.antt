-- ===== src/Hash/Tests.antt =====
-- Hashes with an inline and a next hash.
use mathlib.Core.Option
use frozen.Base.{ℕ, ◌+◌, ◌≡◌, refl, some, arith}
use frozen.Hash.{
  Data, HashT, item, inline, end, null, ref, hash_data_find, Iter, iter_break, iter_continue,
  hash_iter, hash_nelements, hash_copy,
}
use frozen.Hash.Flat.{flat, lookup, hash_data_find-lookup}
use frozen.Hash.Visit.{no_flags, visit_all, hash_iter-visit_all}
use frozen.Hash.Copy.{used_items, IsSmall, hash_copy-find}

abbrev word : ℕ → Data
word n = record { type = 1; ptr = n }

abbrev old_request : HashT
old_request = item 1 (word 10) (item 2 (word 20) (end null))

abbrev request : HashT
request = item 2 (word 21) (inline (ref old_request) (item 3 (word 30) (end null)))

test_find : hash_data_find (ref request) 1 ≡ some (word 10)
unfolding hash_data_find
test_find = refl

hash_data_find-lookup_example : hash_data_find (ref request) 2 ≡ lookup 2 (flat (ref request))
hash_data_find-lookup_example = hash_data_find-lookup 2 (ref request) (omega arith)

abbrev add_up : ℕ → Data → ℕ → Iter × ℕ
add_up k d s = (iter_continue, s + d.ptr)

abbrev add_item : HashT → ℕ → Iter × ℕ
add_item (item k d rest) s = (iter_continue, s + d.ptr)
add_item (inline h rest) s = (iter_break, s)
add_item (end next) s = (iter_break, s)

hash_iter-visit_all_example :
    hash_iter add_item no_flags (ref request) 0 ≡ visit_all add_up (flat (ref request)) 0
hash_iter-visit_all_example =
    hash_iter-visit_all add_up add_item (λ k d rest s. refl) (λ k d s e. absurd (cc e)) request 0

request-IsSmall : IsSmall (ref request)
unfolding IsSmall used_items
request-IsSmall = (omega arith, ((omega arith, tt), tt))

hash_copy-find_example :
    (hash_data_find (hash_copy (λ d. d) (ref request)) 3
      ≡ Option.map (λ d. d) (hash_data_find (ref request) 3))
    × (hash_nelements (hash_copy (λ d. d) (ref request)) ≡ used_items request + 1)
hash_copy-find_example = hash_copy-find (λ d. d) 3 request (omega arith) request-IsSmall
