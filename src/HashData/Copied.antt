-- ===== src/HashData/Copied.antt =====
-- The comparison of a hash with its copy.
use frozen.Base.{
  ℕ, ◌≡◌, ◌≢◌, refl, sym, ◌∙◌, Option, some, [], ◌∷◌, ◌++◌, ◌==◌, ok, ap, true, false, subst, arith,
}
use mathlib.Core.Option
use frozen.Hash.{Data, HashT, HashRef, ref, hash_copy}
use frozen.Hash.Flat.{Pairs, flat, lookup, IsKey, hash_data_find-lookup}
use frozen.Hash.Copy.{hash_copy-lookup}
use frozen.HashData.{data_hash_t_compare, data_hash_t_copy, compare_found}
use frozen.HashData.Compared.{
  compared, Unequal, missing, unequal, equal, differs, data_hash_t_compare-Compared,
}

-- No pair has the key.
abbrev pub Lacks : ℕ → Pairs → Type 0
Lacks key [] = Unit
Lacks key ((k, d) ∷ pairs) = (k ≢ key) × Lacks key pairs

-- Each pair has a key of its own.
abbrev pub HasDistinctKeys : Pairs → Type 0
HasDistinctKeys [] = Unit
HasDistinctKeys ((k, d) ∷ pairs) = IsKey k × Lacks k pairs × HasDistinctKeys pairs

-- A key that no pair has is not that of a pair in the middle.
Lacks-middle :
    (key : ℕ) (xs : Pairs) (k : ℕ) (d : Data) (ys : Pairs) → Lacks key (xs ++ (k, d) ∷ ys) → k ≢ key
Lacks-middle key [] k d ys h = h.0
Lacks-middle key ((k', d') ∷ xs) k d ys h = Lacks-middle key xs k d ys h.1

-- Among pairs with keys of their own, each is found under its key.
lookup_distinct :
    (xs : Pairs) (k : ℕ) (d : Data) (ys : Pairs)
    → HasDistinctKeys (xs ++ (k, d) ∷ ys)
    → (lookup k (xs ++ (k, d) ∷ ys) ≡ some d) × IsKey k
unfolding lookup
lookup_distinct [] k d ys h = let e : (k == k) ≡ true = ground arith in (rw e refl, h.0)
lookup_distinct ((k', d') ∷ xs) k d ys (is_key, lacks, rest) =
    let n = Lacks-middle k' xs k d ys lacks in
    let e : (k' == k) ≡ false = ground (arith, n) in
    let (found, i) = lookup_distinct xs k d ys rest in (rw e found, i)

module _ (copy : Data → Data) (compare : Data → Data → Option ℕ)
    (copies : (d : Data) → compare d (copy d) ≡ some 0) where
  -- A pair of a hash whose keys are distinct compares as equal with the copy.
  compared-copy :
      (h : HashT) (xs : Pairs) (p : ℕ × Data) (ys : Pairs)
      → HasDistinctKeys (flat (ref h))
      → flat (ref h) ≡ xs ++ p ∷ ys
      → compared compare (hash_copy copy (ref h)) p ≡ some 0
  compared-copy h xs (k, d) ys distinct e =
      let (found, is_key) = lookup_distinct xs k d ys (subst HasDistinctKeys e distinct) in
      let here = hash_data_find-lookup k (ref h) is_key ∙ ap (lookup k) e ∙ found in
      let there = hash_copy-lookup copy k h is_key ∙ ap (Option.map copy) here in
      ap (compare_found compare d) there ∙ copies d

  Unequal-copy :
      (hash2 : HashRef) (p : ℕ × Data) {r : ℕ}
      → compared compare hash2 p ≡ some 0
      → Unequal compare hash2 p r
      → ⊥
  Unequal-copy hash2 p e (missing m z) = cc (sym e ∙ m)
  Unequal-copy hash2 p e (unequal n m z) = cc (sym e ∙ m)

  -- If data compares as equal with its copy, and no key of a hash is assigned twice, the hash has a copy
  -- and compares as equal with it.
  pub data_hash_t_copy-compare :
      (h : HashT) (result : ℕ)
      → HasDistinctKeys (flat (ref h))
      → (h' : HashRef) × (data_hash_t_copy copy (ref h) ≡ ok h')
        × (data_hash_t_compare compare (ref h) (some h') result ≡ ok 0)
  unfolding data_hash_t_copy
  data_hash_t_copy-compare h result distinct =
      let h' = hash_copy copy (ref h) in
      let (r, e, c) = data_hash_t_compare-Compared compare h' h result in
      elim c [
        | equal all z ↦ (h', refl, e ∙ ap ok z)
        | differs xs p ys s all u ↦
            absurd (Unequal-copy h' p (compared-copy h xs p ys distinct s) u)
      ]
