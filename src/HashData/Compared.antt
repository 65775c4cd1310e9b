-- ===== src/HashData/Compared.antt =====
-- The comparison of hashes against the list of the pairs of the first one.
use frozen.Base.{ℕ, zero, suc, ◌≡◌, ◌≢◌, refl, Option, none, some, [], ◌∷◌, ◌++◌, ok, ap}
use frozen.Hash.{Data, HashT, HashRef, ref, hash_data_find, Iter, iter_ok, after}
use frozen.Hash.Flat.{Pairs, flat}
use frozen.Hash.Visit.{visit_all, hash_iter-visit_all}
use frozen.HashData.{verdict, walked, compare_found, data_hash_t_compare_iter, data_hash_t_compare}

module _ (compare : Data → Data → Option ℕ) (hash2 : HashRef) where
  -- What the comparison of a pair with the second hash comes to.
  abbrev pub compared : ℕ × Data → Option ℕ
  compared (k, d) = compare_found compare d (hash_data_find hash2 k)

  -- Each of the pairs is in the second hash, with equal data.
  abbrev pub AllEqual : Pairs → Type 0
  AllEqual [] = Unit
  AllEqual (p ∷ pairs) = (compared p ≡ some 0) × AllEqual pairs

  -- What the first pair that differs makes of the result: 2 where its key is not in the second hash or
  -- where its data cannot be compared, and the result for its data otherwise.
  pub data Unequal (p : ℕ × Data) (r : ℕ) : Type 0 where
    missing : compared p ≡ none → r ≡ 2 → Unequal p r
    unequal : (n : ℕ) → compared p ≡ some (suc n) → r ≡ suc n → Unequal p r

  -- The verdict on some pairs: they are all in the second hash, or a first one of them is not.
  pub data Compared (pairs : Pairs) (r : ℕ) : Type 0 where
    equal : AllEqual pairs → r ≡ 0 → Compared pairs r
    differs :
        (before : Pairs) (p : ℕ × Data) (behind : Pairs)
        → pairs ≡ before ++ p ∷ behind
        → AllEqual before
        → Unequal p r
        → Compared pairs r

  abbrev visit : ℕ → Data → ℕ → Iter × ℕ
  visit k d result = verdict (compared (k, d)) result

  Compared-cons :
      (p : ℕ × Data) {pairs : Pairs} {r : ℕ}
      → compared p ≡ some 0
      → Compared pairs r
      → Compared (p ∷ pairs) r
  Compared-cons p e (equal all z) = equal (e, all) z
  Compared-cons p e (differs before q behind s all u) =
      differs (p ∷ before) q behind (ap (λ t. p ∷ t) s) (e, all) u

  visit_step :
      (p : ℕ × Data) (pairs : Pairs) (o : Option ℕ) (result : ℕ)
      → compared p ≡ o
      → Compared pairs (walked (visit_all visit pairs result))
      → Compared (p ∷ pairs) (walked (after (verdict o result) (visit_all visit pairs)))
  visit_step p pairs none result e c = differs [] p pairs refl tt (missing e refl)
  visit_step p pairs (some zero) result e c = Compared-cons p e c
  visit_step p pairs (some (suc n)) result e c = differs [] p pairs refl tt (unequal n e refl)

  visit_all-Compared :
      (pairs : Pairs) (result : ℕ) → Compared pairs (walked (visit_all visit pairs result))
  unfolding visit_all
  visit_all-Compared [] result = equal tt refl
  visit_all-Compared ((k, d) ∷ pairs) result =
      visit_step (k, d) pairs (compared (k, d)) result refl (visit_all-Compared pairs result)

  verdict-never_ok : (o : Option ℕ) (result : ℕ) → (verdict o result).0 ≢ iter_ok
  verdict-never_ok none result e = absurd (cc e)
  verdict-never_ok (some zero) result e = absurd (cc e)
  verdict-never_ok (some (suc n)) result e = absurd (cc e)

  -- The comparison of a hash with another one succeeds. Its result is 0, and each pair of the first hash
  -- is in the second one with equal data; or there is a first pair that is not, and the result is 2
  -- where its key is missing or its data cannot be compared, and what its data compares to otherwise.
  pub data_hash_t_compare-Compared :
      (h : HashT) (result : ℕ)
      → (r : ℕ) × (data_hash_t_compare compare (ref h) (some hash2) result ≡ ok r)
        × Compared (flat (ref h)) r
  unfolding data_hash_t_compare
  data_hash_t_compare-Compared h result =
      let iter = data_hash_t_compare_iter compare hash2 in
      let e =
        hash_iter-visit_all visit iter (λ k d rest s. refl)
          (λ k d s. verdict-never_ok (compared (k, d)) s) h result in
      (
        walked (visit_all visit (flat (ref h)) result),
        ap (λ t. ok (walked t)) e,
        visit_all-Compared (flat (ref h)) result,
      )
