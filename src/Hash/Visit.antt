-- ===== src/Hash/Visit.antt =====
-- `hash_iter` with no flags against a loop over the pairs.
use frozen.Base.{ℕ, ◌≡◌, ◌≢◌, refl, inl, inr, false, [], ◌∷◌, ◌++◌, ◌==◌, Bool-cases, sym, ◌∙◌}
use frozen.Hash.{
  iter_in, Data, key_null, HashT, item, inline, end, null, ref, Iter, iter_ok, iter_break,
  iter_continue, Flags, after, after_inline, hash_iter,
}
use frozen.Hash.Flat.{flat_in, Pairs, flat}

abbrev pub no_flags : Flags
no_flags = record { with_null = false; with_end = false; with_inline = false }

module _ {S : Type 0} (visit : ℕ → Data → S → Iter × S) where
  -- The loop over the pairs, which stops where the callback does not say ITER_CONTINUE.
  unfoldable pub visit_all : Pairs → S → Iter × S
  visit_all [] s = (iter_ok, s)
  visit_all ((k, d) ∷ pairs) s = after (visit k d s) (visit_all pairs)

  after_cases :
      (r : Iter × S) (f g : S → Iter × S)
      → r.0 ≢ iter_ok
      → ((s : S) → f s ≡ g s)
      → after r f ≡ after r g
  after_cases (iter_ok, s) f g n e = refl
  after_cases (iter_break, s) f g n e = refl
  after_cases (iter_continue, s) f g n e = e s

  -- An inline walk and then the rest is one walk, since the callback never says ITER_OK.
  visit-append :
      ((k : ℕ) (d : Data) (s : S) → (visit k d s).0 ≢ iter_ok)
      → (xs ys : Pairs) (s : S)
      → visit_all (xs ++ ys) s ≡ after_inline (visit_all xs s) (visit_all ys)
  unfolding visit_all
  visit-append n [] ys s = refl
  visit-append n ((k, d) ∷ xs) ys s = go (visit k d s) (n k d s) (visit-append n xs ys)
    where
      go :
          (r : Iter × S)
          → r.0 ≢ iter_ok
          → ((s : S) → visit_all (xs ++ ys) s ≡ after_inline (visit_all xs s) (visit_all ys))
          → after r (visit_all (xs ++ ys)) ≡ after_inline (after r (visit_all xs)) (visit_all ys)
      go (iter_ok, s) n ih = absurd (n refl)
      go (iter_break, s) n ih = refl
      go (iter_continue, s) n ih = ih s

module _ {S : Type 0} (visit : ℕ → Data → S → Iter × S) (func : HashT → S → Iter × S)
    (same : (k : ℕ) (d : Data) (rest : HashT) (s : S) → func (item k d rest) s ≡ visit k d s)
    (not_ok : (k : ℕ) (d : Data) (s : S) → (visit k d s).0 ≢ iter_ok) where
  item_visit :
      (k : ℕ) (d : Data) (rest : HashT) (s : S)
      → ((s : S) → iter_in func no_flags rest s ≡ visit_all visit (flat_in rest) s)
      → iter_in func no_flags (item k d rest) s ≡ visit_all visit (flat_in (item k d rest)) s
  unfolding hash_iter flat visit_all
  item_visit k d rest s ih = elim (Bool-cases (k == key_null)) [
    | inl skip ↦ rw skip (ih s)
    | inr keep ↦
        rw (keep, same k d rest s)
          (after_cases visit (visit k d s) (iter_in func no_flags rest)
            (visit_all visit (flat_in rest)) (not_ok k d s) ih)
  ]

  inline_visit :
      (h rest : HashT) (s : S)
      → iter_in func no_flags h s ≡ visit_all visit (flat_in h) s
      → ((s : S) → iter_in func no_flags rest s ≡ visit_all visit (flat_in rest) s)
      → iter_in func no_flags (inline (ref h) rest) s
        ≡ visit_all visit (flat_in h ++ flat_in rest) s
  unfolding hash_iter
  inline_visit h rest s e ih = rw e (
      go (visit_all visit (flat_in h) s) ih
      ∙ sym (visit-append visit not_ok (flat_in h) (flat_in rest) s))
    where
      go :
          (r : Iter × S)
          → ((s : S) → iter_in func no_flags rest s ≡ visit_all visit (flat_in rest) s)
          → after_inline r (iter_in func no_flags rest)
            ≡ after_inline r (visit_all visit (flat_in rest))
      go (iter_ok, s) ih = ih s
      go (iter_break, s) ih = refl
      go (iter_continue, s) ih = refl

  iter_in-visit : (h : HashT) (s : S) → iter_in func no_flags h s ≡ visit_all visit (flat_in h) s
  unfolding hash_iter flat visit_all
  iter_in-visit (item k d rest) s = item_visit k d rest s (λ s'. iter_in-visit rest s')
  iter_in-visit (inline null rest) s = iter_in-visit rest s
  iter_in-visit (inline (ref h) rest) s =
      inline_visit h rest s (iter_in-visit h s) (λ s'. iter_in-visit rest s')
  iter_in-visit (end null) s = refl
  iter_in-visit (end (ref h)) s = iter_in-visit h s

  -- Without flags, and for a callback that looks at the pair alone and never returns ITER_OK, `hash_iter`
  -- of a hash is the loop over its pairs in order: it stops where the callback does not say
  -- ITER_CONTINUE, with what it said, and returns ITER_OK at the end.
  pub hash_iter-visit_all :
      (h : HashT) (s : S) → hash_iter func no_flags (ref h) s ≡ visit_all visit (flat (ref h)) s
  unfolding hash_iter flat
  hash_iter-visit_all h s = iter_in-visit h s
