-- ===== src/Split/Parts.antt =====
-- The parts of an input, one byte after the other, and what the inner loop does for a string of one
-- byte.
use frozen.Base.{
  Option-cases, ltb, ℕ, suc, ◌+◌, ◌-◌, ◌≤◌, ◌≡◌, refl, ◌∙◌, ap, true, false, Bool-cases, inl, inr,
  Option, none, some, List, [], ◌∷◌, ◌++◌, ◌==◌, if◌then◌else◌, length, drop, add64, sub64,
  uint_max, Result, ok, err, fault, arith,
}
use frozen.Memory.{Bytes}
use frozen.Transfer.{Io}
use frozen.Split.{matched, Splitting, Ending, going, refused, starved, go_on, scan, memchr}

-- The slices that an input is split into by a byte: each one ends with its first byte `c`, and the last
-- one takes all that is left. `from` is the start of the slice that `at` is in.
unfoldable pub parts : ℕ → ℕ → ℕ → Bytes → List (ℕ × ℕ)
parts c from at [] = (from, uint_max) ∷ []
parts c from at (x ∷ xs) =
    if x == c
    then (from, suc at - from) ∷ parts c (suc at) (suc at) xs
    else parts c from (suc at) xs

module _ {S : Type 0} (pass : S → ℕ → ℕ → Result ℕ × S) where
  abbrev pub and_then : Result ℕ × S → (S → Result ℕ × S) → Result ℕ × S
  and_then (ok n, s) k = k s
  and_then (err e, s) k = (err e, s)
  and_then (fault, s) k = (fault, s)

  -- Slices that are passed in their order, up to the first one that a child refuses.
  unfoldable pub pass_all : List (ℕ × ℕ) → S → Result ℕ × S
  pass_all [] s = (ok 0, s)
  pass_all ((from, size) ∷ slices) s = and_then (pass s from size) (pass_all slices)

  -- What comes of an ending of the loops.
  abbrev pub conclude : Ending S → (Splitting S → Option (Result ℕ × S)) → Option (Result ℕ × S)
  conclude (going st) k = k st
  conclude (refused r s) k = some (r, s)
  conclude starved k = none

  abbrev pub or_refused : Result ℕ × S → (S → Option (Result ℕ × S)) → Option (Result ℕ × S)
  or_refused (ok n, s) k = k s
  or_refused (err e, s) k = some (err e, s)
  or_refused (fault, s) k = some (fault, s)

  -- The bytes of a chunk at `at`, of which the slice from `from` on is open: its matches are passed, and
  -- the rest is done with the slice that is open behind the chunk.
  unfoldable pub walk :
      ℕ → ℕ → ℕ → Bytes → S → (ℕ → S → Option (Result ℕ × S)) → Option (Result ℕ × S)
  walk c from at [] s k = k from s
  walk c from at (x ∷ xs) s k =
      if x == c
      then or_refused (pass s from (suc at - from)) (λ s'. walk c (suc at) (suc at) xs s' k)
      else walk c from (suc at) xs s k

  or_refused-ext :
      (a : Result ℕ × S) (f g : S → Option (Result ℕ × S))
      → ((s : S) → f s ≡ g s)
      → or_refused a f ≡ or_refused a g
  or_refused-ext (ok n, s) f g e = e s
  or_refused-ext (err x, s) f g e = refl
  or_refused-ext (fault, s) f g e = refl

  -- A walk over two chunks is two walks.
  pub walk-append :
      (c from at : ℕ) (xs ys : Bytes) (s : S) (k : ℕ → S → Option (Result ℕ × S))
      → walk c from at (xs ++ ys) s k
        ≡ walk c from at xs s (λ from' s'. walk c from' (at + length xs) ys s' k)
  unfolding walk
  walk-append c from at [] ys s k = ap (λ n. walk c from n ys s k) (omega arith)
  walk-append c from at (x ∷ xs) ys s k =
      let e : suc at + length xs ≡ at + suc (length xs) = omega arith in
      elim (Bool-cases (x == c)) [
        | inl hit ↦ rw hit (
            or_refused-ext (pass s from (suc at - from)) _ _ (λ s'.
              walk-append c (suc at) (suc at) xs ys s' k
              ∙ ap (λ n. walk c (suc at) (suc at) xs s' (λ from' s''. walk c from' n ys s'' k)) e))
        | inr miss ↦ rw miss (
            walk-append c from (suc at) xs ys s k
            ∙ ap (λ n. walk c from (suc at) xs s (λ from' s''. walk c from' n ys s'' k)) e)
      ]

  -- What is done behind a walk matters for the slices alone that can be open there.
  pub walk-ext :
      (c from at : ℕ) (xs : Bytes) (s : S) (k k' : ℕ → S → Option (Result ℕ × S))
      → from ≤ at
      → ((from' : ℕ) (s' : S) → from' ≤ at + length xs → k from' s' ≡ k' from' s')
      → walk c from at xs s k ≡ walk c from at xs s k'
  unfolding walk
  walk-ext c from at [] s k k' le e = e from s (omega arith)
  walk-ext c from at (x ∷ xs) s k k' le e =
      let e' : (from' : ℕ) (s' : S) → from' ≤ suc at + length xs → k from' s' ≡ k' from' s' =
        λ from' s' h. e from' s' (omega arith) in
      elim (Bool-cases (x == c)) [
        | inl hit ↦ rw hit (
            or_refused-ext (pass s from (suc at - from)) _ _
              (λ s'. walk-ext c (suc at) (suc at) xs s' k k' (omega arith) e'))
        | inr miss ↦ rw miss (walk-ext c from (suc at) xs s k k' (omega arith) e')
      ]

  or_refused-some :
      (a : Result ℕ × S) (f : S → Result ℕ × S)
      → or_refused a (λ s. some (f s)) ≡ some (and_then a f)
  or_refused-some (ok n, s) f = refl
  or_refused-some (err x, s) f = refl
  or_refused-some (fault, s) f = refl

  -- A walk that ends with the open slice passes the parts.
  pub walk-parts :
      (c from at : ℕ) (xs : Bytes) (s : S)
      → walk c from at xs s (λ from' s'. some (pass_all ((from', uint_max) ∷ []) s'))
        ≡ some (pass_all (parts c from at xs) s)
  unfolding walk parts pass_all
  walk-parts c from at [] s = refl
  walk-parts c from at (x ∷ xs) s = elim (Bool-cases (x == c)) [
    | inl hit ↦ rw hit (
        or_refused-ext (pass s from (suc at - from)) _ _
          (λ s'. walk-parts c (suc at) (suc at) xs s')
        ∙ or_refused-some (pass s from (suc at - from)) (pass_all (parts c (suc at) (suc at) xs)))
    | inr miss ↦ rw miss (walk-parts c from (suc at) xs s)
  ]

  module _ (read : ℕ → ℕ → Io) (c buffer_size : ℕ) where
    abbrev pub scan_one : ℕ → ℕ → Bytes → Splitting S → Ending S
    scan_one = scan read pass (c ∷ []) buffer_size

    pub scan-none : (fuel at : ℕ) (st : Splitting S) → scan_one (suc fuel) at [] st ≡ going st
    unfolding scan memchr
    scan-none fuel at st = refl

    abbrev shifted : Option ℕ → Option ℕ
    shifted none = none
    shifted (some i) = some (suc i)

    memchr-miss :
        (x : ℕ) (xs : Bytes) → (x == c) ≡ false → memchr (x ∷ xs) c ≡ shifted (memchr xs c)
    unfolding memchr
    memchr-miss x xs miss =
        rw miss (elim (Option-cases (memchr xs c)) [ inl e ↦ rw e refl | inr (i, e) ↦ rw e refl ])

    memchr-hit : (x : ℕ) (xs : Bytes) → (x == c) ≡ true → memchr (x ∷ xs) c ≡ some 0
    unfolding memchr
    memchr-hit x xs hit = rw hit refl

    pub scan-miss :
        (fuel at x : ℕ) (xs : Bytes) (st : Splitting S)
        → (x == c) ≡ false
        → scan_one (suc fuel) at (x ∷ xs) st ≡ scan_one (suc fuel) (suc at) xs st
    unfolding scan
    scan-miss fuel at x xs st miss = elim (Option-cases (memchr xs c)) [
      | inl e ↦ rw (memchr-miss x xs miss ∙ ap shifted e, e, scan) refl
      | inr (i, e) ↦
          rw (memchr-miss x xs miss ∙ ap shifted e, e, scan)
            (ap (λ n. matched read pass (c ∷ []) buffer_size (scan_one fuel) n (drop i xs) st)
              (omega arith))
    ]

    matched-hit :
        (next : ℕ → Bytes → Splitting S → Ending S) (at x : ℕ) (xs : Bytes) (st : Splitting S)
        → (x == c) ≡ true
        → matched read pass (c ∷ []) buffer_size next at (x ∷ xs) st ≡ (
            let offset = add64 (add64 st.original_offset at) 1 in
            let (ret, s') = pass st.passed st.lmatch_offset (sub64 offset st.lmatch_offset) in
            go_on ret s' (λ s. next (suc at) xs (record st { lmatch_offset = offset; passed = s })))
    unfolding matched
    matched-hit next at x xs st hit =
        let room : ltb (suc (length xs)) 1 ≡ false = ground arith in rw (room, hit, matched) refl

    pub scan-hit :
        (fuel at x : ℕ) (xs : Bytes) (st : Splitting S)
        → (x == c) ≡ true
        → scan_one (suc fuel) at (x ∷ xs) st ≡ (
            let offset = add64 (add64 st.original_offset at) 1 in
            let (ret, s') = pass st.passed st.lmatch_offset (sub64 offset st.lmatch_offset) in
            go_on ret s'
              (λ s. scan_one fuel (suc at) xs (record st { lmatch_offset = offset; passed = s })))
    unfolding scan
    scan-hit fuel at x xs st hit =
        rw (memchr-hit x xs hit, scan)
          (ap (λ n. matched read pass (c ∷ []) buffer_size (scan_one fuel) n (x ∷ xs) st)
              (omega arith)
            ∙ matched-hit (scan_one fuel) at x xs st hit)
