-- ===== src/Base/Lists.antt =====
-- C arrays as lists measured and indexed by native numbers, under the library's names.
use Prim.Native.Nat.{ℕ, zero, suc, ◌+◌, ◌-◌, ◌≤◌, ◌<◌, min}
use mathlib.Core.Path.{◌≡◌, refl, ap, sym, ◌∙◌}
use mathlib.Core.Logic.{◌≢◌}
use mathlib.Core.List.{List, [], ◌∷◌, ◌++◌}
use mathlib.Core.Option.{Option, none, some}
use native.Mathlib.Omega.{arith}

module _ {ℓ} {A : Type ℓ} where
  abbrev pub length : List A → ℕ
  length [] = 0
  length (x ∷ xs) = suc (length xs)

  abbrev pub get_elem? : List A → ℕ → Option A
  get_elem? [] i = none
  get_elem? (x ∷ xs) zero = some x
  get_elem? (x ∷ xs) (suc i) = get_elem? xs i

  abbrev pub get_or : List A → ℕ → A → A
  get_or [] i d = d
  get_or (x ∷ xs) zero d = x
  get_or (x ∷ xs) (suc i) d = get_or xs i d

  -- A write out of bounds changes nothing.
  abbrev pub set : List A → ℕ → A → List A
  set [] i v = []
  set (x ∷ xs) zero v = v ∷ xs
  set (x ∷ xs) (suc i) v = x ∷ set xs i v

  abbrev pub take : ℕ → List A → List A
  take zero xs = []
  take (suc n) [] = []
  take (suc n) (x ∷ xs) = x ∷ take n xs

  abbrev pub drop : ℕ → List A → List A
  drop zero xs = xs
  drop (suc n) [] = []
  drop (suc n) (x ∷ xs) = drop n xs

  abbrev pub replicate : ℕ → A → List A
  replicate zero a = []
  replicate (suc n) a = a ∷ replicate n a

  pub length-append : (xs ys : List A) → length (xs ++ ys) ≡ length xs + length ys
  length-append [] ys = omega arith
  length-append (x ∷ xs) ys = omega (arith, length-append xs ys)

  pub length-set : (xs : List A) (i : ℕ) (v : A) → length (set xs i v) ≡ length xs
  length-set [] i v = refl
  length-set (x ∷ xs) zero v = refl
  length-set (x ∷ xs) (suc i) v = ap suc (length-set xs i v)

  pub length-take : (n : ℕ) (xs : List A) → length (take n xs) ≡ min n (length xs)
  length-take zero xs = omega arith
  length-take (suc n) [] = omega arith
  length-take (suc n) (x ∷ xs) = omega (arith, length-take n xs)

  pub length-drop : (n : ℕ) (xs : List A) → length (drop n xs) ≡ length xs - n
  length-drop zero xs = omega arith
  length-drop (suc n) [] = omega arith
  length-drop (suc n) (x ∷ xs) = omega (arith, length-drop n xs)

  pub length-replicate : (n : ℕ) (a : A) → length (replicate n a) ≡ n
  length-replicate zero a = refl
  length-replicate (suc n) a = ap suc (length-replicate n a)

  pub take-append-drop : (n : ℕ) (xs : List A) → take n xs ++ drop n xs ≡ xs
  take-append-drop zero xs = refl
  take-append-drop (suc n) [] = refl
  take-append-drop (suc n) (x ∷ xs) = ap (λ t. x ∷ t) (take-append-drop n xs)

  pub take-nil : (n : ℕ) → take n ([]) ≡ []
  take-nil zero = refl
  take-nil (suc n) = refl

  pub drop-nil : (n : ℕ) → drop n ([]) ≡ []
  drop-nil zero = refl
  drop-nil (suc n) = refl

  pub take_all : (n : ℕ) (xs : List A) → length xs ≤ n → take n xs ≡ xs
  take_all zero [] h = refl
  take_all zero (x ∷ xs) h = absurd (omega arith)
  take_all (suc n) [] h = refl
  take_all (suc n) (x ∷ xs) h = ap (λ t. x ∷ t) (take_all n xs (omega arith))

  pub drop_all : (n : ℕ) (xs : List A) → length xs ≤ n → drop n xs ≡ []
  drop_all zero [] h = refl
  drop_all zero (x ∷ xs) h = absurd (omega arith)
  drop_all (suc n) [] h = refl
  drop_all (suc n) (x ∷ xs) h = drop_all n xs (omega arith)

  pub take-append : (xs ys : List A) → take (length xs) (xs ++ ys) ≡ xs
  take-append [] ys = refl
  take-append (x ∷ xs) ys = ap (λ t. x ∷ t) (take-append xs ys)

  pub drop-append : (xs ys : List A) → drop (length xs) (xs ++ ys) ≡ ys
  drop-append [] ys = refl
  drop-append (x ∷ xs) ys = drop-append xs ys

  pub take-append_le : (n : ℕ) (xs ys : List A) → n ≤ length xs → take n (xs ++ ys) ≡ take n xs
  take-append_le zero xs ys h = refl
  take-append_le (suc n) [] ys h = absurd (omega arith)
  take-append_le (suc n) (x ∷ xs) ys h = ap (λ t. x ∷ t) (take-append_le n xs ys (omega arith))

  pub take-take : (n m : ℕ) (xs : List A) → n ≤ m → take n (take m xs) ≡ take n xs
  take-take zero m xs h = refl
  take-take (suc n) zero xs h = absurd (omega arith)
  take-take (suc n) (suc m) [] h = refl
  take-take (suc n) (suc m) (x ∷ xs) h = ap (λ t. x ∷ t) (take-take n m xs (omega arith))

  pub drop-drop : (n m : ℕ) (xs : List A) → drop n (drop m xs) ≡ drop (m + n) xs
  drop-drop n zero xs = ap (λ k. drop k xs) (omega arith)
  drop-drop n (suc m) [] = rw (drop-nil n, drop-nil (suc m + n))
  drop-drop n (suc m) (x ∷ xs) =
      let e : suc (m + n) ≡ suc m + n = omega arith in
      drop-drop n m xs ∙ ap (λ k. drop k (x ∷ xs)) e

  pub get_elem?-set_self :
      (xs : List A) (i : ℕ) (v : A) → i < length xs → get_elem? (set xs i v) i ≡ some v
  get_elem?-set_self [] i v h = absurd (omega arith)
  get_elem?-set_self (x ∷ xs) zero v h = refl
  get_elem?-set_self (x ∷ xs) (suc i) v h = get_elem?-set_self xs i v (omega arith)

  pub get_elem?-set_ne :
      (xs : List A) {i j : ℕ} (v : A) → i ≢ j → get_elem? (set xs i v) j ≡ get_elem? xs j
  get_elem?-set_ne [] v h = refl
  get_elem?-set_ne (x ∷ xs) {i = zero} {j = zero} v h = absurd (h refl)
  get_elem?-set_ne (x ∷ xs) {i = zero} {j = suc j} v h = refl
  get_elem?-set_ne (x ∷ xs) {i = suc i} {j = zero} v h = refl
  get_elem?-set_ne (x ∷ xs) {i = suc i} {j = suc j} v h = get_elem?-set_ne xs v (λ e. h (ap suc e))

  pub take-append_ge :
      (n : ℕ) (xs ys : List A) → length xs ≤ n → take n (xs ++ ys) ≡ xs ++ take (n - length xs) ys
  take-append_ge n [] ys h = ap (λ k. take k ys) (omega arith)
  take-append_ge zero (x ∷ xs) ys h = absurd (omega arith)
  take-append_ge (suc n) (x ∷ xs) ys h =
      let e : suc n - suc (length xs) ≡ n - length xs = omega arith in
      ap (λ t. x ∷ t) (rw e (take-append_ge n xs ys (omega arith)))

  pub take-drop : (n i : ℕ) (xs : List A) → take (n - i) (drop i xs) ≡ drop i (take n xs)
  take-drop n zero xs = ap (λ k. take k xs) (omega arith)
  take-drop zero (suc i) xs = let e : zero - suc i ≡ 0 = omega arith in rw (e, drop-nil (suc i))
  take-drop (suc n) (suc i) [] = take-nil (suc n - suc i)
  take-drop (suc n) (suc i) (x ∷ xs) =
      let e : suc n - suc i ≡ n - i = omega arith in rw e (take-drop n i xs)

  pub take-take-min : (n k : ℕ) (xs : List A) → take n (take k xs) ≡ take (min n k) xs
  take-take-min zero k xs = let e : min 0 k ≡ 0 = omega arith in rw e
  take-take-min (suc n) zero xs = let e : min (suc n) 0 ≡ 0 = omega arith in rw e
  take-take-min (suc n) (suc k) [] = sym (take-nil (min (suc n) (suc k)))
  take-take-min (suc n) (suc k) (x ∷ xs) =
      let e : min (suc n) (suc k) ≡ suc (min n k) = omega arith in
      rw e (ap (λ t. x ∷ t) (take-take-min n k xs))

  -- A window of a prefix is a window, cut at the end of the prefix.
  pub window-take :
      (n i k : ℕ) (xs : List A) → take n (drop i (take k xs)) ≡ take (min n (k - i)) (drop i xs)
  window-take n zero k xs = take-take-min n k xs ∙ ap (λ t. take (min n t) xs) (omega arith)
  window-take n (suc i) zero xs = let e : min n (zero - suc i) ≡ 0 = omega arith in rw (e, take-nil)
  window-take n (suc i) (suc k) [] = take-nil n ∙ sym (take-nil (min n (suc k - suc i)))
  window-take n (suc i) (suc k) (x ∷ xs) =
      let e : suc k - suc i ≡ k - i = omega arith in rw e (window-take n i k xs)

  -- `src` copied over the elements from `at` on.
  abbrev pub splice : List A → ℕ → List A → List A
  splice xs at src = take at xs ++ (src ++ drop (at + length src) xs)

  pub length-splice :
      (xs : List A) (at : ℕ) (src : List A)
      → at + length src ≤ length xs
      → length (splice xs at src) ≡ length xs
  length-splice xs at src h = omega (
    arith,
    length-append (take at xs) (src ++ drop (at + length src) xs),
    length-append src (drop (at + length src) xs),
    length-take at xs,
    length-drop (at + length src) xs,
  )

  pub take-splice :
      (k : ℕ) (xs : List A) (at : ℕ) (src : List A)
      → at + length src ≤ k
      → k ≤ length xs
      → take k (splice xs at src) ≡ splice (take k xs) at src
  take-splice k xs at src h1 h2 =
      let n : length (take at xs) ≡ at = omega (arith, length-take at xs) in
      let e1 = take-append_ge k (take at xs) (src ++ drop (at + length src) xs) (omega arith) in
      let e2 : take (k - length (take at xs)) (src ++ drop (at + length src) xs)
          ≡ src ++ take (k - at - length src) (drop (at + length src) xs) =
        rw n (take-append_ge (k - at) src _ (omega arith)) in
      let m : k - at - length src ≡ k - (at + length src) = omega arith in
      e1
      ∙ ap (λ t. take at xs ++ t) e2
      ∙ ap (λ t. take at xs ++ (src ++ t)) (rw m (take-drop k (at + length src) xs))
      ∙ ap (λ t. t ++ (src ++ drop (at + length src) (take k xs)))
          (sym (take-take at k xs (omega arith)))

  -- What was copied in is read back.
  pub window-splice :
      (xs : List A) (at : ℕ) (src : List A)
      → at ≤ length xs
      → take (length src) (drop at (splice xs at src)) ≡ src
  window-splice xs at src h =
      let n : length (take at xs) ≡ at = omega (arith, length-take at xs) in
      let d : drop at (splice xs at src) ≡ src ++ drop (at + length src) xs =
        ap (λ k. drop k (splice xs at src)) (sym n)
        ∙ drop-append (take at xs) (src ++ drop (at + length src) xs) in
      rw d (take-append src (drop (at + length src) xs))

  pub splice-nil : (xs : List A) (at : ℕ) → splice xs at [] ≡ xs
  splice-nil xs at =
      let e : at + 0 ≡ at = omega arith in
      ap (λ k. take at xs ++ drop k xs) e ∙ take-append-drop at xs

  pub take-append_at : (n : ℕ) (xs ys : List A) → n ≡ length xs → take n (xs ++ ys) ≡ xs
  take-append_at n xs ys e = ap (λ k. take k (xs ++ ys)) e ∙ take-append xs ys

  pub drop-append_at : (n : ℕ) (xs ys : List A) → n ≡ length xs → drop n (xs ++ ys) ≡ ys
  drop-append_at n xs ys e = ap (λ k. drop k (xs ++ ys)) e ∙ drop-append xs ys
