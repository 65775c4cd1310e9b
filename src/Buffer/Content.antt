-- ===== src/Buffer/Content.antt =====
-- The bytes of a chain of chunks, and how they divide at the end of the first chunk.
use mathlib.Core.List.{append_assoc}
use frozen.Base.{
  splice-nil, drop-append_at, take-append_at, drop-drop, ap₂, ℕ, zero, suc, ◌+◌, ◌-◌, ◌≤◌, ◌≡◌,
  List, [], ◌∷◌, ◌++◌, arith, length, take, drop, min, splice, ap, sym, ◌∙◌, take-nil, drop-nil,
  length-append, length-take,
}
use frozen.Buffer.{Bytes, Chunk, Buffer}

abbrev pub concat : List Chunk → Bytes
concat [] = []
concat (c ∷ chunks) = c.memory ++ concat chunks

abbrev pub content : Buffer → Bytes
content b = concat b.chunks

-- `size` is the number of bytes in the chain.
abbrev pub IsSized : Buffer → Type 0
IsSized b = b.size ≡ length (content b)

-- A window over two runs is a window of the first, as far as it goes, and one of the second.
pub window-append :
    (xs ys : Bytes) (n d : ℕ)
    → let size = min (length xs) n in
      take (n - d) (drop d (xs ++ ys))
      ≡ take (size - d) (drop d xs) ++ take (n - size - (d - size)) (drop (d - size) ys)
window-append [] ys n d =
    let z : min 0 n ≡ 0 = omega arith in
    let a : n - 0 - (d - 0) ≡ n - d = omega arith in
    let b : d - 0 ≡ d = omega arith in let c : 0 - d ≡ 0 = omega arith in rw (z, a, b, c)
window-append (x ∷ xs) ys zero d =
    let z : min (suc (length xs)) 0 ≡ 0 = omega arith in
    let a : 0 - 0 - (d - 0) ≡ 0 = omega arith in let c : 0 - d ≡ 0 = omega arith in rw (z, a, c)
window-append (x ∷ xs) ys (suc n) zero =
    let size = min (length xs) n in
    let z : min (suc (length xs)) (suc n) ≡ suc size = omega arith in
    let a : suc n - suc size - (0 - suc size) ≡ n - size - (0 - size) = omega arith in
    let b : 0 - suc size ≡ 0 - size = omega arith in
    let c : suc size - 0 ≡ suc (size - 0) = omega arith in
    let e : suc n - 0 ≡ suc (n - 0) = omega arith in
    rw (z, a, b, c, e) (ap (λ t. x ∷ t) (window-append xs ys n 0))
window-append (x ∷ xs) ys (suc n) (suc d) =
    let size = min (length xs) n in
    let z : min (suc (length xs)) (suc n) ≡ suc size = omega arith in
    let a : suc n - suc size - (suc d - suc size) ≡ n - size - (d - size) = omega arith in
    let b : suc d - suc size ≡ d - size = omega arith in
    let c : suc size - suc d ≡ size - d = omega arith in
    let e : suc n - suc d ≡ n - d = omega arith in rw (z, a, b, c, e) (window-append xs ys n d)

-- Two copies, one behind the other, are one copy.
pub splice-splice :
    (buf : Bytes) (k : ℕ) (xs ys : Bytes)
    → k + length xs ≤ length buf
    → splice (splice buf k xs) (k + length xs) ys ≡ splice buf k (xs ++ ys)
splice-splice buf k xs ys h =
    let front : Bytes = take k buf ++ xs in
    let back : Bytes = drop (k + length xs) buf in
    let n : length front ≡ k + length xs =
      omega (arith, length-append (take k buf) xs, length-take k buf) in
    let whole : splice buf k xs ≡ front ++ back = sym (append_assoc (take k buf) xs back) in
    let t : take (k + length xs) (splice buf k xs) ≡ front =
      ap (take (k + length xs)) whole ∙ take-append_at (k + length xs) front back (sym n) in
    let m : k + length xs + length ys ≡ k + length (xs ++ ys) =
      omega (arith, length-append xs ys) in
    let d : drop (k + length xs + length ys) (splice buf k xs) ≡ drop (k + length (xs ++ ys)) buf =
      sym (drop-drop (length ys) (k + length xs) (splice buf k xs))
      ∙ ap (drop (length ys))
          (ap (drop (k + length xs)) whole ∙ drop-append_at (k + length xs) front back (sym n))
      ∙ drop-drop (length ys) (k + length xs) buf
      ∙ ap (λ i. drop i buf) m in
    ap₂ (λ u v. u ++ (ys ++ v)) t d
    ∙ append_assoc (take k buf) xs (ys ++ drop (k + length (xs ++ ys)) buf)
    ∙ ap (λ u. take k buf ++ u) (sym (append_assoc xs ys (drop (k + length (xs ++ ys)) buf)))

-- A copy over two runs is a copy over the first, as far as it goes, and one over the second.
pub splice-append :
    (xs ys : Bytes) (d : ℕ) (src : Bytes)
    → let n = length xs - d in
      splice (xs ++ ys) d src ≡ splice xs d (take n src) ++ splice ys (d - length xs) (drop n src)
splice-append [] ys d src =
    let z : 0 - d ≡ 0 = omega arith in let e : d - 0 ≡ d = omega arith in rw (z, e, splice-nil [] d)
splice-append (x ∷ xs) ys d [] =
    let n = length (x ∷ xs) - d in
    rw (
      take-nil n,
      drop-nil n,
      splice-nil (x ∷ (xs ++ ys)) d,
      splice-nil (x ∷ xs) d,
      splice-nil ys (d - length (x ∷ xs)),
    )
splice-append (x ∷ xs) ys zero (s ∷ src) =
    let a : suc (length xs) - 0 ≡ suc (length xs - 0) = omega arith in
    let b : 0 + suc (length src) ≡ suc (0 + length src) = omega arith in
    let c : 0 - suc (length xs) ≡ 0 - length xs = omega arith in
    let e : 0 + suc (length (take (length xs - 0) src))
        ≡ suc (0 + length (take (length xs - 0) src)) =
      omega arith in
    rw (a, b, c, e) (ap (λ t. s ∷ t) (splice-append xs ys 0 src))
splice-append (x ∷ xs) ys (suc d) (s ∷ src) =
    let a : suc (length xs) - suc d ≡ length xs - d = omega arith in
    let b : suc d + suc (length src) ≡ suc (d + suc (length src)) = omega arith in
    let n = length (take (length xs - d) (s ∷ src)) in
    let e : suc d + n ≡ suc (d + n) = omega arith in
    let f : suc d - suc (length xs) ≡ d - length xs = omega arith in
    rw (a, b, e, f) (ap (λ t. x ∷ t) (splice-append xs ys d (s ∷ src)))
