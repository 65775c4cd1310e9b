-- ===== src/Memory/Realloc.antt =====
-- What memory_t.c relies on of `realloc`, and one that meets it.
use frozen.Base.{
  ℕ, zero, suc, ◌≤◌, ◌≡◌, refl, Option, none, some, [], ◌∷◌, arith, length, take, replicate, min,
  length-replicate, ap,
}
use frozen.Memory.{Bytes}

-- A block that is returned has the size that was asked for, and keeps the bytes of the old block as
-- far as both go. NULL is allowed at any time.
pub record Reallocates (realloc : Option Bytes → ℕ → Option Bytes) : Type 0 where
  pub sized :
      (p : Option Bytes) (n : ℕ) (bytes : Bytes) → realloc p n ≡ some bytes → length bytes ≡ n
  pub keeps :
      (old : Bytes) (n : ℕ) (bytes : Bytes)
      → realloc (some old) n ≡ some bytes
      → take (min n (length old)) bytes ≡ take (min n (length old)) old

-- Fills with a byte, or cuts.
abbrev pub resize_bytes : Bytes → ℕ → Bytes
resize_bytes [] n = replicate n 0xaa
resize_bytes (b ∷ bytes) zero = []
resize_bytes (b ∷ bytes) (suc n) = b ∷ resize_bytes bytes n

abbrev pub old_bytes : Option Bytes → Bytes
old_bytes none = []
old_bytes (some old) = old

abbrev pub always : Option Bytes → ℕ → Option Bytes
always p n = some (resize_bytes (old_bytes p) n)

length-resize_bytes : (old : Bytes) (n : ℕ) → length (resize_bytes old n) ≡ n
length-resize_bytes [] n = length-replicate n 0xaa
length-resize_bytes (b ∷ old) zero = refl
length-resize_bytes (b ∷ old) (suc n) = ap suc (length-resize_bytes old n)

take-resize_bytes :
    (old : Bytes) (n k : ℕ) → k ≤ n → k ≤ length old → take k (resize_bytes old n) ≡ take k old
take-resize_bytes old n zero h1 h2 = refl
take-resize_bytes [] n (suc k) h1 h2 = absurd (omega arith)
take-resize_bytes (b ∷ old) zero (suc k) h1 h2 = absurd (omega arith)
take-resize_bytes (b ∷ old) (suc n) (suc k) h1 h2 =
    ap (λ t. b ∷ t) (take-resize_bytes old n k (omega arith) (omega arith))

pub always-Reallocates : Reallocates always
always-Reallocates = record {
  sized = λ p n bytes e.
      let h : resize_bytes (old_bytes p) n ≡ bytes = cc in
      rw (← h) (length-resize_bytes (old_bytes p) n);
  keeps = λ old n bytes e.
      let h : resize_bytes old n ≡ bytes = cc in
      rw (← h) (take-resize_bytes old n (min n (length old)) (omega arith) (omega arith));
}
