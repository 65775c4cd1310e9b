-- ===== src/Murmur/Tests.antt =====
-- Hashes of a few bytes.
use frozen.Base.{
  ℕ, ◌≡◌, refl, none, some, List, [], ◌∷◌, arith, Result, ok, err, eof, ◌==◌, if◌then◌else◌,
}
use frozen.Murmur.{murmur_hash2}
use frozen.Murmur.Words.{murmur_hash2-zero, murmur_hash2-diverges, murmur_hash2-tail}

-- A holder that gives its bytes at offset 0 and fails behind them, and one that gives no bytes there.
abbrev raw : List ℕ → ℕ → Result (List ℕ)
raw bytes offset = if offset == 0 then ok bytes else err eof

abbrev in_memory : List ℕ → ℕ → Result (List ℕ)
in_memory bytes offset = if offset == 0 then ok bytes else ok []

murmur_hash2-zero_example : murmur_hash2 (raw (1 ∷ 2 ∷ 3 ∷ 4 ∷ [])) 2 6 (ok 4) 0 ≡ some 0
murmur_hash2-zero_example =
    murmur_hash2-zero (raw (1 ∷ 2 ∷ 3 ∷ 4 ∷ [])) 6 0 1 (1 ∷ 2 ∷ 3 ∷ 4 ∷ []) eof (omega arith) refl
      refl

murmur_hash2-diverges_example : murmur_hash2 (in_memory (1 ∷ 2 ∷ 3 ∷ 4 ∷ [])) 50 6 (ok 4) 0 ≡ none
murmur_hash2-diverges_example =
    murmur_hash2-diverges (in_memory (1 ∷ 2 ∷ 3 ∷ 4 ∷ [])) 50 6 0 1 (1 ∷ 2 ∷ 3 ∷ 4 ∷ [])
      (omega arith) refl refl

murmur_hash2-tail_example :
    murmur_hash2 (raw (1 ∷ 2 ∷ 3 ∷ 4 ∷ 5 ∷ [])) 1 6 (ok 5) 0
    ≡ murmur_hash2 (raw (6 ∷ 7 ∷ 8 ∷ 9 ∷ 5 ∷ [])) 1 6 (ok 5) 0
murmur_hash2-tail_example =
    murmur_hash2-tail (raw (1 ∷ 2 ∷ 3 ∷ 4 ∷ 5 ∷ [])) (raw (6 ∷ 7 ∷ 8 ∷ 9 ∷ 5 ∷ [])) 6 0 0
      (1 ∷ 2 ∷ 3 ∷ 4 ∷ 5 ∷ []) (6 ∷ 7 ∷ 8 ∷ 9 ∷ 5 ∷ []) refl refl refl refl refl
