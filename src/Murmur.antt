-- ===== src/Murmur.antt =====
-- src/libfrozen/backends/hash/murmur/murmur2_32.c: MurmurHash2 over the reads of a data holder. What
-- ACTION_LOGICALLEN and ACTION_READ of the data return are parameters.
pub mod Words
mod Tests
use Prim.Native.Nat.{bit_xor}
use frozen.Base.{
  ℕ, zero, suc, ◌+◌, ◌*◌, ◌/◌, ◌%◌, ◌^◌, Option, none, some, List, [], ◌∷◌, ◌==◌, if◌then◌else◌,
  drop, length, Result, ok, err, fault,
}

-- The product of two `unsigned int`.
abbrev mul32 : ℕ → ℕ → ℕ
mul32 a b = (a * b) % 2 ^ 32

-- The mixing constant `m`.
abbrev mixing : ℕ
mixing = 0x5bd1e995

-- The body of the loop over the words, for a word `k`.
unfoldable pub mix_word : ℕ → ℕ → ℕ
mix_word k h =
    let k1 = mul32 k mixing in
    let k2 = bit_xor k1 (k1 / 2 ^ 24) in bit_xor (mul32 h mixing) (mul32 k2 mixing)

-- The loop `while(len >= 4)`, `n` times. The word that it mixes in is read through `data`, not through
-- `p`: it is the same in every round, the first word of the holder, which is the low half of its type.
unfoldable pub mix_words : ℕ → ℕ → ℕ → ℕ
unfolding mix_word
mix_words zero k h = h
mix_words (suc n) k h = mix_words n k (mix_word k h)

-- The `switch` on the rest of the length, for the bytes at `p`.
unfoldable pub mix_tail : List ℕ → ℕ → ℕ
mix_tail (b0 ∷ []) h = mul32 (bit_xor h b0) mixing
mix_tail (b0 ∷ b1 ∷ []) h = mul32 (bit_xor (bit_xor h (b1 * 2 ^ 8)) b0) mixing
mix_tail (b0 ∷ b1 ∷ b2 ∷ []) h =
    mul32 (bit_xor (bit_xor (bit_xor h (b2 * 2 ^ 16)) (b1 * 2 ^ 8)) b0) mixing
mix_tail _ h = h

-- The last mixes.
unfoldable pub finish : ℕ → ℕ
finish h = let h1 = mul32 (bit_xor h (h / 2 ^ 13)) mixing in bit_xor h1 (h1 / 2 ^ 15)

module _ (read : ℕ → Result (List ℕ)) where
  -- The loop over the reads on fuel, which ends at a read that fails or leaves a rest; `none` is a loop
  -- that has not ended.
  unfoldable pub hash_reads : ℕ → ℕ → ℕ → ℕ → Option ℕ
  unfolding mix_words mix_tail finish
  hash_reads zero k offset h = none
  hash_reads (suc fuel) k offset h = elim (read offset) [
    | err e ↦ some 0
    | fault ↦ some 0
    | ok bytes ↦
        let h' = mix_words (length bytes / 4) k h in
        elim (length bytes % 4) [
          | zero ↦ hash_reads fuel k (offset + length bytes) h'
          | suc rest ↦ some (finish (mix_tail (drop (4 * (length bytes / 4)) bytes) h'))
        ]
  ]

  -- `MurmurHash2` of a data holder of a type.
  unfoldable pub murmur_hash2 : ℕ → ℕ → Result ℕ → ℕ → Option ℕ
  unfolding hash_reads
  murmur_hash2 fuel type len seed = elim len [
    | ok n ↦ hash_reads fuel (type % 2 ^ 32) 0 (bit_xor seed (n % 2 ^ 32))
    | err e ↦ some 0
    | fault ↦ some 0
  ]
