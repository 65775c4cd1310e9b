-- ===== src/Murmur/Words.antt =====
-- What MurmurHash2 makes of the words of the data.
use frozen.Base.{
  sym, ap, ◌∙◌, ℕ, zero, suc, ◌+◌, ◌*◌, ◌/◌, ◌%◌, ◌^◌, ◌≡◌, refl, none, some, List, [], arith, drop,
  length, Result, ok, err, Errno,
}
use Prim.Native.Nat.{bit_xor}
use frozen.Murmur.{finish, mix_tail, hash_reads, murmur_hash2, mix_words}

-- Where the first read gives `n` words and nothing else, and the next read fails, as it does at the end
-- of the data, the hash is 0, whatever the words, the type and the seed are.
pub murmur_hash2-zero :
    (read : ℕ → Result (List ℕ)) (type seed n : ℕ) (bytes : List ℕ) (e : Errno)
    → length bytes ≡ 4 * n
    → read 0 ≡ ok bytes
    → read (4 * n) ≡ err e
    → murmur_hash2 read 2 type (ok (4 * n)) seed ≡ some 0
unfolding murmur_hash2 hash_reads
murmur_hash2-zero read type seed n bytes e len first last =
    let z : length bytes % 4 ≡ 0 = omega (arith, len) in
    let at : 0 + length bytes ≡ 4 * n = omega (arith, len) in rw (first, z, at, last, hash_reads)

stuck_at_end :
    (read : ℕ → Result (List ℕ)) (fuel k offset h : ℕ)
    → read offset ≡ ok []
    → hash_reads read fuel k offset h ≡ none
unfolding hash_reads mix_words
stuck_at_end read zero k offset h last = refl
stuck_at_end read (suc fuel) k offset h last =
    let at : offset + 0 ≡ offset = omega arith in
    rw (last, at, hash_reads) (stuck_at_end read fuel k offset h last)

-- Where the first read gives `n` words and nothing else, and the next read gives no bytes and no error,
-- as that of a memory does at its end, the loop over the reads never ends.
pub murmur_hash2-diverges :
    (read : ℕ → Result (List ℕ)) (fuel type seed n : ℕ) (bytes : List ℕ)
    → length bytes ≡ 4 * n
    → read 0 ≡ ok bytes
    → read (4 * n) ≡ ok []
    → murmur_hash2 read fuel type (ok (4 * n)) seed ≡ none
unfolding murmur_hash2 hash_reads
murmur_hash2-diverges read zero type seed n bytes len first last = refl
murmur_hash2-diverges read (suc fuel) type seed n bytes len first last =
    let z : length bytes % 4 ≡ 0 = omega (arith, len) in
    let at : 0 + length bytes ≡ 4 * n = omega (arith, len) in
    rw (first, z, at, hash_reads) (stuck_at_end read fuel (type % 2 ^ 32) (4 * n) _ last)

-- The hash of data that one read gives.
read_once :
    (read : ℕ → Result (List ℕ)) (type seed rest : ℕ) (bytes : List ℕ)
    → read 0 ≡ ok bytes
    → length bytes % 4 ≡ suc rest
    → murmur_hash2 read 1 type (ok (length bytes)) seed
      ≡ some (
          finish (
            mix_tail (drop (4 * (length bytes / 4)) bytes) (
              mix_words (length bytes / 4) (type % 2 ^ 32) (bit_xor seed (length bytes % 2 ^ 32)))))
unfolding murmur_hash2 hash_reads
read_once read type seed rest bytes first some_rest = rw (first, some_rest, hash_reads)

-- Two data of one type that are read at once and have the same length, no multiple of 4, and the same
-- bytes behind their last word have the same hash, whatever their words are.
pub murmur_hash2-tail :
    (read read' : ℕ → Result (List ℕ)) (type seed rest : ℕ) (bytes bytes' : List ℕ)
    → read 0 ≡ ok bytes
    → read' 0 ≡ ok bytes'
    → length bytes ≡ length bytes'
    → length bytes % 4 ≡ suc rest
    → drop (4 * (length bytes / 4)) bytes ≡ drop (4 * (length bytes / 4)) bytes'
    → murmur_hash2 read 1 type (ok (length bytes)) seed
      ≡ murmur_hash2 read' 1 type (ok (length bytes')) seed
murmur_hash2-tail read read' type seed rest bytes bytes' first first' len some_rest tail =
    let hash = λ (n : ℕ) (t : List ℕ).
      some (finish (mix_tail t (mix_words (n / 4) (type % 2 ^ 32) (bit_xor seed (n % 2 ^ 32))))) in
    read_once read type seed rest bytes first some_rest
    ∙ ap (hash (length bytes)) tail
    ∙ ap (λ n. hash n (drop (4 * (n / 4)) bytes')) len
    ∙ sym (read_once read' type seed rest bytes' first' (ap (λ n. n % 4) (sym len) ∙ some_rest))
