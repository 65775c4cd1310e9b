-- ===== src/Uint/Bytes.antt =====
-- The conversions of the unsigned types: a word written to a memory and read back.
use native.Mathlib.Nat.{pow-succ', pow-zero}
use frozen.Base.{
  ℕ, zero, suc, ◌-◌, ◌*◌, ◌/◌, ◌^◌, ◌≤◌, ◌<◌, ◌≡◌, refl, Option, some, List, ◌++◌, arith, take,
  replicate, length, min, Result, ok, ap, sym, ◌∙◌, take-append, take_all,
}
use frozen.Uint.{modulus, binary, to_bytes, of_bytes, uint_convert_to, uint_convert_from, read_word}
use frozen.Memory.{Memory, memory_read, memory_write}
use frozen.Memory.Valid.{IsAllocated}
use frozen.Memory.Access.{memory_write-read}

length-to_bytes : (n v : ℕ) → length (to_bytes n v) ≡ n
unfolding to_bytes
length-to_bytes zero v = refl
length-to_bytes (suc n) v = ap suc (length-to_bytes n (v / 256))

of_bytes-to_bytes : (n v : ℕ) → v < 256 ^ n → of_bytes (to_bytes n v) ≡ v
unfolding to_bytes of_bytes
of_bytes-to_bytes zero v h = let e : 256 ^ 0 ≡ 1 = pow-zero 256 in omega (arith, h, e)
of_bytes-to_bytes (suc n) v h =
    let e : 256 ^ suc n ≡ 256 * 256 ^ n = pow-succ' 256 n in
    let lt : v / 256 < 256 ^ n = omega (arith, h, e) in
    let ih = of_bytes-to_bytes n (v / 256) lt in omega (arith, ih)

modulus_bytes : (k : ℕ) → modulus k ≡ 256 ^ k
modulus_bytes zero = refl
modulus_bytes (suc k) =
    let n = 8 * k in
    let e : 8 * suc k ≡ suc (suc (suc (suc (suc (suc (suc (suc n))))))) = omega arith in
    ap (λ i. 2 ^ i) e
    ∙ omega (
      arith,
      modulus_bytes k,
      pow-succ' 256 k,
      pow-succ' 2 n,
      pow-succ' 2 (suc n),
      pow-succ' 2 (suc (suc n)),
      pow-succ' 2 (suc (suc (suc n))),
      pow-succ' 2 (suc (suc (suc (suc n)))),
      pow-succ' 2 (suc (suc (suc (suc (suc n))))),
      pow-succ' 2 (suc (suc (suc (suc (suc (suc n)))))),
      pow-succ' 2 (suc (suc (suc (suc (suc (suc (suc n))))))),
    )

-- A source that gives all the bytes of a word makes the word.
read_word-bytes :
    (k a : ℕ) (strtoul : List ℕ → ℕ) (read : ℕ → Result (List ℕ))
    → a < modulus k
    → read k ≡ ok (to_bytes k a)
    → read_word k strtoul read binary ≡ ok a
unfolding read_word
read_word-bytes k a strtoul read lt got =
    let bytes = to_bytes k a in
    let word : of_bytes (take k (bytes ++ replicate k 0)) ≡ a =
      ap (λ n. of_bytes (take n (bytes ++ replicate k 0))) (sym (length-to_bytes k a))
      ∙ ap of_bytes (take-append bytes (replicate k 0))
      ∙ of_bytes-to_bytes k a (omega (arith, lt, modulus_bytes k)) in
    rw (got, read_word) (ap ok word)

convert_from-word :
    (k a : ℕ) (strtoul : List ℕ → ℕ) (memory : Option ℕ) (read : ℕ → Result (List ℕ)) (old : ℕ)
    → read_word k strtoul read binary ≡ ok a
    → uint_convert_from k strtoul memory (some read) binary (some old) ≡ (some a, ok tt)
unfolding uint_convert_from
convert_from-word k a strtoul memory read old e = rw (e, uint_convert_from)

-- A word that is written in the binary format to a memory that has room for it and read back in that
-- format is the same word, and all of its bytes are transferred.
pub uint_convert_to-from :
    (k a : ℕ) (m : Memory) (strtoul : List ℕ → ℕ) (memory : Option ℕ) (old : ℕ)
    → a < modulus k
    → IsAllocated m
    → k ≤ m.exact_size
    → let (m', r) = memory_write m 0 (to_bytes k a) in
      (uint_convert_to k (some (λ bytes. (memory_write m 0 bytes).1)) binary a ≡ ok k)
      × (uint_convert_from k strtoul memory (some (memory_read m' 0)) binary (some old)
          ≡ (some a, ok tt))
unfolding uint_convert_to
uint_convert_to-from k a m strtoul memory old lt alloc room =
    let bytes = to_bytes k a in
    let (r, _, _, _, back) = memory_write-read m 0 bytes alloc in
    let n : min (length bytes) (m.exact_size - 0) ≡ k = omega (arith, room, length-to_bytes k a) in
    let whole : take k bytes ≡ bytes = take_all k bytes (omega (arith, length-to_bytes k a)) in
    let m' = (memory_write m 0 bytes).0 in
    let got : memory_read m' 0 k ≡ ok bytes =
      ap (memory_read m' 0) (sym n) ∙ back ∙ ap (λ n. ok (take n bytes)) n ∙ ap ok whole in
    (
      r ∙ ap ok n,
      convert_from-word k a strtoul memory (memory_read m' 0) old
          (read_word-bytes k a strtoul (memory_read m' 0) lt got),
    )
