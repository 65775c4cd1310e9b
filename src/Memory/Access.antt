-- ===== src/Memory/Access.antt =====
-- `memory_read` and `memory_write`: bounds, and what is read after a write.
use frozen.Base.{
  splice-nil, ℕ, zero, suc, ◌-◌, ◌<◌, ◌≡◌, refl, ◌⊎◌, inl, inr, some, [], arith, ◌==◌, take, drop,
  length, min, Result, ok, err, einval, eof, Bool-cases, sym, ap, ◌∙◌, length-take, window-take,
  splice, take-splice, length-splice, window-splice,
}
use frozen.Memory.{Bytes, Memory, memory_translate, memory_read, memory_write}
use frozen.Memory.Valid.{block, IsAllocated}
use frozen.Memory.Grow.{contents}

-- The bytes in use from `offset` on, `n` of them at most.
abbrev pub window : Memory → ℕ → ℕ → Bytes
window m offset n = take n (drop offset (contents m))

module _ (m : Memory) (a : IsAllocated m) where
  -- Past the bytes in use `memory_translate` is an error, and inside it gives what is left.
  translate_out :
      (offset n : ℕ)
      → min n (m.exact_size - offset) ≡ 0
      → (memory_translate m offset n ≡ err einval) ⊎ (memory_translate m offset n ≡ err eof)
  unfolding memory_translate
  translate_out offset n h = ground (arith, a.malloc)

  translate_in :
      (offset n : ℕ)
      → 0 < min n (m.exact_size - offset)
      → memory_translate m offset n ≡ ok (offset, min n (m.exact_size - offset))
  unfolding memory_translate
  translate_in offset n h = ground (arith, a.malloc)

  -- `memory_read` of an allocated memory never faults: it returns the bytes in use from the offset on,
  -- as many as were asked for or are left, and none past the end.
  pub memory_read-window : (offset n : ℕ) → memory_read m offset n ≡ ok (window m offset n)
  unfolding memory_read
  memory_read-window offset n = elim (Bool-cases (min n (m.exact_size - offset) == 0)) [
    | inl zero_left ↦
        let z : min n (m.exact_size - offset) ≡ 0 = ground arith in
        let w : window m offset n ≡ [] =
          window-take n offset m.exact_size (block m)
          ∙ ap (λ k. take k (drop offset (block m))) z in
        elim (translate_out offset n z) [
          | inl e ↦ rw (e, w, memory_read)
          | inr e ↦ rw (e, w, memory_read)
        ]
    | inr some_left ↦
        let p : 0 < min n (m.exact_size - offset) = ground arith in
        rw (translate_in offset n p, memory_read)
          (rw (a.has_block) (ap ok (sym (window-take n offset m.exact_size (block m)))))
  ]

  -- What a write leaves: the bytes that fit before the end of the bytes in use are copied in.
  pub record Written (offset : ℕ) (buffer : Bytes) (out : Memory × Result ℕ) : Type 0 where
    pub allocated : IsAllocated out.0
    pub size : out.0.exact_size ≡ m.exact_size
    pub count : out.1 ≡ ok (min (length buffer) (m.exact_size - offset))
    pub bytes :
        contents out.0
        ≡ splice (contents m) offset (take (min (length buffer) (m.exact_size - offset)) buffer)

  nothing-Written :
      (offset : ℕ) (buffer : Bytes)
      → min (length buffer) (m.exact_size - offset) ≡ 0
      → Written offset buffer (m, ok 0)
  nothing-Written offset buffer z = record {
    allocated = a;
    size = refl;
    count = ap ok (sym z);
    bytes = rw z (sym (splice-nil (contents m) offset));
  }

  something-Written :
      (offset : ℕ) (buffer : Bytes)
      → 0 < min (length buffer) (m.exact_size - offset)
      → let n = min (length buffer) (m.exact_size - offset) in
        Written offset buffer
          (record m { ptr = some (splice (block m) offset (take n buffer)) }, ok n)
  something-Written offset buffer p =
      let n = min (length buffer) (m.exact_size - offset) in
      let len : length (take n buffer) ≡ n = omega (arith, length-take n buffer) in
      record {
        allocated = record {
          has_block = refl;
          sized =
              length-splice (block m) offset (take n buffer) (omega (arith, a.sized, a.fits))
              ∙ a.sized;
          fits = a.fits;
          malloc = a.malloc;
        };
        size = refl;
        count = refl;
        bytes =
            take-splice m.exact_size (block m) offset (take n buffer) (omega arith)
              (omega (arith, a.sized, a.fits));
      }

  write-split :
      (offset n : ℕ) (buffer : Bytes)
      → memory_translate m offset (length buffer) ≡ ok (offset, n)
      → memory_write m offset buffer
        ≡ (record m { ptr = some (splice (block m) offset (take n buffer)) }, ok n)
  unfolding memory_write
  write-split offset n buffer e = ground (arith, a.has_block)

  pub memory_write-Written :
      (offset : ℕ) (buffer : Bytes) → Written offset buffer (memory_write m offset buffer)
  unfolding memory_write
  memory_write-Written offset buffer =
      elim (Bool-cases (min (length buffer) (m.exact_size - offset) == 0)) [
        | inl none_left ↦
            let z : min (length buffer) (m.exact_size - offset) ≡ 0 = ground arith in
            elim (translate_out offset (length buffer) z) [
              | inl e ↦ rw (e, memory_write) (nothing-Written offset buffer z)
              | inr e ↦ rw (e, memory_write) (nothing-Written offset buffer z)
            ]
        | inr some_left ↦
            let p : 0 < min (length buffer) (m.exact_size - offset) = ground arith in
            rw (write-split offset _ buffer (translate_in offset (length buffer) p))
              (something-Written offset buffer p)
      ]

read_back :
    (c buffer : Bytes) (offset n size : ℕ)
    → length c ≡ size
    → n ≡ min (length buffer) (size - offset)
    → take n (drop offset (splice c offset (take n buffer))) ≡ take n buffer
read_back c buffer offset zero size l e = refl
read_back c buffer offset (suc n) size l e =
    let len : length (take (suc n) buffer) ≡ suc n = omega (arith, length-take (suc n) buffer) in
    let w = window-splice c offset (take (suc n) buffer) (omega arith) in
    ap (λ k. take k (drop offset (splice c offset (take (suc n) buffer)))) (sym len) ∙ w

length-contents : (m : Memory) → IsAllocated m → length (contents m) ≡ m.exact_size
length-contents m a = omega (arith, length-take m.exact_size (block m), a.fits, a.sized)

-- A write to an allocated memory keeps it allocated and its size, copies the bytes that fit before the
-- end of the bytes in use and returns their number; reading as many at the same offset returns them.
pub memory_write-read :
    (m : Memory) (offset : ℕ) (buffer : Bytes)
    → IsAllocated m
    → let (m', r) = memory_write m offset buffer in
      let n = min (length buffer) (m.exact_size - offset) in
      (r ≡ ok n)
      × IsAllocated m'
      × (m'.exact_size ≡ m.exact_size)
      × (contents m' ≡ splice (contents m) offset (take n buffer))
      × (memory_read m' offset n ≡ ok (take n buffer))
memory_write-read m offset buffer a =
    let w = memory_write-Written m a offset buffer in
    let n = min (length buffer) (m.exact_size - offset) in
    (
      w.count,
      w.allocated,
      w.size,
      w.bytes,
      memory_read-window (memory_write m offset buffer).0 w.allocated offset n
          ∙ ap ok (
              ap (λ c. take n (drop offset c)) w.bytes
              ∙ read_back (contents m) buffer offset n m.exact_size (length-contents m a) refl),
    )
