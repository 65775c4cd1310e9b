-- ===== src/Memory/Grow.antt =====
-- `memory_grow` and `memory_shrink`: what is in the memory afterwards.
use mathlib.Core.List.{append_assoc}
use frozen.Base.{
  if-intro, leb→lt, leb→le, ltb→lt, ltb→le, ℕ, ◌+◌, ◌-◌, ◌≤◌, ◌<◌, ◌≡◌, refl, ◌⊎◌, inl, inr, true,
  false, Option, some, ◌++◌, arith, ltb, leb, take, drop, replicate, length, Result, ok, err, fault,
  einval, efault, uint_max, Bool-cases, take-take, sym, ap, ◌∙◌, length-append, length-take,
  length-drop, length-replicate, take-append, take-append_le,
}
use frozen.Memory.{
  Bytes, Memory, memory_free, memory_resize, memory_grow, memory_shrink, clear_from, grown,
}
use frozen.Memory.Realloc.{Reallocates}
use frozen.Memory.Valid.{
  block, IsAllocated, Fits, Resized, Resized-kept, Outcome, memory_resize-Resized,
}

-- The bytes in use.
abbrev pub contents : Memory → Bytes
contents m = take m.exact_size (block m)

cleared : Bytes → ℕ → ℕ → Bytes
cleared bytes offset size = take offset bytes ++ (replicate size 0 ++ drop (offset + size) bytes)

module _ (bytes : Bytes) (offset size : ℕ) (inside : offset + size ≤ length bytes) where
  length-cleared : length (cleared bytes offset size) ≡ length bytes
  unfolding cleared
  length-cleared = omega (
    arith,
    length-append (take offset bytes) (replicate size 0 ++ drop (offset + size) bytes),
    length-append (replicate size 0) (drop (offset + size) bytes),
    length-take offset bytes,
    length-drop (offset + size) bytes,
    length-replicate {A = ℕ} size 0,
  )

  take-cleared :
      take (offset + size) (cleared bytes offset size) ≡ take offset bytes ++ replicate size 0
  unfolding cleared
  take-cleared =
      let front : Bytes = take offset bytes ++ replicate size 0 in
      let n : offset + size ≡ length front = omega (
        arith,
        length-append (take offset bytes) (replicate size 0),
        length-take offset bytes,
        length-replicate {A = ℕ} size 0,
      ) in
      ap (take (offset + size)) (sym (append_assoc (take offset bytes) (replicate size 0) _))
      ∙ ap (λ k. take k (front ++ drop (offset + size) bytes)) n
      ∙ take-append front (drop (offset + size) bytes)

-- What a successful `memory_grow` by `size` leaves.
pub record Grown (m : Memory) (size : ℕ) (m' : Memory) : Type 0 where
  pub allocated : IsAllocated m'
  pub size_lem : m'.exact_size ≡ m.exact_size + size
  pub kept : take m.exact_size (contents m') ≡ contents m
  pub zeroed : (m.zero_fill ≡ false) ⊎ (contents m' ≡ contents m ++ replicate size 0)

clear_from-block :
    (m : Memory) (bytes : Bytes) (offset size : ℕ)
    → m.ptr ≡ some bytes
    → clear_from m offset size ≡ record m { ptr = some (cleared bytes offset size) }
unfolding clear_from cleared
clear_from-block m bytes offset size e = ground arith

module _ (m m' : Memory) (size : ℕ) (a : IsAllocated m)
    (r : Resized m (m.exact_size + size) m') where
  kept_front : take m.exact_size (contents m') ≡ contents m
  kept_front =
      let n : m.exact_size ≤ m'.exact_size = omega (arith, r.size) in
      take-take m.exact_size m'.exact_size (block m') n
      ∙ Resized-kept m (m.exact_size + size) m' a r m.exact_size (omega arith) (omega arith)

  inside : m.exact_size + size ≤ length (block m')
  inside = omega (arith, r.size, r.allocated.fits, r.allocated.sized)

  plain-Grown : m'.zero_fill ≡ false → Grown m size m'
  plain-Grown z = record {
    allocated = r.allocated;
    size_lem = r.size;
    kept = kept_front;
    zeroed = inl (sym r.same_zero ∙ z);
  }

  cleared-contents :
      take m'.exact_size (cleared (block m') m.exact_size size) ≡ contents m ++ replicate size 0
  cleared-contents =
      ap (λ k. take k (cleared (block m') m.exact_size size)) r.size
      ∙ take-cleared (block m') m.exact_size size inside
      ∙ ap (λ t. t ++ replicate size 0)
          (Resized-kept m (m.exact_size + size) m' a r m.exact_size (omega arith) (omega arith))

  length-contents : length (contents m) ≡ m.exact_size
  length-contents = omega (arith, length-take m.exact_size (block m), a.fits, a.sized)

  clear-Grown : Grown m size (clear_from m' m.exact_size size)
  clear-Grown =
      rw (clear_from-block m' (block m') m.exact_size size r.allocated.has_block) (record {
        allocated = record {
          has_block = refl;
          sized = length-cleared (block m') m.exact_size size inside ∙ r.allocated.sized;
          fits = r.allocated.fits;
          malloc = r.allocated.malloc;
        };
        size_lem = r.size;
        kept =
            ap (take m.exact_size) cleared-contents
            ∙ take-append_le m.exact_size (contents m) (replicate size 0)
                (omega (arith, length-contents))
            ∙ take-take m.exact_size m.exact_size (block m) (omega arith);
        zeroed = inr cleared-contents;
      })

module _ (realloc : Option Bytes → ℕ → Option Bytes) (spec : Reallocates realloc) (m : Memory)
    (a : IsAllocated m) where
  grow-split :
      (size : ℕ)
      → leb (uint_max - size) m.exact_size ≡ false
      → memory_grow realloc m size
        ≡ grown (memory_resize realloc m (m.exact_size + size)) m.exact_size size
  unfolding memory_grow
  grow-split size e = rw e

  grown-lem :
      (size : ℕ) (out : Memory × Result (Unit {0}))
      → Outcome realloc spec m (m.exact_size + size) out
      → let (m', r) = grown out m.exact_size size in
        ((r ≡ ok m.exact_size) × Grown m size m') ⊎ ((r ≡ err efault) × (m' ≡ memory_free m))
  unfolding grown
  grown-lem size (m', ok u) o = elim o [
    | inr (bad, _) ↦ absurd (cc bad)
    | inl (_, r) ↦ inl (
      refl,
      if-intro (Grown m size) m'.zero_fill (λ z. clear-Grown m m' size a r)
          (plain-Grown m m' size a r),
    )
  ]
  grown-lem size (m', err e) o = elim o [
    | inl (bad, _) ↦ absurd (cc bad)
    | inr (e', f) ↦ inr (cc, f)
  ]
  grown-lem size (m', fault) o = elim o [
    | inl (bad, _) ↦ absurd (cc bad)
    | inr (bad, _) ↦ absurd (cc bad)
  ]

  grow_full :
      (size : ℕ)
      → leb (uint_max - size) m.exact_size ≡ true
      → let (m', r) = memory_grow realloc m size in
        (r ≡ err einval) × (m' ≡ m) × (uint_max ≤ m.exact_size + size)
  unfolding memory_grow
  grow_full size full =
      let le : uint_max - size ≤ m.exact_size = leb→le _ _ full in rw full (refl, refl, omega arith)

  shrink-Outcome :
      (size : ℕ) (out : Memory × Result (Unit {0}))
      → size ≤ m.exact_size
      → Outcome realloc spec m (m.exact_size - size) out
      → ((out.1 ≡ ok tt)
          × IsAllocated out.0
          × (size ≤ m.exact_size)
          × (contents out.0 ≡ take (m.exact_size - size) (contents m)))
        ⊎ ((out.1 ≡ err efault) × (out.0 ≡ memory_free m))
  shrink-Outcome size (m', r) le o = elim o [
    | inr bad ↦ inr bad
    | inl (e, s) ↦ inl (
      e,
      s.allocated,
      le,
      ap (λ k. take k (block m')) s.size
          ∙ Resized-kept m (m.exact_size - size) m' a s (m.exact_size - size) (omega arith)
              (omega arith)
          ∙ sym (take-take (m.exact_size - size) m.exact_size (block m) (omega arith)),
    )
  ]

  -- `memory_grow` of an allocated memory returns EINVAL and changes nothing if the new size would not
  -- be below the largest `uintmax_t`. Else, at a size that the policy can compute, it either returns the
  -- old size as the offset, keeps the bytes in use, adds `size` bytes, zeros if the memory is to be
  -- cleared, and leaves an allocated memory; or it frees the memory and returns EFAULT.
  pub memory_grow-Grown :
      (size : ℕ)
      → Fits m.type m.page_size (m.exact_size + size)
      → let (m', r) = memory_grow realloc m size in
        ((r ≡ err einval) × (m' ≡ m) × (uint_max ≤ m.exact_size + size))
        ⊎ ((r ≡ ok m.exact_size) × Grown m size m' × (m.exact_size + size < uint_max))
        ⊎ ((r ≡ err efault) × (m' ≡ memory_free m))
  memory_grow-Grown size f = elim (Bool-cases (leb (uint_max - size) m.exact_size)) [
    | inl full ↦ inl (grow_full size full)
    | inr free ↦
        rw (grow-split size free)
          (elim (grown-lem size _
            (memory_resize-Resized realloc spec m (m.exact_size + size) (inr a) f)) [
              | inl (e, g) ↦ inr (inl (e, g, omega (arith, leb→lt _ _ free)))
              | inr bad ↦ inr (inr bad)
            ])
  ]

  -- `memory_shrink` of an allocated memory returns EINVAL and changes nothing if fewer than `size`
  -- bytes are in use. Else, at a size that the policy can compute, it either drops the last `size`
  -- bytes and leaves an allocated memory, or frees the memory and returns EFAULT.
  pub memory_shrink-Shrunk :
      (size : ℕ)
      → Fits m.type m.page_size (m.exact_size - size)
      → let (m', r) = memory_shrink realloc m size in
        ((r ≡ err einval) × (m' ≡ m) × (m.exact_size < size))
        ⊎ ((r ≡ ok tt)
            × IsAllocated m'
            × (size ≤ m.exact_size)
            × (contents m' ≡ take (m.exact_size - size) (contents m)))
        ⊎ ((r ≡ err efault) × (m' ≡ memory_free m))
  unfolding memory_shrink
  memory_shrink-Shrunk size f = elim (Bool-cases (ltb m.exact_size size)) [
    | inl short ↦ rw short (inl (refl, refl, ltb→lt _ _ short))
    | inr enough ↦ rw enough (
        inr (
          shrink-Outcome size _ (ltb→le _ _ enough)
            (memory_resize-Resized realloc spec m (m.exact_size - size) (inr a) f)))
  ]
