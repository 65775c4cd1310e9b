-- ===== src/Memory/Valid.antt =====
-- The invariant of a `memory_t`, and the operations that change its size.
use native.Mathlib.Nat.{lt-mul-div-succ, div-mul-le_self, mod-eq_of_lt, div-le_self}
use frozen.Base.{
  ℕ, ◌+◌, ◌*◌, ◌/◌, ◌^◌, ◌≤◌, ◌<◌, ◌≡◌, refl, ◌⊎◌, inl, inr, true, false, Option, none, some, [],
  arith, ◌==◌, if◌then◌else◌, take, length, min, Result, ok, err, efault, add64, mul64, Bool-cases,
  Option-cases, take-take, sym, ap, ◌∙◌,
}
use frozen.Memory.{
  Bytes, MemoryType, freed, exact, page, double, alloc_malloc, Memory, memory_free, wanted_size,
  unchanged, reallocate, memory_resize,
}
use frozen.Memory.Realloc.{Reallocates}
use frozen.Memory.Double.{double_from_lem}

abbrev pub block : Memory → Bytes
block m = elim m.ptr [ none ↦ [] | some bytes ↦ bytes ]

-- The block is there, has `ptr_size` bytes and holds the `exact_size` bytes in use.
pub record IsAllocated (m : Memory) : Type 0 where
  pub has_block : m.ptr ≡ some (block m)
  pub sized : length (block m) ≡ m.ptr_size
  pub fits : m.exact_size ≤ m.ptr_size
  pub malloc : m.alloc ≡ alloc_malloc

-- What `memory_new` leaves: no block yet.
pub record IsNew (m : Memory) : Type 0 where
  pub no_block : m.ptr ≡ none
  pub empty : m.ptr_size ≡ 0
  pub malloc : m.alloc ≡ alloc_malloc

-- The sizes at which the policy of a type computes a size without overflow.
abbrev pub Fits : MemoryType → ℕ → ℕ → Type 0
Fits freed page_size n = ⊥
Fits exact page_size n = Unit {0}
Fits page page_size n = (0 < page_size) × (n + page_size < 2 ^ 64)
Fits double page_size n = n ≤ 2 ^ 63

page_rounds :
    (p n : ℕ)
    → 0 < p
    → n + p < 2 ^ 64
    → (mul64 (add64 (n / p) 1) p ≡ (n / p + 1) * p)
      × (n < (n / p + 1) * p)
      × ((n / p + 1) * p ≤ n + p)
page_rounds p n h b =
    let d : n / p * p ≤ n = div-mul-le_self n p in
    let l : n < p * (n / p + 1) = lt-mul-div-succ n h in
    let s : n / p ≤ n = div-le_self n p in
    let a : add64 (n / p) 1 ≡ n / p + 1 = mod-eq_of_lt (omega arith) in
    let m : (n / p + 1) * p ≡ n / p * p + p = omega arith in
    (rw a (mod-eq_of_lt (omega arith)), omega arith, omega arith)

-- The size that is asked for holds the new size; except for the exact type it is positive, and for
-- the page type it is the least multiple of the page size above the new size.
pub wanted_size_lem :
    (type : MemoryType) (page_size n : ℕ)
    → Fits type page_size n
    → (t : ℕ) × (wanted_size type page_size n ≡ ok t) × (n ≤ t) × ((type ≡ exact) ⊎ (0 < t))
unfolding wanted_size
wanted_size_lem freed p n f = absurd f
wanted_size_lem exact p n f = (n, refl, omega arith, inl refl)
wanted_size_lem page p n f =
    let (e, lt, le) = page_rounds p n f.0 f.1 in
    let z : (p == 0) ≡ false = ground arith in
    ((n / p + 1) * p, rw (z, e), omega arith, inr (omega arith))
wanted_size_lem double p n f =
    let (t, e, big, from, top, tight) = double_from_lem n f in
    (t, rw (e, wanted_size), big, inr (omega arith))

unchanged_lem :
    (type : MemoryType) (s t : ℕ)
    → (type ≡ exact) ⊎ (0 < t)
    → unchanged type s t ≡ true
    → (s ≡ t) × (0 < t)
unfolding unchanged
unchanged_lem exact s t h e = cc
unchanged_lem freed s t h e = ground arith
unchanged_lem page s t h e = ground arith
unchanged_lem double s t h e = ground arith

-- The bytes that are in use, and stay so at size `n`: none where there is no block.
abbrev pub in_use : Memory → ℕ → ℕ
in_use m n = min n (min m.exact_size (length (block m)))

-- What a successful change to size `n` leaves of `m`.
pub record Resized (m : Memory) (n : ℕ) (m' : Memory) : Type 0 where
  pub allocated : IsAllocated m'
  pub size : m'.exact_size ≡ n
  pub kept : take (in_use m n) (block m') ≡ take (in_use m n) (block m)
  pub same_type : m'.type ≡ m.type
  pub same_page : m'.page_size ≡ m.page_size
  pub same_zero : m'.zero_fill ≡ m.zero_fill

pub Resized-kept :
    (m : Memory) (n : ℕ) (m' : Memory)
    → IsAllocated m
    → Resized m n m'
    → (k : ℕ) → k ≤ n
    → k ≤ m.exact_size
    → take k (block m') ≡ take k (block m)
Resized-kept m n m' a r k kn km =
    let le : k ≤ in_use m n = omega (arith, a.fits, a.sized) in
    sym (take-take k (in_use m n) (block m') le)
    ∙ ap (take k) r.kept
    ∙ take-take k (in_use m n) (block m) le

module _ (realloc : Option Bytes → ℕ → Option Bytes) (spec : Reallocates realloc) where
  -- Either the change succeeds, or the memory is freed and the result is EFAULT.
  abbrev pub Outcome : Memory → ℕ → Memory × Result (Unit {0}) → Type 0
  Outcome m n out =
      ((out.1 ≡ ok tt) × Resized m n out.0) ⊎ ((out.1 ≡ err efault) × (out.0 ≡ memory_free m))

  reallocate-none :
      (m : Memory)
      → m.alloc ≡ alloc_malloc
      → realloc m.ptr m.ptr_size ≡ none
      → reallocate realloc m ≡ (memory_free m, err efault)
  unfolding reallocate
  reallocate-none m a e = ground arith

  reallocate-some :
      (m : Memory) (bytes : Bytes)
      → m.alloc ≡ alloc_malloc
      → realloc m.ptr m.ptr_size ≡ some bytes
      → reallocate realloc m ≡ (record m { ptr = some bytes }, ok tt)
  unfolding reallocate
  reallocate-some m bytes a e = ground arith

  -- The new block keeps the bytes in use of the old one.
  realloc_kept :
      (m : Memory) (n t : ℕ) (bytes : Bytes)
      → realloc m.ptr t ≡ some bytes
      → n ≤ t
      → IsNew m ⊎ IsAllocated m
      → take (in_use m n) bytes ≡ take (in_use m n) (block m)
  realloc_kept m n t bytes e le (inl new) =
      let nothing : block m ≡ [] =
        ap (λ p. elim p [ none ↦ [] | some bytes ↦ bytes ]) new.no_block in
      let z : in_use m n ≡ 0 = omega (arith, ap (length {A = ℕ}) nothing) in rw z
  realloc_kept m n t bytes e le (inr a) =
      let e' : realloc (some (block m)) t ≡ some bytes = rw (← a.has_block) e in
      let h = spec.keeps (block m) t bytes e' in
      let k : in_use m n ≤ min t (length (block m)) = omega (arith, a.fits, a.sized) in
      sym (take-take (in_use m n) (min t (length (block m))) bytes k)
      ∙ ap (take (in_use m n)) h
      ∙ take-take (in_use m n) (min t (length (block m))) (block m) k

  pub malloc_of : (m : Memory) → IsNew m ⊎ IsAllocated m → m.alloc ≡ alloc_malloc
  malloc_of m (inl n) = n.malloc
  malloc_of m (inr a) = a.malloc

  reallocate_lem :
      (m : Memory) (n t : ℕ)
      → IsNew m ⊎ IsAllocated m
      → n ≤ t
      → Outcome m n (reallocate realloc (record m { exact_size = n; ptr_size = t }))
  unfolding memory_free
  reallocate_lem m n t h le = elim (Option-cases (realloc m.ptr t)) [
    | inl e ↦
        rw (reallocate-none (record m { exact_size = n; ptr_size = t }) (malloc_of m h) e)
          (inr (refl, freed_same))
    | inr (bytes, e) ↦
        rw (reallocate-some (record m { exact_size = n; ptr_size = t }) bytes (malloc_of m h) e) (
          inl (
            refl,
            record {
              allocated = record {
                has_block = refl;
                sized = spec.sized m.ptr t bytes e;
                fits = le;
                malloc = malloc_of m h;
              };
              size = refl;
              kept = realloc_kept m n t bytes e le h;
              same_type = refl;
              same_page = refl;
              same_zero = refl;
            },
          ))
  ]
    where
      freed_same : memory_free (record m { exact_size = n; ptr_size = t }) ≡ memory_free m
      freed_same = refl

  resize-split :
      (m : Memory) (n t : ℕ)
      → wanted_size m.type m.page_size n ≡ ok t
      → memory_resize realloc m n ≡ (
          if unchanged m.type m.ptr_size t
          then (record m { exact_size = n }, ok tt)
          else reallocate realloc (record m { exact_size = n; ptr_size = t }))
  unfolding memory_resize
  resize-split m n t e = rw (e, memory_resize)

  -- From a memory that is new or allocated, at a size that its policy can compute, `memory_resize`
  -- either succeeds, with an allocated memory of the new size that keeps the bytes in use at both
  -- sizes and the policy, or frees the memory and returns EFAULT.
  pub memory_resize-Resized :
      (m : Memory) (n : ℕ)
      → IsNew m ⊎ IsAllocated m
      → Fits m.type m.page_size n
      → Outcome m n (memory_resize realloc m n)
  memory_resize-Resized m n h f =
      let (t, e, le, pos) = wanted_size_lem m.type m.page_size n f in
      elim (Bool-cases (unchanged m.type m.ptr_size t)) [
        | inr new ↦ rw (resize-split m n t e, new) (reallocate_lem m n t h le)
        | inl old ↦
            let (same, tpos) = unchanged_lem m.type m.ptr_size t pos old in
            rw (resize-split m n t e, old)
              (elim h [
                | inl new ↦ absurd (omega (arith, new.empty))
                | inr a ↦ inl (
                  refl,
                  record {
                    allocated = record {
                      has_block = a.has_block;
                      sized = a.sized;
                      fits = omega arith;
                      malloc = a.malloc;
                    };
                    size = refl;
                    kept = refl;
                    same_type = refl;
                    same_page = refl;
                    same_zero = refl;
                  },
                )
              ])
      ]
