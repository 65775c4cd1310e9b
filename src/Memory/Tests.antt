-- ===== src/Memory/Tests.antt =====
-- The memory on small blocks, with an allocator that always returns.
use frozen.Base.{
  ◌+◌, ◌-◌, ◌≡◌, ◌≤◌, ◌<◌, ◌⊎◌, inr, refl, true, false, none, some, [], ◌∷◌, arith, ok, err, einval,
  efault, take, splice, uint_max,
}
use frozen.Memory.{
  Memory, page, double, alloc_malloc, memory_new, memory_free, memory_size, double_from,
  memory_resize, memory_grow, memory_shrink, memory_read, memory_write,
}
use frozen.Memory.Realloc.{always, always-Reallocates}
use frozen.Memory.Double.{double_from_diverges}
use frozen.Memory.Valid.{IsAllocated, Outcome, memory_resize-Resized}
use frozen.Memory.Grow.{contents, Grown, memory_grow-Grown, memory_shrink-Shrunk}
use frozen.Memory.Access.{memory_write-read}

abbrev three : Memory
three = record {
  ptr = some (1 ∷ 2 ∷ 3 ∷ 0 ∷ []);
  ptr_size = 4;
  exact_size = 3;
  page_size = 0;
  zero_fill = true;
  type = double;
  alloc = alloc_malloc;
}

three-IsAllocated : IsAllocated three
three-IsAllocated = record { has_block = refl; sized = refl; fits = omega arith; malloc = refl }

test_new : memory_size (memory_new (memory_free three) page alloc_malloc 4096 false) ≡ 0
unfolding memory_size memory_new memory_free
test_new = refl

double_from_diverges_example : double_from 65 1 9223372036854775809 ≡ none
double_from_diverges_example = double_from_diverges 65 9223372036854775809 (omega arith)

memory_resize-Resized_example :
    Outcome always always-Reallocates three 9 (memory_resize always three 9)
memory_resize-Resized_example =
    memory_resize-Resized always always-Reallocates three 9 (inr three-IsAllocated) (omega arith)

memory_grow-Grown_example :
    let (m', r) = memory_grow always three 6 in
    ((r ≡ err einval) × (m' ≡ three) × (uint_max ≤ 3 + 6))
    ⊎ ((r ≡ ok 3) × Grown three 6 m' × (3 + 6 < uint_max))
    ⊎ ((r ≡ err efault) × (m' ≡ memory_free three))
memory_grow-Grown_example =
    memory_grow-Grown always always-Reallocates three three-IsAllocated 6 (omega arith)

memory_shrink-Shrunk_example :
    let (m', r) = memory_shrink always three 2 in
    ((r ≡ err einval) × (m' ≡ three) × (3 < 2))
    ⊎ ((r ≡ ok tt) × IsAllocated m' × (2 ≤ 3) × (contents m' ≡ take (3 - 2) (contents three)))
    ⊎ ((r ≡ err efault) × (m' ≡ memory_free three))
memory_shrink-Shrunk_example =
    memory_shrink-Shrunk always always-Reallocates three three-IsAllocated 2 (omega arith)

memory_write-read_example :
    let (m', r) = memory_write three 1 (8 ∷ 9 ∷ 10 ∷ []) in
    (r ≡ ok 2)
    × IsAllocated m'
    × (m'.exact_size ≡ 3)
    × (contents m' ≡ splice (contents three) 1 (8 ∷ 9 ∷ []))
    × (memory_read m' 1 2 ≡ ok (8 ∷ 9 ∷ []))
memory_write-read_example = memory_write-read three 1 (8 ∷ 9 ∷ 10 ∷ []) three-IsAllocated
