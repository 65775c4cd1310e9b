-- ===== src/Memory.antt =====
-- src/libfrozen/data/memory/memory_t.c: a block of memory that grows and shrinks by an allocation
-- policy. Bytes are numbers; sizes are words below 2 ^ 64. `realloc` is a parameter.
pub mod Realloc
pub mod Double
pub mod Valid
pub mod Grow
pub mod Access
mod Tests
use frozen.Base.{
  splice, [], ℕ, zero, suc, ◌+◌, ◌-◌, ◌*◌, ◌/◌, ◌%◌, ◌^◌, Bool, true, false, Option, none, some,
  List, ◌++◌, ltb, leb, ◌==◌, if◌then◌else◌, take, drop, replicate, length, min, Result, ok, err,
  fault, einval, efault, eof, uint_max, add64, sub64, mul64,
}

abbrev pub Bytes : Type 0
Bytes = List ℕ

-- `memory_t_type`.
pub data MemoryType : Type 0 where
  freed exact page double : MemoryType

-- `memory_t_alloc`.
pub data MemoryAlloc : Type 0 where
  alloc_freed alloc_malloc : MemoryAlloc

-- `memory_t`; `none` is the NULL of `ptr`.
pub record Memory : Type 0 where
  pub ptr : Option Bytes
  pub ptr_size : ℕ
  pub exact_size : ℕ
  pub page_size : ℕ
  pub zero_fill : Bool
  pub type : MemoryType
  pub alloc : MemoryAlloc

-- `memory_new`, which sets every field but `exact_size`.
unfoldable pub memory_new : Memory → MemoryType → MemoryAlloc → ℕ → Bool → Memory
memory_new memory type alloc page_size zero_fill = record memory {
  ptr = none;
  ptr_size = 0;
  type = type;
  alloc = alloc;
  page_size = page_size;
  zero_fill = zero_fill;
}

-- `memory_free`: what `memset(memory, 0, ...)` leaves.
unfoldable pub memory_free : Memory → Memory
memory_free memory = record {
  ptr = none;
  ptr_size = 0;
  exact_size = 0;
  page_size = 0;
  zero_fill = false;
  type = freed;
  alloc = alloc_freed;
}

unfoldable pub memory_size : Memory → ℕ
memory_size memory = memory.exact_size

-- `for(t = 1; t < new_size; t <<= 1);` on fuel; `none` is a loop that has not ended.
unfoldable pub double_from : ℕ → ℕ → ℕ → Option ℕ
double_from zero t new_size = none
double_from (suc fuel) t new_size =
    let rest = double_from fuel (mul64 t 2) new_size in if ltb t new_size then rest else some t

-- The size that `memory_resize` asks for, as the `switch` on the type computes it. 64 doublings and
-- the last test are all that the loop can make before `t` wraps to 0, from where it does not end:
-- `fault` stands for that too.
unfoldable pub wanted_size : MemoryType → ℕ → ℕ → Result ℕ
unfolding double_from
wanted_size freed page_size new_size = err efault
wanted_size exact page_size new_size = ok new_size
wanted_size page page_size new_size =
    if page_size == 0 then fault else ok (mul64 (add64 (new_size / page_size) 1) page_size)
wanted_size double page_size new_size = elim (double_from 65 1 new_size) [
  | none ↦ fault
  | some t ↦ ok t
]

-- The return at an unchanged size, which the exact type does not make.
unfoldable pub unchanged : MemoryType → ℕ → ℕ → Bool
unchanged exact ptr_size t = false
unchanged _ ptr_size t = t == ptr_size

-- `memset(ptr + offset, 0, size)`.
unfoldable pub clear_from : Memory → ℕ → ℕ → Memory
clear_from memory offset size = record memory {
  ptr = elim memory.ptr [
    | none ↦ none
    | some bytes ↦ some (take offset bytes ++ (replicate size 0 ++ drop (offset + size) bytes))
  ];
}

-- `memory_grow` behind its call of `memory_resize`.
unfoldable pub grown : Memory × Result (Unit {0}) → ℕ → ℕ → Memory × Result ℕ
unfolding clear_from
grown (m, err e) offset size = (m, err e)
grown (m, fault) offset size = (m, fault)
grown (m, ok _) offset size = ((if m.zero_fill then clear_from m offset size else m), ok offset)

module _ (realloc : Option Bytes → ℕ → Option Bytes) where
  -- The second half of `memory_resize`.
  unfoldable pub reallocate : Memory → Memory × Result (Unit {0})
  unfolding memory_free
  reallocate memory = elim memory.alloc [
    | alloc_malloc ↦ elim (realloc memory.ptr memory.ptr_size) [
      | none ↦ (memory_free memory, err efault)
      | some bytes ↦ (record memory { ptr = some bytes }, ok tt)
    ]
    | alloc_freed ↦ (memory_free memory, err efault)
  ]

  unfoldable pub memory_resize : Memory → ℕ → Memory × Result (Unit {0})
  unfolding wanted_size unchanged reallocate
  memory_resize memory new_size =
      let sized = record memory { exact_size = new_size } in
      elim (wanted_size memory.type memory.page_size new_size) [
        | err e ↦ (sized, err e)
        | fault ↦ (sized, fault)
        | ok t ↦
            if unchanged memory.type memory.ptr_size t
            then (sized, ok tt)
            else reallocate (record sized { ptr_size = t })
      ]

  -- `memory_grow`: the new state, the result and the offset stored through `pointer`.
  unfoldable pub memory_grow : Memory → ℕ → Memory × Result ℕ
  unfolding memory_resize grown
  memory_grow memory size =
      if leb (uint_max - size) memory.exact_size
      then (memory, err einval)
      else grown (memory_resize memory (memory.exact_size + size)) memory.exact_size size

  unfoldable pub memory_shrink : Memory → ℕ → Memory × Result (Unit {0})
  unfolding memory_resize
  memory_shrink memory size =
      if ltb memory.exact_size size
      then (memory, err einval)
      else memory_resize memory (memory.exact_size - size)

-- `memory_translate`: the offset into the block, and the size that is there.
unfoldable pub memory_translate : Memory → ℕ → ℕ → Result (ℕ × ℕ)
memory_translate memory pointer size = elim memory.alloc [
  | alloc_freed ↦ err efault
  | alloc_malloc ↦
      if ltb memory.exact_size pointer
      then err einval
      else let size' = min size (memory.exact_size - pointer) in
        if size' == 0 then err eof else ok (pointer, size')
]

-- `memory_read`: the bytes that are copied out, as many as it returns; none on any error. A block
-- that is NULL faults.
unfoldable pub memory_read : Memory → ℕ → ℕ → Result Bytes
unfolding memory_translate
memory_read memory offset buffer_size = elim (memory_translate memory offset buffer_size) [
  | err e ↦ ok []
  | fault ↦ fault
  | ok (at, size) ↦ elim memory.ptr [ none ↦ fault | some bytes ↦ ok (take size (drop at bytes)) ]
]

-- `memory_write`: the new state and the number of bytes written.
unfoldable pub memory_write : Memory → ℕ → Bytes → Memory × Result ℕ
unfolding memory_translate
memory_write memory offset buffer = elim (memory_translate memory offset (length buffer)) [
  | err e ↦ (memory, ok 0)
  | fault ↦ (memory, fault)
  | ok (at, size) ↦ elim memory.ptr [
    | none ↦ (memory, fault)
    | some bytes ↦ (record memory { ptr = some (splice bytes at (take size buffer)) }, ok size)
  ]
]
