-- ===== src/Transfer.antt =====
-- src/libfrozen/data/default/default_t.c, and the reads and writes of memory_t.c, slice_t.c and
-- slider_t.c: the handlers that a data type inherits, on the block that ACTION_GETDATAPTR and
-- ACTION_LOGICALLEN give, and the loops over reads and writes of any data.
pub mod Copied
pub mod Endless
pub mod Sliced
pub mod Slid
mod Tests
use frozen.Base.{
  add64, ℕ, zero, suc, ◌+◌, ◌-◌, ◌≤◌, ◌<◌, min, Bool, true, false, Option, none, some, List, [],
  ◌∷◌, ◌++◌, ◌==◌, ltb, if◌then◌else◌, length, take, drop, splice, Result, ok, err, fault, einval,
  efault, eof, ◌^◌,
}
use frozen.Memory.{Bytes, Memory, memory_read, memory_write}

-- What an io call leaves: its return value, `fargs->buffer_size`, and the bytes in the buffer.
abbrev pub Io : Type 0
Io = Result ℕ × ℕ × Bytes

-- `data_default_read` into a buffer that is not NULL, as all of the calls here give one; for a NULL buffer
-- the code returns EINVAL. `none` is a block that cannot be had, or is NULL.
unfoldable pub data_default_read : Option Bytes → ℕ → ℕ → Io
data_default_read none offset buffer_size = (err efault, buffer_size, [])
data_default_read (some block) offset buffer_size =
    if length block == 0
    then (err eof, buffer_size, [])
    else if ltb (length block) offset
    then (err einval, buffer_size, [])
    else let size = min buffer_size (length block - offset) in
      if size == 0 then (err eof, size, []) else (ok 0, size, take size (drop offset block))

-- `data_default_write` of the bytes in the buffer, with the block that it leaves.
unfoldable pub data_default_write : Option Bytes → ℕ → Bytes → Result ℕ × ℕ × Option Bytes
data_default_write none offset buffer = (err efault, length buffer, none)
data_default_write (some block) offset buffer =
    if length block == 0
    then (err eof, length buffer, some block)
    else if ltb (length block) offset
    then (err einval, length buffer, some block)
    else let size = min (length buffer) (length block - offset) in
      if size == 0
      then (err eof, size, some block)
      else (ok 0, size, some (splice block offset (take size buffer)))

-- `data_memory_t_read` and `data_memory_t_write`.
unfoldable pub data_memory_t_read : Memory → ℕ → ℕ → Io
unfolding memory_read
data_memory_t_read memory offset buffer_size = elim (memory_read memory offset buffer_size) [
  | ok bytes ↦ (ok 0, length bytes, bytes)
  | err e ↦ (err e, buffer_size, [])
  | fault ↦ (fault, buffer_size, [])
]

unfoldable pub data_memory_t_write : Memory → ℕ → Bytes → Result ℕ × ℕ × Memory
unfolding memory_write
data_memory_t_write memory offset buffer =
    let (memory', ret) = memory_write memory offset buffer in
    elim ret [
      | ok written ↦ (ok 0, written, memory')
      | err e ↦ (err e, length buffer, memory')
      | fault ↦ (fault, length buffer, memory')
    ]

-- `slice_t`, of the data that `read` is of.
pub record Slice : Type 0 where
  pub off : ℕ
  pub size : ℕ

-- `data_slice_t_handler` for ACTION_READ.
unfoldable pub data_slice_t_read : (ℕ → ℕ → Io) → Slice → ℕ → ℕ → Io
data_slice_t_read read slice offset buffer_size =
    if ltb slice.size offset
    then (err einval, buffer_size, [])
    else let buffer_size' = min buffer_size (slice.size - offset) in
      if buffer_size' == 0 then (err eof, 0, []) else read (add64 offset slice.off) buffer_size'

-- The same for ACTION_LOGICALLEN and ACTION_PHYSICALLEN, given the answer of the data.
unfoldable pub data_slice_t_len : Result ℕ → Slice → Result ℕ
data_slice_t_len (ok length) slice =
    if ltb length slice.off then ok 0 else ok (min slice.size (length - slice.off))
data_slice_t_len (err e) slice = err e
data_slice_t_len fault slice = fault

-- `slider_t`; `frozen_off` is `not_frozen`, which is `~0`, or an offset.
pub record Slider : Type 0 where
  pub off : ℕ
  pub frozen_off : ℕ

abbrev pub not_frozen : ℕ
not_frozen = 2 ^ 64 - 1

unfoldable pub data_slider_t_get_offset : Slider → ℕ
data_slider_t_get_offset slider = slider.off

unfoldable pub data_slider_t_freeze : Slider → Slider
data_slider_t_freeze slider = record slider { frozen_off = slider.off }

unfoldable pub data_slider_t_unfreeze : Slider → Slider
data_slider_t_unfreeze slider = record slider { frozen_off = not_frozen }

-- `data_slider_t_handler` for ACTION_READ. The test `ret >= 0` is of a `size_t`, so it always holds.
unfoldable pub data_slider_t_read : (ℕ → ℕ → Io) → Slider → ℕ → ℕ → Io × Slider
data_slider_t_read read slider offset buffer_size =
    let at =
      if slider.frozen_off == not_frozen
      then add64 offset slider.off
      else add64 offset slider.frozen_off in
    let (ret, size, bytes) = read at buffer_size in
    ((ret, size, bytes), record slider { off = add64 slider.off size })

-- `DEF_BUFFER_SIZE`.
abbrev pub def_buffer_size : ℕ
def_buffer_size = 1024

-- `read` is `data_query` of ACTION_READ on the source, `write` that of ACTION_WRITE on a destination.
module _ {D : Type 0} (read : ℕ → ℕ → Io) (write : D → ℕ → Bytes → Result ℕ × ℕ × D) where
  -- The loop of `data_default_convert_to` from `start` on, on fuel: what is returned, or `transfered`,
  -- and the destination.
  unfoldable pub copy_loop : ℕ → ℕ → ℕ → ℕ → Bytes → D → Option (Result ℕ × D)
  copy_loop zero roffset woffset transfered buffer dest = none
  copy_loop (suc fuel) roffset woffset transfered buffer dest =
      (let (wret, written, dest') = write dest woffset buffer in
        elim wret [
          | fault ↦ some (fault, dest')
          | err e ↦ elim e [ eof ↦ some (ok transfered, dest') | other ↦ some (err other, dest') ]
          | ok w ↦
              (let (rret, got, buffer') = read roffset def_buffer_size in
                elim rret [
                  | fault ↦ some (fault, dest')
                  | err e ↦ elim e [
                    | eof ↦ some (ok (transfered + written), dest')
                    | other ↦ some (err other, dest')
                  ]
                  | ok r ↦
                      copy_loop fuel (roffset + got) (woffset + written) (transfered + written)
                        buffer' dest'
                ])
        ])

  -- `data_default_convert_to`, to a destination that is not NULL.
  unfoldable pub data_default_convert_to : ℕ → D → Option (Result ℕ × D)
  unfolding copy_loop
  data_default_convert_to fuel dest =
      (let (rret, got, buffer) = read 0 def_buffer_size in
        elim rret [
          | fault ↦ some (fault, dest)
          | err e ↦ some (err e, dest)
          | ok r ↦ copy_loop fuel got 0 0 buffer dest
        ])

-- `memcmp`: 0, 1 for less, 2 for greater.
abbrev pub memcmp : Bytes → Bytes → ℕ
memcmp [] bs = 0
memcmp (a ∷ as') [] = 0
memcmp (a ∷ as') (b ∷ bs) = if a == b then memcmp as' bs else if ltb a b then 1 else 2

-- `data_query` of ACTION_READ on both sides; `stale` is what a buffer holds where a read did not write.
module _ (read1 read2 : ℕ → ℕ → Io) (stale : Bytes) where
  -- A read of one side: what is returned, and the buffer with `buffer_size` bytes.
  unfoldable pub refill : Io → Result ℕ × Bytes
  refill (ok r, size, bytes) = (ok r, bytes)
  refill (err e, size, bytes) = (err e, take size stale)
  refill (fault, size, bytes) = (fault, [])

  -- From the `memcmp` on, given the rest of the loop.
  unfoldable pub compare_step :
      (Bytes → Bytes → Option (Result ℕ)) → Bytes → Bytes → Option (Result ℕ)
  compare_step rest buffer1 buffer2 =
      let cmp_size = min (length buffer1) (length buffer2) in
      let verdict = memcmp (take cmp_size buffer1) (take cmp_size buffer2) in
      if verdict == 0
      then rest (drop cmp_size buffer1) (drop cmp_size buffer2)
      else some (ok verdict)

  -- The second part of the round: `goffset2` and what is left of the buffers.
  unfoldable pub compare_second :
      (ℕ → Bytes → Bytes → Option (Result ℕ)) → ℕ → Bytes → Bytes → Option (Result ℕ)
  unfolding refill compare_step
  compare_second rest goffset2 buffer1 buffer2 =
      if length buffer2 == 0
      then (let (ret, buffer) = refill (read2 goffset2 def_buffer_size) in
          elim ret [
            | fault ↦ some fault
            | ok r ↦ compare_step (rest (goffset2 + length buffer)) buffer1 buffer
            | err e ↦ elim e [
              | eof ↦ if length buffer1 == 0 then some (ok 0) else some (ok 2)
              | other ↦ some (err other)
            ]
          ])
      else compare_step (rest goffset2) buffer1 buffer2

  -- The loop of `data_default_compare`, on fuel: what is returned, or `fargs->result`.
  unfoldable pub compare_loop : ℕ → ℕ → ℕ → Bytes → Bytes → Option (Result ℕ)
  unfolding refill compare_second
  compare_loop zero goffset1 goffset2 buffer1 buffer2 = none
  compare_loop (suc fuel) goffset1 goffset2 buffer1 buffer2 =
      if length buffer1 == 0
      then (let (ret, buffer) = refill (read1 goffset1 def_buffer_size) in
          elim ret [
            | fault ↦ some fault
            | ok r ↦
                compare_second (compare_loop fuel (goffset1 + length buffer)) goffset2 buffer
                  buffer2
            | err e ↦ elim e [
              | eof ↦
                  if length buffer2 == 0
                  then compare_second (compare_loop fuel (goffset1 + length buffer)) goffset2 buffer
                      buffer2
                  else some (ok 1)
              | other ↦ some (err other)
            ]
          ])
      else compare_second (compare_loop fuel goffset1) goffset2 buffer1 buffer2

  -- `data_default_compare`, with a `data2` that is not NULL.
  unfoldable pub data_default_compare : ℕ → Option (Result ℕ)
  unfolding compare_loop
  data_default_compare fuel = compare_loop fuel 0 0 [] []
