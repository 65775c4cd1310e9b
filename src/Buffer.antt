-- ===== src/Buffer.antt =====
-- src/libfrozen/core/buffer.c and the macro `buffer_process` of buffer.h: a buffer as a chain of chunks.
-- Memory that `malloc` returns holds any bytes, a parameter of the operations that read it; the file
-- models buffers of the chunked type.
pub mod Content
pub mod Read
pub mod Write
pub mod Seek
mod Tests
use frozen.Base.{
  ℕ, zero, suc, ◌+◌, ◌-◌, ◌≤◌, ◌<◌, Bool, true, false, Option, none, some, List, [], ◌∷◌, ◌++◌, ltb,
  leb, ◌==◌, ◌&&◌, if◌then◌else◌, take, drop, replicate, length, min, Result, ok, err, fault, eof,
  splice,
}

abbrev pub Bytes : Type 0
Bytes = List ℕ

-- `chunk_type`.
pub data ChunkType : Type 0 where
  allocated bare : ChunkType

-- `chunk_t` with the memory that `chunk_get_ptr` gives; `size` is its length.
pub record Chunk : Type 0 where
  pub type : ChunkType
  pub memory : Bytes

-- `buffer_t` of type BUFF_TYPE_CHUNKED: the chain from `head` to `tail`.
pub record Buffer : Type 0 where
  pub size : ℕ
  pub chunks : List Chunk

abbrev pub chunk_get_size : Chunk → ℕ
chunk_get_size c = length c.memory

-- `chunk_data_alloc`, where `malloc` succeeds: `memory` is what the new block holds.
unfoldable pub chunk_data_alloc : Bytes → Chunk
chunk_data_alloc memory = record { type = allocated; memory = memory }

-- `chunk_bare_alloc`.
unfoldable pub chunk_bare_alloc : Bytes → Chunk
chunk_bare_alloc memory = record { type = bare; memory = memory }

unfoldable pub buffer_init : Buffer
buffer_init = record { size = 0; chunks = [] }

unfoldable pub buffer_cleanup : Buffer → Buffer
unfolding buffer_init
buffer_cleanup b = buffer_init

unfoldable pub buffer_get_size : Buffer → ℕ
buffer_get_size b = b.size

-- `buffer_add_head_any`.
unfoldable pub buffer_add_head_any : Buffer → Chunk → Buffer
buffer_add_head_any b c = record { size = b.size + chunk_get_size c; chunks = c ∷ b.chunks }

-- `buffer_add_tail_any`.
unfoldable pub buffer_add_tail_any : Buffer → Chunk → Buffer
buffer_add_tail_any b c = record { size = b.size + chunk_get_size c; chunks = b.chunks ++ (c ∷ []) }

unfoldable pub buffer_add_head_raw : Buffer → Bytes → Buffer
unfolding chunk_bare_alloc buffer_add_head_any
buffer_add_head_raw b memory = buffer_add_head_any b (chunk_bare_alloc memory)

unfoldable pub buffer_add_tail_raw : Buffer → Bytes → Buffer
unfolding chunk_bare_alloc buffer_add_tail_any
buffer_add_tail_raw b memory = buffer_add_tail_any b (chunk_bare_alloc memory)

unfoldable pub buffer_add_head_chunk : Buffer → Bytes → Buffer
unfolding chunk_data_alloc buffer_add_head_any
buffer_add_head_chunk b memory = buffer_add_head_any b (chunk_data_alloc memory)

unfoldable pub buffer_add_tail_chunk : Buffer → Bytes → Buffer
unfolding chunk_data_alloc buffer_add_tail_any
buffer_add_tail_chunk b memory = buffer_add_tail_any b (chunk_data_alloc memory)

unfoldable pub buffer_init_from_bare : Bytes → Buffer
unfolding buffer_init buffer_add_head_raw
buffer_init_from_bare memory = buffer_add_head_raw buffer_init memory

-- `buffer_init_from_copy`: a chunk of the size, and `memcpy` over all of it.
unfoldable pub buffer_init_from_copy : Bytes → Buffer
unfolding buffer_init buffer_add_head_chunk
buffer_init_from_copy memory = buffer_add_head_chunk buffer_init memory

-- `buffer_process` without `_create`: the body sees the offset of a chunk, its memory and how many of
-- its bytes are to be processed, and hands a state on.
unfoldable pub process {ℓ} : {S : Type ℓ} → (ℕ → Bytes → ℕ → S → S) → List Chunk → ℕ → ℕ → S → S
process body [] offset to_process s = s
process body (c ∷ chunks) offset to_process s =
    let size = min (chunk_get_size c) to_process in
    let rest =
      process body chunks (offset + size) (to_process - size) (body offset c.memory size s) in
    if to_process == 0 then s else rest

-- The body of `buffer_read`: `(buf, processed)`.
unfoldable pub read_chunk : ℕ → ℕ → Bytes → ℕ → Bytes × ℕ → Bytes × ℕ
read_chunk read_offset offset chunk size (buf, processed) =
    if leb offset read_offset && ltb read_offset (offset + size)
    then (let diff = read_offset - offset in
        (splice buf 0 (take (size - diff) (drop diff chunk)), processed + (size - diff)))
    else (if leb read_offset offset
        then (splice buf (offset - read_offset) (take size chunk), processed + size)
        else (buf, processed))

-- `buffer_read` of `buf_size` bytes into `buf`: the memory and the number of bytes read.
unfoldable pub buffer_read : Buffer → ℕ → Bytes → ℕ → Bytes × ℕ
unfolding process read_chunk
buffer_read b read_offset buf buf_size =
    process (read_chunk read_offset) b.chunks 0 (read_offset + buf_size) (buf, 0)

-- What the body of `buffer_write` leaves in a chunk.
unfoldable pub write_chunk : ℕ → Bytes → ℕ → Bytes → ℕ → Bytes
write_chunk write_offset buf offset chunk size =
    if leb offset write_offset && ltb write_offset (offset + size)
    then (let diff = write_offset - offset in splice chunk diff (take (size - diff) buf))
    else (if leb write_offset offset
        then splice chunk 0 (take size (drop (offset - write_offset) buf))
        else chunk)

-- `buffer_process` with `_create` and the body of `buffer_write`: where the chain ends, one chunk of
-- the size that is left is added; `fresh n` is what a new block of `n` bytes holds.
unfoldable pub write_chunks : (ℕ → Bytes) → ℕ → Bytes → List Chunk → ℕ → ℕ → List Chunk
unfolding write_chunk chunk_data_alloc
write_chunks fresh write_offset buf [] offset to_process =
    if to_process == 0
    then []
    else record (chunk_data_alloc (fresh to_process)) {
      memory = write_chunk write_offset buf offset (fresh to_process) to_process;
    }
      ∷ []
write_chunks fresh write_offset buf (c ∷ chunks) offset to_process =
    let size = min (chunk_get_size c) to_process in
    let rest = write_chunks fresh write_offset buf chunks (offset + size) (to_process - size) in
    if to_process == 0
    then c ∷ chunks
    else record c { memory = write_chunk write_offset buf offset c.memory size } ∷ rest

-- The size that the added chunk, if any, adds to the buffer.
unfoldable pub added_size : List Chunk → ℕ → ℕ
added_size [] to_process = to_process
added_size (c ∷ chunks) to_process =
    added_size chunks (to_process - min (chunk_get_size c) to_process)

-- `buffer_write` of all of `buf`: the buffer, and the number that is returned.
unfoldable pub buffer_write : (ℕ → Bytes) → Buffer → ℕ → Bytes → Buffer × ℕ
unfolding write_chunks added_size
buffer_write fresh b write_offset buf =
    let to_process = write_offset + length buf in
    (
      record {
        size = b.size + added_size b.chunks to_process;
        chunks = write_chunks fresh write_offset buf b.chunks 0 to_process;
      },
      to_process,
    )

-- The loop of `buffer_seek` over the chain, with the bytes left to process.
unfoldable pub seek_chunks : List Chunk → ℕ → ℕ → ℕ → Option (List Chunk × Bytes)
seek_chunks [] offset to_process b_offset = none
seek_chunks (c ∷ chunks) offset to_process b_offset =
    let size = min (chunk_get_size c) to_process in
    let rest = seek_chunks chunks (offset + size) (to_process - size) b_offset in
    if to_process == 0
    then none
    else (if ltb b_offset (offset + chunk_get_size c)
        then some (c ∷ chunks, drop (b_offset - offset) c.memory)
        else rest)

-- `buffer_seek`: the chunk, given as the chain from it on, and the memory from the offset to its end.
unfoldable pub buffer_seek : Buffer → ℕ → Result (List Chunk × Bytes)
unfolding seek_chunks buffer_get_size
buffer_seek b zero = elim b.chunks [ [] ↦ err eof | c ∷ chunks ↦ ok (c ∷ chunks, c.memory) ]
buffer_seek b (suc n) = elim (seek_chunks b.chunks 0 (buffer_get_size b) (suc n)) [
  | none ↦ err eof
  | some r ↦ ok r
]

-- `buffer_defragment`: a chain of one chunk is left, no chain is read through NULL, and any other is
-- read into a new chunk. `fresh` is what the new block holds.
unfoldable pub buffer_defragment : Bytes → Buffer → Result Buffer
unfolding buffer_read buffer_cleanup buffer_add_tail_any chunk_data_alloc
buffer_defragment fresh b = elim b.chunks [
  | [] ↦ fault
  | c ∷ [] ↦ ok b
  | c ∷ d ∷ chunks ↦
      let (memory, n) = buffer_read b 0 fresh b.size in
      ok (buffer_add_tail_any (buffer_cleanup b) (chunk_data_alloc memory))
]
