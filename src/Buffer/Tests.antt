-- ===== src/Buffer/Tests.antt =====
-- Buffers of two chunks.
use frozen.Base.{
  ℕ, ◌+◌, ◌-◌, ◌≡◌, refl, [], ◌∷◌, ◌++◌, arith, take, drop, length, splice, replicate,
  length-replicate,
}
use frozen.Buffer.{
  Bytes, Buffer, buffer_init_from_bare, buffer_init_from_copy, buffer_add_tail_raw,
  buffer_add_tail_chunk, buffer_add_head_chunk, buffer_read, buffer_write, buffer_seek,
}
use frozen.Buffer.Content.{content, IsSized}
use frozen.Buffer.Read.{buffer_read-window}
use frozen.Buffer.Write.{buffer_write-splice, buffer_write-read}
use frozen.Buffer.Seek.{Sought, buffer_seek-Sought}

abbrev two_chunks : Buffer
unfolding buffer_init_from_bare buffer_add_tail_raw
two_chunks = buffer_add_tail_raw (buffer_init_from_bare (1 ∷ 2 ∷ 3 ∷ [])) (4 ∷ 5 ∷ [])

two_chunks-IsSized : IsSized two_chunks
unfolding two_chunks
two_chunks-IsSized = refl

abbrev zeros : ℕ → Bytes
zeros n = replicate n 0

test_seek :
    content (
      buffer_add_head_chunk
        (buffer_add_tail_chunk (buffer_init_from_copy (2 ∷ [])) (3 ∷ []))
        (1 ∷ []))
    ≡ 1 ∷ 2 ∷ 3 ∷ []
unfolding buffer_add_head_chunk buffer_add_tail_chunk buffer_init_from_copy
test_seek = refl

buffer_read-window_example : buffer_read two_chunks 2 (0 ∷ 0 ∷ 0 ∷ []) 2 ≡ (
  splice (0 ∷ 0 ∷ 0 ∷ []) 0 (take 2 (drop 2 (content two_chunks))),
  length (take 2 (drop 2 (content two_chunks))),
)
buffer_read-window_example = buffer_read-window two_chunks 2 (0 ∷ 0 ∷ 0 ∷ []) 2 (omega arith)

buffer_write-splice_example :
    let beyond = 4 + 3 - length (content two_chunks) in
    let (after, end) = buffer_write zeros two_chunks 4 (7 ∷ 8 ∷ 9 ∷ []) in
    (content after ≡ splice (content two_chunks ++ zeros beyond) 4 (7 ∷ 8 ∷ 9 ∷ []))
    × IsSized after
    × (end ≡ 4 + 3)
buffer_write-splice_example =
    buffer_write-splice zeros (λ n. length-replicate n 0) two_chunks 4 (7 ∷ 8 ∷ 9 ∷ [])
      two_chunks-IsSized

buffer_write-read_example :
    buffer_read (buffer_write zeros two_chunks 4 (7 ∷ 8 ∷ 9 ∷ [])).0 4 (0 ∷ 0 ∷ 0 ∷ []) 3
    ≡ (7 ∷ 8 ∷ 9 ∷ [], 3)
buffer_write-read_example =
    buffer_write-read zeros (λ n. length-replicate n 0) two_chunks 4 (7 ∷ 8 ∷ 9 ∷ [])
      (0 ∷ 0 ∷ 0 ∷ []) two_chunks-IsSized refl

buffer_seek-Sought_example : Sought (content two_chunks) 3 (buffer_seek two_chunks 3)
buffer_seek-Sought_example = buffer_seek-Sought two_chunks 3 two_chunks-IsSized
