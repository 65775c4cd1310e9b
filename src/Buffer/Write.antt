-- ===== src/Buffer/Write.antt =====
-- `buffer_write` against the bytes of the buffer.
use mathlib.Core.List.{append-nil, append_assoc}
use frozen.Base.{
  window-splice, drop-drop, take_all, drop_all, ℕ, ◌+◌, ◌-◌, ◌≤◌, ◌≡◌, refl, inl, inr, List, [],
  ◌∷◌, ◌++◌, arith, length, take, drop, min, splice, ap, ap₂, sym, ◌∙◌, length-append, length-drop,
  Bool-cases, ltb, leb, ◌==◌, ◌&&◌, splice-nil, length-splice,
}
use frozen.Buffer.{
  buffer_read, Bytes, Chunk, Buffer, write_chunk, write_chunks, added_size, buffer_write,
  chunk_data_alloc,
}
use frozen.Buffer.Read.{buffer_read-window}
use frozen.Buffer.Content.{splice-append, concat, content, IsSized}

-- What the body writes over a chunk at `offset`: the bytes of `buf` that meet it.
abbrev pub own_part : ℕ → Bytes → ℕ → ℕ → Bytes
own_part wo buf offset size = take (size - (wo - offset)) (drop (offset - wo) buf)

-- The three branches of the body are one copy, of nothing in the last of them.
write_chunk-splice :
    (wo : ℕ) (buf : Bytes) (offset : ℕ) (chunk : Bytes) (size : ℕ)
    → write_chunk wo buf offset chunk size
      ≡ splice chunk (wo - offset) (own_part wo buf offset size)
unfolding write_chunk
write_chunk-splice wo buf offset chunk size =
    elim (Bool-cases (leb offset wo && ltb wo (offset + size))) [
      | inl first ↦ let k : offset - wo ≡ 0 = ground arith in rw (first, k)
      | inr no_first ↦ elim (Bool-cases (leb wo offset)) [
        | inl next ↦
            let d : wo - offset ≡ 0 = ground arith in
            let z : size - 0 ≡ size = omega arith in rw (no_first, next, d, z)
        | inr before ↦
            let z : size - (wo - offset) ≡ 0 = ground arith in
            rw (no_first, before, z, splice-nil chunk (wo - offset))
      ]
    ]

-- What is added is what the chain lacks.
added_size-lacking :
    (chunks : List Chunk) (tp : ℕ) → added_size chunks tp ≡ tp - length (concat chunks)
unfolding added_size
added_size-lacking [] tp = omega arith
added_size-lacking (c ∷ chunks) tp = omega (
  arith,
  added_size-lacking chunks (tp - min (length c.memory) tp),
  length-append c.memory (concat chunks),
)

-- What of `buf` is still to be written is as long as what is to be processed from there on.
rest_length :
    (wo : ℕ) (buf : Bytes) (offset tp : ℕ)
    → offset + tp ≡ wo + length buf
    → length (drop (offset - wo) buf) ≡ tp - (wo - offset)
rest_length wo buf offset tp e = omega (arith, e, length-drop (offset - wo) buf)

length-zero : (xs : Bytes) → length xs ≡ 0 → xs ≡ []
length-zero [] e = refl
length-zero (x ∷ xs) e = absurd (omega (arith, e))

-- The end of the walk: nothing is left of `buf`.
rest_end :
    (wo : ℕ) (buf : Bytes) (offset tp : ℕ)
    → offset + tp ≡ wo + length buf
    → tp ≡ 0
    → drop (offset - wo) buf ≡ []
rest_end wo buf offset tp e z =
    length-zero (drop (offset - wo) buf) (omega (arith, z, rest_length wo buf offset tp e))

-- What a chunk of the chain takes of the rest of `buf`, and what it leaves.
own_part-taken :
    (wo : ℕ) (buf : Bytes) (offset n tp : ℕ)
    → offset + tp ≡ wo + length buf
    → own_part wo buf offset (min n tp) ≡ take (n - (wo - offset)) (drop (offset - wo) buf)
own_part-taken wo buf offset n tp e = elim (Bool-cases (leb tp n)) [
  | inl last ↦
      let l = rest_length wo buf offset tp e in
      let m : min n tp ≡ tp = ground arith in
      let whole : length (drop (offset - wo) buf) ≤ n - (wo - offset) = ground arith in
      rw m (
        take_all (tp - (wo - offset)) (drop (offset - wo) buf) (omega (arith, l))
        ∙ sym (take_all (n - (wo - offset)) (drop (offset - wo) buf) whole))
  | inr inner ↦ let m : min n tp ≡ n = ground arith in rw m
]

own_part-left :
    (wo : ℕ) (buf : Bytes) (offset n tp : ℕ)
    → offset + tp ≡ wo + length buf
    → drop ((offset + min n tp) - wo) buf ≡ drop (n - (wo - offset)) (drop (offset - wo) buf)
own_part-left wo buf offset n tp e = elim (Bool-cases (leb tp n)) [
  | inl last ↦
      let l = rest_length wo buf offset tp e in
      let m : (offset + min n tp) - wo ≡ length buf = ground arith in
      let whole : length (drop (offset - wo) buf) ≤ n - (wo - offset) = ground arith in
      rw m (
        drop_all (length buf) buf (omega arith)
        ∙ sym (drop_all (n - (wo - offset)) (drop (offset - wo) buf) whole))
  | inr inner ↦
      let m : (offset + min n tp) - wo ≡ (offset - wo) + (n - (wo - offset)) = ground arith in
      rw m (sym (drop-drop (n - (wo - offset)) (offset - wo) buf))
]

-- The chain after the walk is the chain with the block that is added, with the rest of `buf` copied
-- over it.
write_chunks-splice :
    (fresh : ℕ → Bytes)
    → ((n : ℕ) → length (fresh n) ≡ n)
    → (wo : ℕ) (buf : Bytes) (chunks : List Chunk) (offset tp : ℕ) → offset + tp ≡ wo + length buf
    → concat (write_chunks fresh wo buf chunks offset tp)
      ≡ splice
          (concat chunks ++ fresh (added_size chunks tp))
          (wo - offset)
          (drop (offset - wo) buf)
unfolding write_chunks added_size chunk_data_alloc
write_chunks-splice fresh sized wo buf [] offset tp e = elim (Bool-cases (tp == 0)) [
  | inl none_left ↦
      let z : tp ≡ 0 = ground arith in
      rw (
        none_left,
        rest_end wo buf offset tp e z,
        splice-nil (fresh tp) (wo - offset),
        length-zero (fresh tp) (sized tp ∙ z),
      )
  | inr some_left ↦
      let l = rest_length wo buf offset tp e in
      let src = drop (offset - wo) buf in
      rw (
        some_left,
        write_chunk-splice wo buf offset (fresh tp) tp,
        append-nil (splice (fresh tp) (wo - offset) (own_part wo buf offset tp)),
        take_all (tp - (wo - offset)) src (omega (arith, l)),
      )
]
write_chunks-splice fresh sized wo buf (c ∷ chunks) offset tp e = elim (Bool-cases (tp == 0)) [
  | inl none_left ↦
      let z : tp ≡ 0 = ground arith in
      let size = min (length c.memory) tp in
      let added : added_size chunks (tp - size) ≡ 0 =
        omega (arith, z, added_size-lacking chunks (tp - size)) in
      let none_added =
        length-zero (fresh (added_size chunks (tp - size)))
          (sized (added_size chunks (tp - size)) ∙ added) in
      rw (
        none_left,
        rest_end wo buf offset tp e z,
        none_added,
        append-nil (c.memory ++ concat chunks),
        splice-nil (c.memory ++ concat chunks) (wo - offset),
      )
  | inr some_left ↦
      let size = min (length c.memory) tp in
      let d = wo - offset in
      let src = drop (offset - wo) buf in
      let after = concat chunks ++ fresh (added_size chunks (tp - size)) in
      let next : (offset + size) + (tp - size) ≡ wo + length buf = omega (arith, e) in
      let rest = write_chunks-splice fresh sized wo buf chunks (offset + size) (tp - size) next in
      let far : splice after (wo - (offset + size)) (drop ((offset + size) - wo) buf)
          ≡ splice after (d - length c.memory) (drop (length c.memory - d) src) =
        ap₂ (splice after) (omega (arith, e))
          (own_part-left wo buf offset (length c.memory) tp e) in
      rw
        (
          some_left,
          rest,
          write_chunk-splice wo buf offset c.memory size,
          own_part-taken wo buf offset (length c.memory) tp e,
          far,
        )
        (sym (splice-append c.memory after d src)
          ∙ ap (λ x. splice x d src)
              (sym (append_assoc c.memory (concat chunks) (fresh (added_size chunks (tp - size))))))
]

-- In a buffer whose size is the number of its bytes, and with an allocator that gives blocks of the
-- size it was asked for, a write of `buf` at an offset makes the content what it was, followed by a
-- new block of the size by which the write reaches beyond it, with `buf` copied over it at the
-- offset. The size of the buffer stays the number of its bytes, and the end of what was written is
-- returned.
pub buffer_write-splice :
    (fresh : ℕ → Bytes)
    → ((n : ℕ) → length (fresh n) ≡ n)
    → (b : Buffer) (offset : ℕ) (buf : Bytes) → IsSized b
    → let beyond = offset + length buf - length (content b) in
      let (after, end) = buffer_write fresh b offset buf in
      (content after ≡ splice (content b ++ fresh beyond) offset buf)
      × IsSized after
      × (end ≡ offset + length buf)
unfolding buffer_write
buffer_write-splice fresh sized b offset buf h =
    let tp = offset + length buf in
    let n = length (content b) in
    let added = added_size-lacking b.chunks tp in
    let k : 0 - offset ≡ 0 = omega arith in
    let d : offset - 0 ≡ offset = omega arith in
    let e : 0 + tp ≡ offset + length buf = omega arith in
    let c : concat (write_chunks fresh offset buf b.chunks 0 tp)
        ≡ splice (content b ++ fresh (tp - n)) offset buf =
      write_chunks-splice fresh sized offset buf b.chunks 0 tp e
      ∙ ap₂ (λ x y. splice (content b ++ fresh (added_size b.chunks tp)) x (drop y buf)) d k
      ∙ ap (λ x. splice (content b ++ fresh x) offset buf) added in
    let l : length (content b ++ fresh (tp - n)) ≡ n + (tp - n) =
      omega (arith, length-append (content b) (fresh (tp - n)), sized (tp - n)) in
    let fits : offset + length buf ≤ length (content b ++ fresh (tp - n)) = omega (arith, l) in
    let s : length (splice (content b ++ fresh (tp - n)) offset buf) ≡ n + (tp - n) =
      length-splice (content b ++ fresh (tp - n)) offset buf fits ∙ l in
    (c, ap₂ (λ x y. x + y) h added ∙ sym (ap length c ∙ s), refl)

-- In a buffer whose size is the number of its bytes, and with an allocator that gives blocks of the
-- size it was asked for, what was written at an offset is what a read at that offset, of as many
-- bytes into memory of that length, gives, all of it, wherever the offset is: before the end of the
-- buffer, across it or behind it.
pub buffer_write-read :
    (fresh : ℕ → Bytes)
    → ((n : ℕ) → length (fresh n) ≡ n)
    → (b : Buffer) (offset : ℕ) (buf to : Bytes) → IsSized b
    → length to ≡ length buf
    → buffer_read (buffer_write fresh b offset buf).0 offset to (length buf) ≡ (buf, length buf)
buffer_write-read fresh sized b offset buf to h n =
    let after = (buffer_write fresh b offset buf).0 in
    let tp = offset + length buf in
    let old = content b ++ fresh (tp - length (content b)) in
    let (c, _, _) = buffer_write-splice fresh sized b offset buf h in
    let l : length old ≡ length (content b) + (tp - length (content b)) = omega (
      arith,
      length-append (content b) (fresh (tp - length (content b))),
      sized (tp - length (content b)),
    ) in
    let w : take (length buf) (drop offset (content after)) ≡ buf =
      ap (λ x. take (length buf) (drop offset x)) c
      ∙ window-splice old offset buf (omega (arith, l)) in
    buffer_read-window after offset to (length buf) (omega (arith, n))
    ∙ ap (λ x. (splice to 0 x, length x)) w
    ∙ ap (λ x. (buf ++ x, length buf)) (drop_all (0 + length buf) to (omega (arith, n)))
    ∙ ap (λ x. (x, length buf)) (append-nil buf)
