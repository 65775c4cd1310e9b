-- ===== src/Buffer/Read.antt =====
-- `buffer_read` against the bytes of the buffer.
use frozen.Base.{
  ℕ, ◌+◌, ◌-◌, ◌≤◌, ◌≡◌, inl, inr, List, [], ◌∷◌, ◌++◌, arith, length, take, drop, min, splice, ap,
  ap₂, ◌∙◌, take-nil, drop-nil, length-append, length-take, length-drop, Bool-cases, ltb, leb, ◌==◌,
  ◌&&◌, splice-nil, length-splice,
}
use frozen.Buffer.{Bytes, Chunk, Buffer, process, read_chunk, buffer_read}
use frozen.Buffer.Content.{concat, content, window-append, splice-splice}

-- The bytes that the body copies from a chunk at `offset`.
abbrev pub part : ℕ → ℕ → Bytes → ℕ → Bytes
part ro offset chunk size = take (size - (ro - offset)) (drop (ro - offset) chunk)

-- The three branches of the body are one copy, of nothing in the last of them.
read_chunk-part :
    (ro offset : ℕ) (chunk : Bytes) (size : ℕ) (buf : Bytes) (p : ℕ)
    → read_chunk ro offset chunk size (buf, p)
      ≡ (splice buf (offset - ro) (part ro offset chunk size), p + (size - (ro - offset)))
unfolding read_chunk
read_chunk-part ro offset chunk size buf p =
    elim (Bool-cases (leb offset ro && ltb ro (offset + size))) [
      | inl first ↦ let k : offset - ro ≡ 0 = ground arith in rw (first, k)
      | inr no_first ↦ elim (Bool-cases (leb ro offset)) [
        | inl next ↦
            let d : ro - offset ≡ 0 = ground arith in
            let z : size - 0 ≡ size = omega arith in rw (no_first, next, d, z)
        | inr before ↦
            let z : size - (ro - offset) ≡ 0 = ground arith in
            let k : p + 0 ≡ p = omega arith in
            rw (no_first, before, z, k, splice-nil buf (offset - ro))
      ]
    ]

-- The walk from a chunk on copies the window of the rest of the chain behind what is there.
process-window :
    (ro : ℕ) (chunks : List Chunk) (offset tp : ℕ) (buf : Bytes) (p : ℕ)
    → (offset - ro) + (tp - (ro - offset)) ≤ length buf
    → let w = take (tp - (ro - offset)) (drop (ro - offset) (concat chunks)) in
      process (read_chunk ro) chunks offset tp (buf, p) ≡ (splice buf (offset - ro) w, p + length w)
unfolding process
process-window ro [] offset tp buf p h =
    let e : p + 0 ≡ p = omega arith in
    rw (drop-nil (ro - offset), take-nil (tp - (ro - offset)), splice-nil buf (offset - ro), e)
process-window ro (c ∷ chunks) offset tp buf p h = elim (Bool-cases (tp == 0)) [
  | inl done ↦
      let z : tp - (ro - offset) ≡ 0 = ground arith in
      let e : p + 0 ≡ p = omega arith in rw (done, z, splice-nil buf (offset - ro), e)
  | inr more ↦
      let size = min (length c.memory) tp in
      let d = ro - offset in
      let k = offset - ro in
      let own = part ro offset c.memory size in
      let after = take (tp - size - (d - size)) (drop (d - size) (concat chunks)) in
      let whole : take (tp - d) (drop d (c.memory ++ concat chunks)) ≡ own ++ after =
        window-append c.memory (concat chunks) tp d in
      let n : length own ≡ size - d =
        omega (arith, length-take (size - d) (drop d c.memory), length-drop d c.memory) in
      let far : ro - (offset + size) ≡ d - size = omega arith in
      let next : (offset + size) - ro ≡ k + length own = omega (arith, n) in
      let fits : k + length own ≤ length buf = omega (arith, n, h) in
      let fits2 : (offset + size) - ro + (tp - size - (ro - (offset + size)))
          ≤ length (splice buf k own) =
        omega (arith, n, h, fits, length-splice buf k own fits) in
      let rest =
        process-window ro chunks (offset + size) (tp - size) (splice buf k own) (p + (size - d))
          fits2 in
      let e : p + (size - d) + length after ≡ p + length (own ++ after) =
        omega (arith, n, length-append own after) in
      let tail : take (tp - size - (ro - (offset + size)))
            (drop (ro - (offset + size)) (concat chunks))
          ≡ after =
        ap (λ x. take (tp - size - x) (drop x (concat chunks))) far in
      let bytes : splice (splice buf k own) ((offset + size) - ro) after
          ≡ splice buf k (own ++ after) =
        ap (λ x. splice (splice buf k own) x after) next ∙ splice-splice buf k own after fits in
      rw (more, read_chunk-part ro offset c.memory size buf p, whole)
        (rest
          ∙ ap
              (λ w. (splice (splice buf k own) ((offset + size) - ro) w, p + (size - d) + length w))
              tail
          ∙ ap₂ (λ u v. (u, v)) bytes e)
]

-- A read of `n` bytes at an offset puts into the memory, from its start on, the bytes that the content
-- of the buffer has from the offset on, `n` of them at most, and returns their number; the rest of the
-- memory stays. The memory holds at least `n` bytes.
pub buffer_read-window :
    (b : Buffer) (offset : ℕ) (buf : Bytes) (n : ℕ)
    → n ≤ length buf
    → let w = take n (drop offset (content b)) in
      buffer_read b offset buf n ≡ (splice buf 0 w, length w)
unfolding buffer_read
buffer_read-window b offset buf n h =
    let k : 0 - offset ≡ 0 = omega arith in
    let d : offset - 0 ≡ offset = omega arith in
    let m : offset + n - offset ≡ n = omega arith in
    let fits : (0 - offset) + (offset + n - (offset - 0)) ≤ length buf = omega (arith, h) in
    let w = take (offset + n - (offset - 0)) (drop (offset - 0) (content b)) in
    let z : 0 + length w ≡ length w = omega arith in
    process-window offset b.chunks 0 (offset + n) buf 0 fits
    ∙ ap (λ x. (splice buf (0 - offset) w, x)) z
    ∙ ap₂
        (λ x y. (
          splice buf x (take (offset + n - y) (drop y (content b))),
          length (take (offset + n - y) (drop y (content b))),
        ))
        k d
    ∙ ap
        (λ x. (
          splice buf 0 (take x (drop offset (content b))),
          length (take x (drop offset (content b))),
        ))
        m
