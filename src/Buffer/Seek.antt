-- ===== src/Buffer/Seek.antt =====
-- `buffer_seek` against the bytes of the buffer.
use frozen.Base.{
  subst, drop_all, drop-nil, length-append, Bool-cases, ℕ, zero, suc, ◌+◌, ◌-◌, ◌≤◌, ◌<◌, ◌≡◌, refl,
  ◌⊎◌, inl, inr, List, [], ◌∷◌, ◌++◌, arith, length, drop, min, ap, sym, ◌∙◌, ltb, ◌==◌, Option,
  none, some, Result, ok, err, fault, eof,
}
use frozen.Buffer.{Bytes, Chunk, Buffer, seek_chunks, buffer_seek, buffer_get_size}
use frozen.Buffer.Content.{concat, content, IsSized}

-- The bytes from a found place on: the rest of its chunk, and the chunks behind it.
abbrev pub onward : List Chunk × Bytes → Bytes
onward ([], memory) = memory
onward (c ∷ chunks, memory) = memory ++ concat chunks

abbrev Located : Bytes → ℕ → Option (List Chunk × Bytes) → Type 0
Located bytes at none = length bytes ≤ at
Located bytes at (some place) = (at < length bytes) × (onward place ≡ drop at bytes)

-- What a seek is to give.
abbrev pub Sought : Bytes → ℕ → Result (List Chunk × Bytes) → Type 0
Sought bytes at (ok place) = (at < length bytes ⊎ at ≡ 0) × (onward place ≡ drop at bytes)
Sought bytes at (err e) = (e ≡ eof) × (length bytes ≤ at)
Sought bytes at fault = ⊥

drop-append_split :
    (d : ℕ) (xs ys : Bytes) → drop d (xs ++ ys) ≡ drop d xs ++ drop (d - length xs) ys
drop-append_split d [] ys = let e : d - 0 ≡ d = omega arith in rw (drop-nil d, e)
drop-append_split zero (x ∷ xs) ys = let e : 0 - suc (length xs) ≡ 0 = omega arith in rw e
drop-append_split (suc d) (x ∷ xs) ys =
    let e : suc d - suc (length xs) ≡ d - length xs = omega arith in
    rw e (drop-append_split d xs ys)

-- A place in what follows a run of bytes is a place in the whole.
Located-append :
    (xs ys : Bytes) (at : ℕ) (found : Option (List Chunk × Bytes))
    → length xs ≤ at
    → Located ys (at - length xs) found
    → Located (xs ++ ys) at found
Located-append xs ys at none h l = omega (arith, h, l, length-append xs ys)
Located-append xs ys at (some place) h (l, p) = (
  omega (arith, h, l, length-append xs ys),
  p ∙ sym (drop-append_split at xs ys ∙ ap (λ u. u ++ drop (at - length xs) ys) (drop_all at xs h)),
)

seek_chunks-Located :
    (chunks : List Chunk) (offset tp to : ℕ)
    → offset ≤ to
    → tp ≡ length (concat chunks)
    → Located (concat chunks) (to - offset) (seek_chunks chunks offset tp to)
unfolding seek_chunks
seek_chunks-Located [] offset tp to h e = omega (arith, h)
seek_chunks-Located (c ∷ chunks) offset tp to h e = elim (Bool-cases (tp == 0)) [
  | inl none_left ↦ rw none_left (let z : tp ≡ 0 = ground arith in omega (arith, e, z))
  | inr some_left ↦ elim (Bool-cases (ltb to (offset + length c.memory))) [
    | inl here ↦
        let in_chunk : to - offset ≤ length c.memory = ground arith in
        let before : to - offset - length c.memory ≡ 0 = omega (arith, in_chunk) in
        let inside : to - offset < length (c.memory ++ concat chunks) =
          let l = length-append c.memory (concat chunks) in ground arith in
        rw (some_left, here)
          (
            inside,
            sym (
                drop-append_split (to - offset) c.memory (concat chunks)
                ∙ ap (λ n. drop (to - offset) c.memory ++ drop n (concat chunks)) before),
          )
    | inr further ↦
        let l = length-append c.memory (concat chunks) in
        let beyond : offset + length c.memory ≤ to = ground arith in
        let size : min (length c.memory) tp ≡ length c.memory = omega (arith, e, l) in
        let left : tp - length c.memory ≡ length (concat chunks) = omega (arith, e, l) in
        let at : to - (offset + length c.memory) ≡ to - offset - length c.memory = omega arith in
        let rest =
          seek_chunks-Located chunks (offset + length c.memory) (tp - length c.memory) to beyond
            left in
        rw (some_left, further, size)
          (Located-append c.memory (concat chunks) (to - offset) _ (omega (arith, beyond))
            (rw (sym at) rest))
  ]
]

-- A seek in a buffer whose size is the number of its bytes, at an offset before the end, gives a
-- place whose bytes and those of the chunks behind it are the content from the offset on; at the
-- end or behind it the seek answers -1, save that offset 0 of a chain that is not empty is always
-- found.
pub buffer_seek-Sought :
    (b : Buffer) (offset : ℕ) → IsSized b → Sought (content b) offset (buffer_seek b offset)
unfolding buffer_seek buffer_get_size
buffer_seek-Sought b zero h = go b.chunks
  where
    go :
        (chunks : List Chunk)
        → Sought
            (concat chunks)
            0
            (elim chunks [ [] ↦ err eof | c ∷ chunks ↦ ok (c ∷ chunks, c.memory) ])
    go [] = (refl, omega arith)
    go (c ∷ chunks) = (inr refl, refl)
buffer_seek-Sought b (suc n) h = go (seek_chunks b.chunks 0 b.size (suc n)) (
    subst (λ at. Located (content b) at (seek_chunks b.chunks 0 b.size (suc n))) d
      (seek_chunks-Located b.chunks 0 b.size (suc n) (omega arith) h))
  where
    d : suc n - 0 ≡ suc n
    d = omega arith

    go :
        (found : Option (List Chunk × Bytes))
        → Located (content b) (suc n) found
        → Sought (content b) (suc n) (elim found [ none ↦ err eof | some r ↦ ok r ])
    go none l = (refl, l)
    go (some r) (l, p) = (inl l, p)
