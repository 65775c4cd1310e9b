-- ===== src/Transfer/Copied.antt =====
-- What the copy of one block to another with `data_default_convert_to` comes to.
use mathlib.Core.List.{append_assoc}
use frozen.Base.{
  ℕ, zero, suc, ◌+◌, ◌-◌, ◌≤◌, ◌<◌, ◌≡◌, sym, ap, ap₂, ◌∙◌, min, false, Bool-cases, inl, inr,
  Option, some, [], ◌++◌, ◌==◌, ltb, arith, length, take, drop, splice, take-append_at,
  drop-append_at, drop-drop, length-append, length-take, length-drop, length-splice, take_all,
  take-append-drop, Result, ok, err, eof,
}
use frozen.Memory.{Bytes}
use frozen.Transfer.{
  Io, data_default_read, data_default_write, def_buffer_size, copy_loop, data_default_convert_to,
}

-- Two writes, the second one behind the first.
splice-splice :
    (ys : Bytes) (w : ℕ) (a b : Bytes)
    → w + length a + length b ≤ length ys
    → splice (splice ys w a) (w + length a) b ≡ splice ys w (a ++ b)
splice-splice ys w a b h =
    let front = take w ys ++ a in
    let rest = drop (w + length a) ys in
    let n : w + length a ≡ length front =
      omega (arith, length-append (take w ys) a, length-take w ys) in
    let whole : splice ys w a ≡ front ++ rest = sym (append_assoc (take w ys) a rest) in
    let before : take (w + length a) (splice ys w a) ≡ front =
      ap (take (w + length a)) whole ∙ take-append_at (w + length a) front rest n in
    let k : w + length a + length b ≡ w + length (a ++ b) = omega (arith, length-append a b) in
    let after : drop (w + length a + length b) (splice ys w a) ≡ drop (w + length (a ++ b)) ys =
      sym (drop-drop (length b) (w + length a) (splice ys w a))
      ∙ ap (λ t. drop (length b) (drop (w + length a) t)) whole
      ∙ ap (drop (length b)) (drop-append_at (w + length a) front rest n)
      ∙ drop-drop (length b) (w + length a) ys
      ∙ ap (λ i. drop i ys) k in
    ap₂ (λ x y. x ++ (b ++ y)) before after
    ∙ append_assoc (take w ys) a (b ++ drop (w + length (a ++ b)) ys)
    ∙ ap (λ t. take w ys ++ t) (sym (append_assoc a b (drop (w + length (a ++ b)) ys)))

-- What one read takes.
abbrev chunk_at : Bytes → ℕ → Bytes
chunk_at xs w = take (min def_buffer_size (length xs - w)) (drop w xs)

read_in :
    (xs : Bytes) (w : ℕ)
    → w < length xs
    → data_default_read (some xs) w def_buffer_size
      ≡ (ok 0, min def_buffer_size (length xs - w), chunk_at xs w)
unfolding data_default_read
read_in xs w h = ground arith

read_end :
    (xs : Bytes)
    → 0 < length xs
    → data_default_read (some xs) (length xs) def_buffer_size ≡ (err eof, 0, [])
unfolding data_default_read
read_end xs h = ground arith

write_in :
    (ys : Bytes) (w : ℕ) (buffer : Bytes)
    → 0 < length buffer
    → w + length buffer ≤ length ys
    → data_default_write (some ys) w buffer ≡ (ok 0, length buffer, some (splice ys w buffer))
unfolding data_default_write
write_in ys w buffer pos h =
    let n : min (length buffer) (length ys - w) ≡ length buffer = omega arith in
    let all : take (length buffer) buffer ≡ buffer =
      take_all (length buffer) buffer (omega arith) in
    let a : (length ys == 0) ≡ false = ground arith in
    let b : ltb (length ys) w ≡ false = ground arith in
    let c : (length buffer == 0) ≡ false = ground arith in rw (a, b, n, c, all)

module _ {D : Type 0} (read : ℕ → ℕ → Io) (write : D → ℕ → Bytes → Result ℕ × ℕ × D) where
  copy_last :
      (fuel r w t n size : ℕ) (buffer buffer' : Bytes) (dest dest' : D)
      → write dest w buffer ≡ (ok 0, n, dest')
      → read r def_buffer_size ≡ (err eof, size, buffer')
      → copy_loop read write (suc fuel) r w t buffer dest ≡ some (ok (t + n), dest')
  unfolding copy_loop
  copy_last fuel r w t n size buffer buffer' dest dest' e e' =
      rw (copy_loop, ap (λ p. p.0) e, ap (λ p. p.0) e', ap (λ p. p.1) e, ap (λ p. p.2) e)

  pub copy_more :
      (fuel r w t n size : ℕ) (buffer buffer' : Bytes) (dest dest' : D)
      → write dest w buffer ≡ (ok 0, n, dest')
      → read r def_buffer_size ≡ (ok 0, size, buffer')
      → copy_loop read write (suc fuel) r w t buffer dest
        ≡ copy_loop read write fuel (r + size) (w + n) (t + n) buffer' dest'
  unfolding copy_loop
  copy_more fuel r w t n size buffer buffer' dest dest' e e' = rw (
    copy_loop,
    ap (λ p. p.0) e,
    ap (λ p. p.0) e',
    ap (λ p. p.1) e,
    ap (λ p. p.2) e,
    ap (λ p. p.1) e',
    ap (λ p. p.2) e',
  )

  pub copy_first :
      (fuel size : ℕ) (buffer : Bytes) (dest : D)
      → read 0 def_buffer_size ≡ (ok 0, size, buffer)
      → data_default_convert_to read write fuel dest
        ≡ copy_loop read write fuel size 0 0 buffer dest
  unfolding data_default_convert_to
  copy_first fuel size buffer dest e =
      rw (data_default_convert_to, ap (λ p. p.0) e, ap (λ p. p.1) e, ap (λ p. p.2) e)

abbrev copying : Bytes → ℕ → ℕ → ℕ → ℕ → Bytes → Bytes → Option (Result ℕ × Option Bytes)
copying xs fuel roffset woffset transfered buffer ys =
    copy_loop (data_default_read (some xs)) data_default_write fuel roffset woffset transfered
      buffer (some ys)

-- The loop, with what was read at `w` in the buffer.
copy_loop-rest :
    (fuel w t : ℕ) (xs ys : Bytes)
    → w < length xs
    → length xs ≤ length ys
    → length xs < w + fuel
    → copying xs fuel (w + min def_buffer_size (length xs - w)) w t (chunk_at xs w) ys
      ≡ some (ok (t + (length xs - w)), some (splice ys w (drop w xs)))
copy_loop-rest zero w t xs ys inside room enough = absurd (omega arith)
copy_loop-rest (suc fuel) w t xs ys inside room enough =
    let chunk = chunk_at xs w in
    let size = min def_buffer_size (length xs - w) in
    let len : length chunk ≡ size = omega (arith, length-take size (drop w xs), length-drop w xs) in
    let written : data_default_write (some ys) w chunk ≡ (ok 0, size, some (splice ys w chunk)) =
      write_in ys w chunk (omega (arith, len)) (omega (arith, len))
      ∙ ap (λ n. (ok 0, n, some (splice ys w chunk))) len in
    let ys' = splice ys w chunk in
    let same : length ys' ≡ length ys = length-splice ys w chunk (omega (arith, len)) in
    elim (Bool-cases (w + size == length xs)) [
      | inl last ↦
          let e : w + size ≡ length xs = ground arith in
          let n : t + size ≡ t + (length xs - w) = omega (arith, e) in
          let whole : chunk ≡ drop w xs =
            take_all size (drop w xs) (omega (arith, length-drop w xs, e)) in
          let ended : data_default_read (some xs) (w + size) def_buffer_size ≡ (err eof, 0, []) =
            ap (λ i. data_default_read (some xs) i def_buffer_size) e ∙ read_end xs (omega arith) in
          copy_last (data_default_read (some xs)) data_default_write fuel (w + size) w t size 0
            chunk [] (some ys) (some ys') written ended
          ∙ ap₂ (λ x y. some (ok x, some y)) n (ap (splice ys w) whole)
      | inr more ↦
          let next : w + size < length xs = ground arith in
          let n : t + size + (length xs - (w + size)) ≡ t + (length xs - w) = omega arith in
          let left = drop (w + size) xs in
          let parts : chunk ++ left ≡ drop w xs =
            ap (λ i. chunk ++ i) (sym (drop-drop size w xs)) ∙ take-append-drop size (drop w xs) in
          let join : splice ys' (w + size) left ≡ splice ys w (drop w xs) =
            ap (λ k. splice ys' (w + k) left) (sym len)
            ∙ splice-splice ys w chunk left (omega (arith, len, length-drop (w + size) xs))
            ∙ ap (splice ys w) parts in
          copy_more (data_default_read (some xs)) data_default_write fuel (w + size) w t size _
            chunk _ (some ys) (some ys') written (read_in xs (w + size) next)
          ∙ copy_loop-rest fuel (w + size) (t + size) xs ys' next (omega (arith, same))
              (omega arith)
          ∙ ap₂ (λ x y. some (ok x, some y)) n join
    ]

-- `data_default_convert_to` of a block with bytes to one with room for them ends, with more fuel than
-- bytes: it transfers all the bytes, in however many reads, to the start of the other block, and leaves
-- the rest of that block.
pub data_default_convert_to-copy :
    (fuel : ℕ) (xs ys : Bytes)
    → 0 < length xs
    → length xs ≤ length ys
    → length xs < fuel
    → data_default_convert_to (data_default_read (some xs)) data_default_write fuel (some ys)
      ≡ some (ok (length xs), some (splice ys 0 xs))
data_default_convert_to-copy fuel xs ys pos room enough =
    let size = min def_buffer_size (length xs - 0) in
    let front : size ≡ 0 + size = omega arith in
    let all : 0 + (length xs - 0) ≡ length xs = omega arith in
    copy_first (data_default_read (some xs)) data_default_write fuel size (chunk_at xs 0) (some ys)
      (read_in xs 0 pos)
    ∙ ap (λ r. copying xs fuel r 0 0 (chunk_at xs 0) ys) front
    ∙ copy_loop-rest fuel 0 0 xs ys pos room (omega arith)
    ∙ ap (λ n. some (ok n, some (splice ys 0 xs))) all
