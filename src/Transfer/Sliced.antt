-- ===== src/Transfer/Sliced.antt =====
-- A slice reads as the part of the block that it stands for.
use frozen.Base.{
  ℕ, ◌+◌, ◌-◌, ◌^◌, ◌≤◌, ◌<◌, ◌≡◌, sym, ap, ◌∙◌, min, Bool-cases, inl, inr, some, [], ◌==◌, ltb,
  arith, length, take, drop, length-take, length-drop, window-take, drop-drop, ok, err, einval, eof,
  add64,
}
use frozen.Memory.{Bytes}
use frozen.Transfer.{Io, data_default_read, Slice, data_slice_t_read}

-- The part of a block.
abbrev pub part : Bytes → Slice → Bytes
part block slice = take slice.size (drop slice.off block)

module _ (xs : Bytes) (offset n : ℕ) where
  read_out :
      0 < length xs
      → length xs < offset
      → data_default_read (some xs) offset n ≡ (err einval, n, [])
  unfolding data_default_read
  read_out pos h = ground arith

  read_none :
      0 < length xs
      → offset ≤ length xs
      → min n (length xs - offset) ≡ 0
      → data_default_read (some xs) offset n ≡ (err eof, 0, [])
  unfolding data_default_read
  read_none pos h none_left = ground arith

  pub read_some :
      offset ≤ length xs
      → 0 < min n (length xs - offset)
      → data_default_read (some xs) offset n
        ≡ (ok 0, min n (length xs - offset), take (min n (length xs - offset)) (drop offset xs))
  unfolding data_default_read
  read_some h left = ground arith

module _ (read : ℕ → ℕ → Io) (slice : Slice) (offset n : ℕ) where
  slice_out : slice.size < offset → data_slice_t_read read slice offset n ≡ (err einval, n, [])
  unfolding data_slice_t_read
  slice_out h = ground arith

  slice_none :
      offset ≤ slice.size
      → min n (slice.size - offset) ≡ 0
      → data_slice_t_read read slice offset n ≡ (err eof, 0, [])
  unfolding data_slice_t_read
  slice_none h none_left = ground arith

  slice_some :
      offset ≤ slice.size
      → 0 < min n (slice.size - offset)
      → data_slice_t_read read slice offset n
        ≡ read (add64 offset slice.off) (min n (slice.size - offset))
  unfolding data_slice_t_read
  slice_some h left = ground arith

-- A read through a slice that lies in a block, and is not empty, returns what the same read of that
-- part of the block returns, the errors behind its end included.
pub data_slice_t_read-part :
    (block : Bytes) (slice : Slice) (offset buffer_size : ℕ)
    → slice.off + slice.size ≤ length block
    → 0 < slice.size
    → length block < 2 ^ 64
    → data_slice_t_read (data_default_read (some block)) slice offset buffer_size
      ≡ data_default_read (some (part block slice)) offset buffer_size
data_slice_t_read-part block slice offset buffer_size inside pos small =
    let len : length (part block slice) ≡ slice.size =
      omega (arith, length-take slice.size (drop slice.off block), length-drop slice.off block) in
    let size = min buffer_size (slice.size - offset) in
    let read = data_default_read (some block) in
    elim (Bool-cases (ltb slice.size offset)) [
      | inl out ↦
          let h : slice.size < offset = ground arith in
          slice_out read slice offset buffer_size h
          ∙ sym (
              read_out (part block slice) offset buffer_size (omega (arith, len))
                (omega (arith, len)))
      | inr inside' ↦
          let h : offset ≤ slice.size = ground arith in
          elim (Bool-cases (size == 0)) [
            | inl nothing ↦
                let z : size ≡ 0 = ground arith in
                slice_none read slice offset buffer_size h z
                ∙ sym (
                    read_none (part block slice) offset buffer_size (omega (arith, len))
                      (omega (arith, len)) (omega (arith, len, z)))
            | inr something ↦
                let left : 0 < size = ground arith in
                let at : add64 offset slice.off ≡ slice.off + offset = omega arith in
                let whole : min size (length block - (slice.off + offset)) ≡ size = omega arith in
                let here : min buffer_size (length (part block slice) - offset) ≡ size =
                  omega (arith, len) in
                let cut : size ≡ min size (slice.size - offset) = omega arith in
                slice_some read slice offset buffer_size h left
                ∙ ap (λ i. read i size) at
                ∙ read_some block (slice.off + offset) size (omega arith) (omega arith)
                ∙ ap (λ k. (ok 0, k, take k (drop (slice.off + offset) block))) whole
                ∙ ap (λ t. (ok 0, size, t))
                    (ap (λ k. take k (drop (slice.off + offset) block)) cut
                      ∙ ap (take (min size (slice.size - offset)))
                          (sym (drop-drop offset slice.off block))
                      ∙ sym (window-take size offset slice.size (drop slice.off block)))
                ∙ sym (
                    read_some (part block slice) offset buffer_size (omega (arith, len))
                      (omega (arith, len))
                    ∙ ap (λ k. (ok 0, k, take k (drop offset (part block slice)))) here)
          ]
    ]
