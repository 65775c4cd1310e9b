-- ===== src/Split/Whole.antt =====
-- The handler for a string of one byte against the parts of the input.
use frozen.Base.{
  ℕ, zero, suc, ◌+◌, ◌-◌, ◌^◌, ◌<◌, ◌≤◌, ◌≡◌, refl, sym, ◌∙◌, ap, ap₂, Bool-cases, inl, inr, Option,
  some, [], ◌∷◌, length, take, drop, add64, min, ltb, Result, ok, arith, length-take, length-drop,
  take-append-drop, drop-drop,
}
use frozen.Memory.{Bytes}
use frozen.Transfer.{data_default_read, not_frozen}
use frozen.Split.{Splitting, Ending, split_handler}
use frozen.Split.Parts.{
  parts, pass_all, conclude, walk, walk-append, walk-ext, walk-parts, scan_one,
}
use frozen.Split.Chunks.{
  read, loop, scan-walk, conclude-and_next, handler-conclude, last_part, loop-end, loop-read,
  slide-end, slide-inside,
}

no_bytes : (bs : Bytes) → length bs ≡ 0 → bs ≡ []
no_bytes [] e = refl
no_bytes (x ∷ bs) e = absurd (omega (arith, e))

module _ {S : Type 0} (pass : S → ℕ → ℕ → Result ℕ × S) (c buffer_size : ℕ) (xs : Bytes)
    (small : length xs < 2 ^ 64) (pos : 0 < buffer_size) (k : ℕ → S → Option (Result ℕ × S)) where
  abbrev done_with : Splitting S → Option (Result ℕ × S)
  done_with st = k st.lmatch_offset st.passed

  -- A state between two reads, at which the slider and the handler stand at one place.
  record IsBetween (st : Splitting S) : Type 0 where
    free : st.slider.frozen_off ≡ not_frozen
    along : st.slider.off ≡ st.original_offset
    within : st.original_offset ≤ length xs
    behind : st.lmatch_offset ≤ st.original_offset

  abbrev Walks : ℕ → Splitting S → Type 0
  Walks fuel st =
      conclude pass (loop pass c buffer_size xs small fuel st) done_with
      ≡ walk pass c st.lmatch_offset st.original_offset (drop st.original_offset xs) st.passed k

  Walks-end :
      (fuel : ℕ) (st : Splitting S)
      → IsBetween st
      → length xs ≤ st.original_offset
      → Walks (suc fuel) st
  unfolding walk
  Walks-end fuel st b e =
      let out =
        slide-end pass c buffer_size xs small st.slider b.free (omega (arith, b.along, b.within)) in
      let nothing =
        no_bytes (drop st.original_offset xs) (length-drop st.original_offset xs ∙ omega arith) in
      ap (λ t. conclude pass t done_with) (loop-end pass c buffer_size xs small fuel st out)
      ∙ ap (λ t. walk pass c st.lmatch_offset st.original_offset t st.passed k) (sym nothing)

  -- How many bytes the next read takes.
  abbrev chunk_size : Splitting S → ℕ
  chunk_size st = min buffer_size (length xs - st.slider.off)

  -- The state behind a chunk, for the slice that is open there.
  abbrev behind_chunk : Splitting S → ℕ → S → Splitting S
  behind_chunk st from s =
      let at_end = add64 st.original_offset (chunk_size st) in
      record {
        slider = record st.slider { off = st.slider.off + chunk_size st };
        original_offset = at_end;
        original_eoffset = at_end;
        lmatch_offset = from;
        passed = s;
      }

  chunk_length :
      (st : Splitting S)
      → IsBetween st
      → length (take (chunk_size st) (drop st.original_offset xs)) ≡ chunk_size st
  chunk_length st b =
      length-take (chunk_size st) (drop st.original_offset xs)
      ∙ omega (arith, length-drop st.original_offset xs, b.along)

  -- One round of the outer loop walks over one chunk.
  one_round :
      (fuel : ℕ) (st : Splitting S)
      → IsBetween st
      → st.original_offset < length xs
      → length xs - st.original_offset < fuel
      → conclude pass (loop pass c buffer_size xs small (suc fuel) st) done_with
        ≡ walk pass c st.lmatch_offset
            (st.original_offset + 0)
            (take (chunk_size st) (drop st.original_offset xs))
            st.passed
            (λ from s.
              conclude pass
                (loop pass c buffer_size xs small fuel (behind_chunk st from s))
                done_with)
  one_round fuel st b inside enough =
      let o = st.original_offset in
      let n = chunk_size st in
      let bytes = take n (drop o xs) in
      let len = chunk_length st b in
      let slider' = record st.slider { off = st.slider.off + n } in
      let st1 = record st { slider = slider'; original_eoffset = add64 o n } in
      let got =
        slide-inside pass c buffer_size xs small st.slider b.free (omega (arith, b.along, inside))
          pos
        ∙ ap (λ i. ((ok 0, n, take n (drop i xs)), slider')) b.along in
      let cont : Splitting S → Ending S = λ st'.
        loop pass c buffer_size xs small fuel
          (record st' { original_offset = st'.original_eoffset }) in
      ap (λ t. conclude pass t done_with)
        (loop-read pass c buffer_size xs small fuel n bytes slider' st got)
      ∙ conclude-and_next pass c buffer_size xs small
          (scan_one pass (read pass c buffer_size xs small) c buffer_size fuel 0 bytes st1) cont
          done_with
      ∙ scan-walk pass c buffer_size xs small bytes fuel 0 st1
          (λ st'. conclude pass (cont st') done_with) (omega (arith, len, enough, b.along))
          (omega (arith, len, b.along, inside, small)) (omega (arith, b.behind))

  Walks-next :
      (fuel : ℕ) (st : Splitting S)
      → IsBetween st
      → st.original_offset < length xs
      → length xs - st.original_offset < fuel
      → ((st' : Splitting S)
          → IsBetween st'
          → st.original_offset < st'.original_offset
          → Walks fuel st')
      → Walks (suc fuel) st
  Walks-next fuel st b inside enough ih =
      let o = st.original_offset in
      let n = chunk_size st in
      let bytes = take n (drop o xs) in
      let from = st.lmatch_offset in
      let here : add64 o n ≡ o + n = omega (arith, b.along, inside, small) in
      let len = chunk_length st b in
      let rest : ℕ → S → Option (Result ℕ × S) =
        λ from' s. walk pass c from' (o + length bytes) (drop n (drop o xs)) s k in
      one_round fuel st b inside enough
      ∙ walk-ext pass c from (o + 0) bytes st.passed _ rest (omega (arith, b.behind)) (λ from' s le.
        ih (behind_chunk st from' s)
          (record {
            free = b.free;
            along = omega (arith, b.along, here);
            within = omega (arith, b.along, here, inside);
            behind = omega (arith, here, len, le);
          })
          (omega (arith, here, b.along, inside, pos))
        ∙ ap₂ (λ i t. walk pass c from' i t s k) (omega (arith, here, len))
            (ap (λ i. drop i xs) here ∙ sym (drop-drop n o xs)))
      ∙ ap (λ i. walk pass c from i bytes st.passed rest) (omega arith)
      ∙ sym (walk-append pass c from o bytes (drop n (drop o xs)) st.passed k)
      ∙ ap (λ t. walk pass c from o t st.passed k) (take-append-drop n (drop o xs))

  loop-walk :
      (fuel : ℕ) (st : Splitting S)
      → IsBetween st
      → length xs - st.original_offset + 1 < fuel
      → Walks fuel st
  loop-walk zero st b h = absurd (omega arith)
  loop-walk (suc fuel) st b h = elim (Bool-cases (ltb st.original_offset (length xs))) [
    | inl more ↦
        Walks-next fuel st b (ground arith) (omega arith)
          (λ st' b' far. loop-walk fuel st' b' (omega (arith, b'.within)))
    | inr all ↦ Walks-end fuel st b (ground arith)
  ]

abbrev first_state : {S : Type 0} → S → Splitting S
first_state s = record {
  slider = record { off = 0; frozen_off = not_frozen };
  original_offset = 0;
  original_eoffset = 0;
  lmatch_offset = 0;
  passed = s;
}

-- With fuel for a round for each byte and two more, and a string of one byte, the handler passes the
-- parts of the input in their order, whatever the size of its buffer: from the start of the input or
-- behind an occurrence of the byte up to the next one, and at last all that is left. It stops at the
-- first part that a child refuses, and returns what the child returned; else it returns 0.
pub split_handler-parts :
    {S : Type 0} (pass : S → ℕ → ℕ → Result ℕ × S) (c buffer_size fuel : ℕ) (xs : Bytes) (s : S)
    → length xs < 2 ^ 64
    → 0 < buffer_size
    → length xs + 1 < fuel
    → split_handler (data_default_read (some xs)) pass (c ∷ []) buffer_size fuel s
      ≡ some (pass_all pass (parts c 0 0 xs) s)
unfolding split_handler
split_handler-parts pass c buffer_size fuel xs s small pos enough =
    handler-conclude pass (data_default_read (some xs)) c buffer_size
      (loop pass c buffer_size xs small fuel (first_state s))
    ∙ loop-walk pass c buffer_size xs small pos
        (last_part pass (data_default_read (some xs)) c buffer_size) fuel (first_state s)
        (record { free = refl; along = refl; within = omega arith; behind = omega arith })
        (omega (arith, enough))
    ∙ walk-parts pass c 0 0 xs s
