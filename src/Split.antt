-- ===== src/Split.antt =====
-- src/libfrozen/backends/data/split/split.c: a backend that passes the parts of an input between
-- occurrences of a string, as slices of the input. The read of the input and backend_pass are
-- parameters; a slice is its offset and its size.
pub mod Parts
pub mod Chunks
pub mod Whole
mod Tests
use frozen.Base.{
  ℕ, zero, suc, ◌+◌, ◌-◌, Bool, true, false, Option, none, some, [], ◌∷◌, ◌==◌, ltb, length, take,
  drop, ◌++◌, uint_max, add64, sub64, Result, ok, err, fault, ◌&&◌, if◌then◌else◌,
}
use frozen.Memory.{Bytes}
use frozen.Transfer.{Io, Slider, not_frozen, data_slider_t_read}

-- The state of the handler: the slider, where `tmp` and its end stand in the input, the end of the last
-- match, and what the childs have come to.
pub record Splitting (S : Type 0) : Type 0 where
  pub slider : Slider
  pub original_offset : ℕ
  pub original_eoffset : ℕ
  pub lmatch_offset : ℕ
  pub passed : S

-- A loop ends, or a child refuses a request, or the fuel was too little.
pub data Ending (S : Type 0) : Type 0 where
  going : Splitting S → Ending S
  refused : Result ℕ → S → Ending S
  starved : Ending S

-- `memchr`.
unfoldable pub memchr : Bytes → ℕ → Option ℕ
memchr [] c = none
memchr (x ∷ xs) c =
    if x == c then some 0 else elim (memchr xs c) [ none ↦ none | some i ↦ some (suc i) ]

-- Whether `memcmp` of two blocks of one length returns 0.
abbrev pub same_bytes : Bytes → Bytes → Bool
same_bytes [] [] = true
same_bytes [] (y ∷ ys) = false
same_bytes (x ∷ xs) [] = false
same_bytes (x ∷ xs) (y ∷ ys) = (x == y) && same_bytes xs ys

-- The first byte of a string, which ends with a 0.
abbrev pub first_byte : Bytes → ℕ
first_byte [] = 0
first_byte (x ∷ xs) = x

-- Whether a call returned 0.
abbrev pub is_zero : Result ℕ → Bool
is_zero (ok zero) = true
is_zero _ = false

-- What a child answers to a slice: the handler goes on if it does not fail.
abbrev pub go_on : {S : Type 0} → Result ℕ → S → (S → Ending S) → Ending S
go_on (ok n) s k = k s
go_on (err e) s k = refused (err e) s
go_on fault s k = refused fault s

-- A loop, and what follows its end.
abbrev pub and_next : {S : Type 0} → Ending S → (Splitting S → Ending S) → Ending S
and_next (going st) k = k st
and_next (refused r s) k = refused r s
and_next starved k = starved

module _ {S : Type 0} (read : ℕ → ℕ → Io) (pass : S → ℕ → ℕ → Result ℕ × S) (split_str : Bytes)
    (buffer_size : ℕ) where
  -- The body of the inner loop for a byte found at `place` in `tmp`, with the bytes from there on. A
  -- match that may go on behind the buffer is moved to the start of `tmp`. `next` is the next round.
  unfoldable pub matched : (ℕ → Bytes → Splitting S → Ending S) → ℕ → Bytes → Splitting S → Ending S
  unfolding data_slider_t_read
  matched next place match st = elim (ltb (length match) (length split_str)) [
    | true ↦
        let (io, slider') = data_slider_t_read read st.slider 0 (buffer_size - length match) in
        let start = add64 st.original_offset place in
        elim (is_zero io.0) [
          | true ↦ next 0 (match ++ io.2) (record st {
            slider = slider';
            original_offset = start;
            original_eoffset = add64 start io.1;
          })
          | false ↦ going (record st { slider = slider' })
        ]
    | false ↦
        let offset = add64 (add64 st.original_offset place) (length split_str) in
        let (ret, s') = pass st.passed st.lmatch_offset (sub64 offset st.lmatch_offset) in
        elim (same_bytes (take (length split_str) match) split_str) [
          | true ↦ go_on ret s' λ s.
              next (suc place) (drop 1 match) (record st { lmatch_offset = offset; passed = s })
          | false ↦ next (suc place) (drop 1 match) st
        ]
  ]

  -- The inner loop, from `buffer` on, which is `at` bytes behind the start of `tmp`, with the bytes that
  -- are left in it.
  unfoldable pub scan : ℕ → ℕ → Bytes → Splitting S → Ending S
  unfolding memchr matched
  scan zero at buffer st = starved
  scan (suc fuel) at buffer st = elim (memchr buffer (first_byte split_str)) [
    | none ↦ going st
    | some i ↦ matched (scan fuel) (at + i) (drop i buffer) st
  ]

  -- The outer loop, a round for each read.
  unfoldable pub split_loop : ℕ → Splitting S → Ending S
  unfolding scan data_slider_t_read
  split_loop zero st = starved
  split_loop (suc fuel) st =
      let (io, slider') = data_slider_t_read read st.slider 0 buffer_size in
      elim (is_zero io.0) [
        | false ↦ going (record st { slider = slider' })
        | true ↦
            and_next
              (scan fuel 0 io.2
                (record st { slider = slider'; original_eoffset = add64 st.original_offset io.1 }))
              λ st'. split_loop fuel (record st' { original_offset = st'.original_eoffset })
      ]

  -- What the handler returns for the last slice.
  abbrev pub last : Result ℕ × S → Result ℕ × S
  last (ok n, s) = (ok 0, s)
  last (err e, s) = (err e, s)
  last (fault, s) = (fault, s)

  -- `split_handler`, with its return value; `none` where the fuel was too little.
  unfoldable pub split_handler : ℕ → S → Option (Result ℕ × S)
  unfolding split_loop
  split_handler fuel s =
      let first : Splitting S = record {
        slider = record { off = 0; frozen_off = not_frozen };
        original_offset = 0;
        original_eoffset = 0;
        lmatch_offset = 0;
        passed = s;
      } in
      elim (split_loop fuel first) [
        | starved ↦ none
        | refused r s' ↦ some (r, s')
        | going st ↦ some (last (pass st.passed st.lmatch_offset uint_max))
      ]
