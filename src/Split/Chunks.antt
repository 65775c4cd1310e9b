-- ===== src/Split/Chunks.antt =====
-- The reads of the handler for a string of one byte: how the input is cut into chunks does not matter.
use frozen.Base.{
  none, uint_max, ℕ, zero, suc, ◌+◌, ◌-◌, ◌^◌, ◌<◌, ◌≤◌, ◌≡◌, refl, ◌∙◌, ap, ap₂, true, false,
  Bool-cases, inl, inr, Option, some, [], ◌∷◌, ◌==◌, length, take, drop, add64, sub64, min, Result,
  ok, err, fault, arith,
}
use frozen.Memory.{Bytes}
use frozen.Transfer.{Io, data_default_read, Slider, not_frozen, data_slider_t_read}
use frozen.Transfer.Slid.{slide_with}
use frozen.Transfer.Sliced.{read_some}
use frozen.Split.{
  last, and_next, Splitting, Ending, going, refused, starved, go_on, split_loop, is_zero,
}
use frozen.Split.Parts.{
  and_then, pass_all, conclude, walk, or_refused, scan_one, scan-miss, scan-none, scan-hit,
}

module _ {S : Type 0} (pass : S → ℕ → ℕ → Result ℕ × S) (c buffer_size : ℕ) (xs : Bytes)
    (small : length xs < 2 ^ 64) where
  abbrev pub read : ℕ → ℕ → Io
  read = data_default_read (some xs)

  conclude-go_on :
      (a : Result ℕ × S) (f : S → Ending S) (K : Splitting S → Option (Result ℕ × S))
      (g : S → Option (Result ℕ × S))
      → ((s : S) → conclude pass (f s) K ≡ g s)
      → conclude pass (go_on a.0 a.1 f) K ≡ or_refused pass a g
  conclude-go_on (ok n, s) f K g e = e s
  conclude-go_on (err x, s) f K g e = refl
  conclude-go_on (fault, s) f K g e = refl

  -- What is done with the slice that is open behind a chunk.
  abbrev pub onward :
      Splitting S → (Splitting S → Option (Result ℕ × S)) → ℕ → S → Option (Result ℕ × S)
  onward st K from s = K (record st { lmatch_offset = from; passed = s })

  -- The inner loop walks over the bytes that are left of its chunk.
  pub scan-walk :
      (bs : Bytes) (fuel at : ℕ) (st : Splitting S) (K : Splitting S → Option (Result ℕ × S))
      → length bs < fuel
      → st.original_offset + at + length bs < 2 ^ 64
      → st.lmatch_offset ≤ st.original_offset + at
      → conclude pass (scan_one pass read c buffer_size fuel at bs st) K
        ≡ walk pass c st.lmatch_offset (st.original_offset + at) bs st.passed (onward st K)
  unfolding walk
  scan-walk [] zero at st K f h l = absurd (omega arith)
  scan-walk (x ∷ bs) zero at st K f h l = absurd (omega arith)
  scan-walk [] (suc fuel) at st K f h l =
      ap (λ e. conclude pass e K) (scan-none pass read c buffer_size fuel at st)
  scan-walk (x ∷ bs) (suc fuel) at st K f h l =
      let o = st.original_offset in
      let from = st.lmatch_offset in
      elim (Bool-cases (x == c)) [
        | inr miss ↦ rw miss (
            ap (λ e. conclude pass e K) (scan-miss pass read c buffer_size fuel at x bs st miss)
            ∙ scan-walk bs (suc fuel) (suc at) st K (omega arith) (omega arith) (omega arith)
            ∙ ap (λ n. walk pass c from n bs st.passed (onward st K)) (omega arith))
        | inl hit ↦
            let behind = suc (o + at) in
            let rest : ℕ → S → Ending S = λ n s.
              scan_one pass read c buffer_size fuel (suc at) bs
                (record st { lmatch_offset = n; passed = s }) in
            let step : ℕ → ℕ → Ending S =
              λ n size. let a = pass st.passed from size in go_on a.0 a.1 (rest n) in
            let e1 : add64 (add64 o at) 1 ≡ behind = omega arith in
            let e2 : sub64 (add64 (add64 o at) 1) from ≡ behind - from = omega arith in
            let e3 : o + suc at ≡ behind = omega arith in
            rw hit (
              ap (λ e. conclude pass e K)
                (scan-hit pass read c buffer_size fuel at x bs st hit ∙ ap₂ step e1 e2)
              ∙ conclude-go_on (pass st.passed from (behind - from)) (rest behind) K
                  (λ s. walk pass c behind behind bs s (onward st K))
                  (λ s.
                    scan-walk bs fuel (suc at) (record st { lmatch_offset = behind; passed = s }) K
                      (omega arith) (omega arith) (omega arith)
                    ∙ ap (λ n. walk pass c behind n bs s (onward st K)) e3))
      ]

  pub conclude-and_next :
      (e : Ending S) (f : Splitting S → Ending S) (K : Splitting S → Option (Result ℕ × S))
      → conclude pass (and_next e f) K ≡ conclude pass e (λ st. conclude pass (f st) K)
  conclude-and_next (going st) f K = refl
  conclude-and_next (refused r s) f K = refl
  conclude-and_next starved f K = refl

  abbrev pub loop : ℕ → Splitting S → Ending S
  loop = split_loop read pass (c ∷ []) buffer_size

  pub loop-end :
      (fuel : ℕ) (st : Splitting S)
      → is_zero (data_slider_t_read read st.slider 0 buffer_size).0.0 ≡ false
      → loop (suc fuel) st
        ≡ going (record st { slider = (data_slider_t_read read st.slider 0 buffer_size).1 })
  unfolding split_loop
  loop-end fuel st e = rw (e, split_loop) refl

  pub loop-read :
      (fuel n : ℕ) (bytes : Bytes) (slider' : Slider) (st : Splitting S)
      → data_slider_t_read read st.slider 0 buffer_size ≡ ((ok 0, n, bytes), slider')
      → loop (suc fuel) st
        ≡ and_next
            (scan_one pass read c buffer_size fuel 0 bytes
              (record st { slider = slider'; original_eoffset = add64 st.original_offset n }))
            (λ st'. loop fuel (record st' { original_offset = st'.original_eoffset }))
  unfolding split_loop
  loop-read fuel n bytes slider' st e =
      ap
        (λ (p : Io × Slider). elim (is_zero p.0.0) [
          | false ↦ going (record st { slider = p.1 })
          | true ↦
              and_next
                (scan_one pass read c buffer_size fuel 0 p.0.2
                  (record st { slider = p.1; original_eoffset = add64 st.original_offset p.0.1 }))
                (λ st'. loop fuel (record st' { original_offset = st'.original_eoffset }))
        ])
        e

  read-end : (at : ℕ) → at ≡ length xs → is_zero (read at buffer_size).0 ≡ false
  unfolding data_default_read
  read-end at e = ground arith

  pub slide-end :
      (slider : Slider)
      → slider.frozen_off ≡ not_frozen
      → slider.off ≡ length xs
      → is_zero (data_slider_t_read read slider 0 buffer_size).0.0 ≡ false
  unfolding data_slider_t_read
  slide-end slider free e =
      let f : (slider.frozen_off == not_frozen) ≡ true = ground arith in
      rw f (read-end (add64 0 slider.off) (omega arith))

  pub slide-inside :
      (slider : Slider)
      → slider.frozen_off ≡ not_frozen
      → slider.off < length xs
      → 0 < buffer_size
      → let n = min buffer_size (length xs - slider.off) in
        data_slider_t_read read slider 0 buffer_size
        ≡ ((ok 0, n, take n (drop slider.off xs)), record slider { off = slider.off + n })
  slide-inside slider free inside pos =
      let n = min buffer_size (length xs - slider.off) in
      let e : add64 slider.off n ≡ slider.off + n = omega arith in
      slide_with read slider buffer_size slider.off n (take n (drop slider.off xs)) free
        (omega arith) (read_some xs slider.off buffer_size (omega arith) (omega arith))
      ∙ ap (λ k. ((ok 0, n, take n (drop slider.off xs)), record slider { off = k })) e

-- The last slice, which is all that is left.
module _ {S : Type 0} (pass : S → ℕ → ℕ → Result ℕ × S) (read : ℕ → ℕ → Io)
    (c buffer_size : ℕ) where
  abbrev pub last_part : ℕ → S → Option (Result ℕ × S)
  last_part from s = some (pass_all pass ((from, uint_max) ∷ []) s)

  last_lem :
      (a : Result ℕ × S)
      → last read pass (c ∷ []) buffer_size a ≡ and_then pass a (pass_all pass [])
  unfolding pass_all
  last_lem (ok n, s) = refl
  last_lem (err e, s) = refl
  last_lem (fault, s) = refl

  pub handler-conclude :
      (e : Ending S)
      → elim e [
        | starved ↦ none
        | refused r s' ↦ some (r, s')
        | going st ↦
            some (last read pass (c ∷ []) buffer_size (pass st.passed st.lmatch_offset uint_max))
      ]
        ≡ conclude pass e (λ st. last_part st.lmatch_offset st.passed)
  unfolding pass_all
  handler-conclude starved = refl
  handler-conclude (refused r s') = refl
  handler-conclude (going st) = ap some (last_lem (pass st.passed st.lmatch_offset uint_max))
