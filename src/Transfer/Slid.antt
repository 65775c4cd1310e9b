-- ===== src/Transfer/Slid.antt =====
-- Reads through a slider go on where the one before ended.
use frozen.Base.{
  ℕ, zero, suc, ◌+◌, ◌-◌, ◌^◌, ◌≤◌, ◌<◌, ◌≡◌, sym, ap, ap₂, ◌∙◌, min, true, some, [], ◌∷◌, ◌++◌,
  ◌==◌, arith, length, take, drop, drop-drop, take-nil, ok, add64,
}
use frozen.Memory.{Bytes}
use frozen.Transfer.{Io, data_default_read, Slider, not_frozen, data_slider_t_read}
use frozen.Transfer.Sliced.{read_some}

take-take-drop : (n m : ℕ) (xs : Bytes) → take n xs ++ take m (drop n xs) ≡ take (n + m) xs
take-take-drop zero m xs = ap (λ k. take k xs) (omega arith)
take-take-drop (suc n) m [] = rw (take-nil m) (sym (take-nil (suc n + m)))
take-take-drop (suc n) m (x ∷ xs) =
    let e : suc (n + m) ≡ suc n + m = omega arith in
    ap (λ t. x ∷ t) (take-take-drop n m xs) ∙ ap (λ k. take k (x ∷ xs)) e

module _ (read : ℕ → ℕ → Io) (slider : Slider) (n : ℕ) where
  pub slide_with :
      (at got : ℕ) (bytes : Bytes)
      → slider.frozen_off ≡ not_frozen
      → add64 0 slider.off ≡ at
      → read at n ≡ (ok 0, got, bytes)
      → data_slider_t_read read slider 0 n
        ≡ ((ok 0, got, bytes), record slider { off = add64 slider.off got })
  unfolding data_slider_t_read
  slide_with at got bytes free start e =
      let f : (slider.frozen_off == not_frozen) ≡ true = ground arith in
      rw (f, start, ap (λ p. p.0) e, ap (λ p. p.1) e, ap (λ p. p.2) e)

slide_once :
    (xs : Bytes) (slider : Slider) (n : ℕ)
    → slider.frozen_off ≡ not_frozen
    → 0 < n
    → slider.off + n ≤ length xs
    → length xs < 2 ^ 64
    → data_slider_t_read (data_default_read (some xs)) slider 0 n
      ≡ ((ok 0, n, take n (drop slider.off xs)), record slider { off = slider.off + n })
slide_once xs slider n free pos inside small =
    let whole : min n (length xs - slider.off) ≡ n = omega arith in
    let start : add64 0 slider.off ≡ slider.off = omega arith in
    let behind : add64 slider.off n ≡ slider.off + n = omega arith in
    let e : data_default_read (some xs) slider.off n ≡ (ok 0, n, take n (drop slider.off xs)) =
      read_some xs slider.off n (omega arith) (omega arith)
      ∙ ap (λ k. (ok 0, k, take k (drop slider.off xs))) whole in
    slide_with (data_default_read (some xs)) slider n slider.off n (take n (drop slider.off xs))
      free start e
    ∙ ap (λ k. ((ok 0, n, take n (drop slider.off xs)), record slider { off = k })) behind

-- Two reads of a block through a slider that is not frozen, inside the block, take together the bytes
-- from the slider's offset on that one read of as many bytes takes, and move the slider behind them.
pub data_slider_t_read-take :
    (xs : Bytes) (slider : Slider) (n m : ℕ)
    → slider.frozen_off ≡ not_frozen
    → 0 < n
    → 0 < m
    → slider.off + n + m ≤ length xs
    → length xs < 2 ^ 64
    → let (io1, slider1) = data_slider_t_read (data_default_read (some xs)) slider 0 n in
      let (io2, slider2) = data_slider_t_read (data_default_read (some xs)) slider1 0 m in
      (io1.2 ++ io2.2 ≡ take (n + m) (drop slider.off xs))
      × (slider2 ≡ record slider { off = slider.off + n + m })
data_slider_t_read-take xs slider n m free pos pos' inside small =
    let slider1 : Slider = record slider { off = slider.off + n } in
    let read = data_default_read (some xs) in
    let e1 = slide_once xs slider n free pos (omega arith) small in
    let e2 = slide_once xs slider1 m free pos' inside small in
    let second : data_slider_t_read read (data_slider_t_read read slider 0 n).1 0 m ≡ (
      (ok 0, m, take m (drop (slider.off + n) xs)),
      record slider { off = slider.off + n + m },
    ) =
      ap (λ p. data_slider_t_read read p.1 0 m) e1 ∙ e2 in
    (
      ap₂ (λ p q. p.0.2 ++ q.0.2) e1 second
          ∙ ap (λ t. take n (drop slider.off xs) ++ take m t) (sym (drop-drop n slider.off xs))
          ∙ take-take-drop n m (drop slider.off xs),
      ap (λ p. p.1) second,
    )
