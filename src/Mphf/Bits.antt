-- ===== src/Mphf/Bits.antt =====
-- `log_any` of mphf_chm_imp.c counts the bits of a number, and `BITS_TO_BYTES` has room for them.
use native.Mathlib.Nat.{pow-succ'}
use frozen.Base.{
  leb→le, leb→lt, ℕ, zero, suc, ◌+◌, ◌-◌, ◌*◌, ◌^◌, ◌≤◌, ◌<◌, ◌≡◌, refl, ap, ◌∙◌, inl, inr,
  Bool-cases, Option, some, leb, add64, mul64, arith,
}
use frozen.Mphf.Build.{log_loop, log_any, bits_to_bytes}

-- The number of bits of a number.
abbrev pub Bits : ℕ → Option ℕ → Type 0
Bits x o = (r : ℕ) × (o ≡ some r) × (x < 2 ^ r) × (0 < r) × (r < 64)

doublings_left : (d res x t : ℕ) → res + suc d ≡ 63 → t ≡ 2 ^ suc res → x < 2 ^ 63 → t ≤ x → 0 < d
doublings_left zero res x t h e small le =
    let q : res ≡ 62 = omega arith in
    let p : t ≡ 2 ^ 63 = e ∙ ap (λ k. 2 ^ suc k) q in absurd (omega arith)
doublings_left (suc d) res x t h e small le = omega arith

-- The loop of `log_any` at a power of two, with `d` doublings left below 2 ^ 63.
log_loop-Bits :
    (fuel d res x t : ℕ)
    → d < fuel
    → res + suc d ≡ 63
    → t ≡ 2 ^ suc res
    → x < 2 ^ 63
    → Bits x (log_loop fuel x 2 t res)
unfolding log_loop
log_loop-Bits zero d res x t f h e small = absurd (omega arith)
log_loop-Bits (suc fuel) d res x t f h e small = elim (Bool-cases (leb t x)) [
  | inr over ↦
      let lt : x < t = leb→lt t x over in
      let n : add64 res 1 ≡ suc res = omega arith in
      (suc res, rw (over, log_loop, n) refl, rw (← e) lt, omega arith, omega arith)
  | inl fits ↦
      let le = leb→le t x fits in
      let n : add64 res 1 ≡ suc res = omega arith in
      let double : mul64 t 2 ≡ 2 ^ suc (suc res) = omega (arith, pow-succ' 2 (suc res), e) in
      let pos : 0 < d = doublings_left d res x t h e small le in
      let (r, e1, lt, p, q) =
        log_loop-Bits fuel (d - 1) (suc res) x (mul64 t 2) (omega arith) (omega arith) double
          small in
      let step : log_loop (suc fuel) x 2 t res ≡ log_loop fuel x 2 (mul64 t 2) (suc res) =
        rw (fits, log_loop, n) refl in
      (r, step ∙ e1, lt, p, q)
]

pub log_any-Bits : (fuel x : ℕ) → 63 ≤ fuel → x < 2 ^ 63 → Bits x (log_any fuel x 2)
unfolding log_any
log_any-Bits fuel x h small =
    log_loop-Bits fuel 62 0 x 2 (omega arith) (omega arith) (omega arith) small

-- A vertex number fits the bytes that the code reserves for it.
pub bits_to_bytes-le : (x : ℕ) → 0 < x → x < 64 → x ≤ 8 * bits_to_bytes x
unfolding bits_to_bytes
bits_to_bytes-le x h k = omega arith
