-- ===== src/SafeMath/Exact.antt =====
-- The checked arithmetic of libfrozen.c against the arithmetic on numbers.
use native.Mathlib.Nat.{
  pow-zero, div-lt_iff_lt-mul, le-div_iff_mul-le, mul_comm, mul_assoc, mod-eq_of_lt, one-le-pow,
  pow-succ',
}
use frozen.Base.{
  ◌||◌, ℕ, zero, suc, ◌+◌, ◌*◌, ◌/◌, ◌^◌, ◌≤◌, ◌<◌, ◌≡◌, refl, ◌⊎◌, inl, inr, Result, ok, err,
  fault, einval, arith, leb, ◌==◌, uint_max, mul64, Bool-cases, false, leb→le, leb→lt, ap, ◌∙◌, sym,
}
use frozen.SafeMath.{pow_loop, safe_pow, safe_mul}

-- A test `__MAX(uintmax_t) / x > t` leaves room for `t * x`, and a failed one leaves no room for one
-- multiple more.
room : (x t : ℕ) → 0 < x → t < uint_max / x → t * x + x ≤ uint_max
room x t h lt =
    let e : suc t * x ≤ uint_max = (le-div_iff_mul-le {k = x} {x = suc t} {y = uint_max} h).0 lt in
    omega arith

no_room : (x t : ℕ) → 0 < x → uint_max / x ≤ t → uint_max < t * x + x
no_room x t h le =
    let lt : uint_max / x < suc t = omega arith in
    let e : uint_max < suc t * x = (div-lt_iff_lt-mul {k = x} {x = uint_max} {y = suc t} h).0 lt in
    omega arith

-- What a checked operation with the exact result `r` may return, if its test is off by one `x`.
abbrev pub Checked : ℕ → ℕ → Result ℕ → Type 0
Checked r x out = ((out ≡ ok r) × (r ≤ uint_max)) ⊎ ((out ≡ err einval) × (uint_max < r + x))

pow_grows : (t x k : ℕ) → 0 < x → t * x ≤ t * x ^ suc k
pow_grows t x k h =
    let one : 1 ≤ x ^ k = one-le-pow k x h in
    let e : x ^ suc k ≡ x * x ^ k = pow-succ' x k in rw e (grind arith)

pow_loop-Checked : (k x t : ℕ) → 0 < x → t ≤ uint_max → Checked (t * x ^ k) x (pow_loop k x t)
unfolding pow_loop
pow_loop-Checked zero x t h b =
    inl (rw (pow-zero x) (ap ok (omega arith)), rw (pow-zero x) (omega arith))
pow_loop-Checked (suc k) x t h b = elim (Bool-cases (leb (uint_max / x) t)) [
  | inl full ↦
      let n : uint_max < t * x + x = no_room x t h (leb→le _ _ full) in
      let z : (x == 0) ≡ false = ground arith in
      inr (rw (z, full), omega (arith, pow_grows t x k h))
  | inr free ↦
      let n : t * x + x ≤ uint_max = room x t h (leb→lt _ _ free) in
      let z : (x == 0) ≡ false = ground arith in
      let m : mul64 t x ≡ t * x = mod-eq_of_lt (omega arith) in
      let a : t * x ^ suc k ≡ t * x * x ^ k = rw (pow-succ' x k) (sym (mul_assoc t x (x ^ k))) in
      rw (z, free, m, a) (pow_loop-Checked k x (t * x) h (omega arith))
]

-- For a positive `x`, `safe_pow` either returns the exact power, which fits a `uintmax_t`, or fails
-- with EINVAL, and then the power lies within one `x` of the largest `uintmax_t` or beyond it.
pub safe_pow-Checked : (x y : ℕ) → 0 < x → x ≤ uint_max → Checked (x ^ y) x (safe_pow x y)
unfolding safe_pow
safe_pow-Checked x zero h b = inl (ap ok (sym (pow-zero x)), rw (pow-zero x) (omega arith))
safe_pow-Checked x (suc zero) h b =
    let e : x ^ 1 ≡ x = pow-succ' x 0 ∙ rw (pow-zero x) (omega arith) in rw e (inl (refl, b))
safe_pow-Checked x (suc (suc y)) h b = rw (pow-succ' x (suc y)) (pow_loop-Checked (suc y) x x h b)

-- `safe_pow` of 0 traps on its division as soon as it multiplies, at every exponent from 2 on.
pub safe_pow_zero_base : (y : ℕ) → safe_pow 0 (suc (suc y)) ≡ fault
unfolding safe_pow
safe_pow_zero_base y = refl

positive : (x y : ℕ) → ((suc x == 0) || (suc y == 0)) ≡ false
positive x y = ground arith

-- `safe_mul` either returns the exact product, which fits a `uintmax_t`, or fails with EINVAL, and
-- then the product lies within one `x` of the largest `uintmax_t` or beyond it.
pub safe_mul-Checked : (x y : ℕ) → Checked (x * y) x (safe_mul x y)
unfolding safe_mul
safe_mul-Checked zero y = inl (ground arith, omega arith)
safe_mul-Checked (suc x) zero = inl (ground arith, omega arith)
safe_mul-Checked (suc x) (suc y) = elim (Bool-cases (leb (uint_max / suc x) (suc y))) [
  | inl full ↦
      let n : uint_max < suc y * suc x + suc x =
        no_room (suc x) (suc y) (omega arith) (leb→le _ _ full) in
      inr (rw (positive x y, full), rw (mul_comm (suc x) (suc y)) n)
  | inr free ↦
      let n : suc y * suc x + suc x ≤ uint_max =
        room (suc x) (suc y) (omega arith) (leb→lt _ _ free) in
      let m : mul64 (suc x) (suc y) ≡ suc x * suc y =
        mod-eq_of_lt (rw (mul_comm (suc x) (suc y)) (omega arith)) in
      inl (rw (positive x y, free, m), rw (mul_comm (suc x) (suc y)) (omega arith))
]
