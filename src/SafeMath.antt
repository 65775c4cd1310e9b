-- ===== src/SafeMath.antt =====
-- src/libfrozen/core/libfrozen.c: the checked arithmetic on `uintmax_t`. A number is a word below
-- 2 ^ 64; `ok` holds what `*res` is set to.
pub mod Exact
mod Tests
use frozen.Base.{
  ℕ, zero, suc, ◌+◌, ◌*◌, ◌/◌, ◌^◌, Result, ok, err, fault, einval, leb, ◌==◌, if◌then◌else◌,
  uint_max, mul64, ◌||◌,
}

-- The loop of `safe_pow`, with the rounds that `--y >= 1` leaves. `__MAX(uintmax_t) / x` traps at 0.
unfoldable pub pow_loop : ℕ → ℕ → ℕ → Result ℕ
pow_loop zero x t = ok t
pow_loop (suc y) x t =
    let rest = pow_loop y x (mul64 t x) in
    if x == 0 then fault else if leb (uint_max / x) t then err einval else rest

unfoldable pub safe_pow : ℕ → ℕ → Result ℕ
unfolding pow_loop
safe_pow x zero = ok 1
safe_pow x (suc zero) = ok x
safe_pow x (suc (suc y)) = pow_loop (suc y) x x

unfoldable pub safe_mul : ℕ → ℕ → Result ℕ
safe_mul x y =
    if (x == 0) || (y == 0)
    then ok 0
    else if leb (uint_max / x) y
    then err einval
    else ok (mul64 x y)

unfoldable pub safe_div : ℕ → ℕ → Result ℕ
safe_div x y = if y == 0 then err einval else ok (x / y)
