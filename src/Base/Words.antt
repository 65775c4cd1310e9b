-- ===== src/Base/Words.antt =====
-- Unsigned machine words as native numbers below `2 ^ 64` or `2 ^ 32`: each operation wraps.
use Prim.Native.Nat.{ℕ, ◌+◌, ◌-◌, ◌*◌, ◌%◌, ◌^◌}

-- `__MAX(uintmax_t)`, which is also `__MAX(size_t)`.
abbrev pub uint_max : ℕ
uint_max = 2 ^ 64 - 1

abbrev pub add64 : ℕ → ℕ → ℕ
add64 a b = (a + b) % 2 ^ 64

abbrev pub sub64 : ℕ → ℕ → ℕ
sub64 a b = (a + 2 ^ 64 - b) % 2 ^ 64

abbrev pub mul64 : ℕ → ℕ → ℕ
mul64 a b = a * b % 2 ^ 64
