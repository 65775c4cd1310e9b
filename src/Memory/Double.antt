-- ===== src/Memory/Double.antt =====
-- The doubling loop of `memory_resize`: where it ends, and where it does not.
use native.Mathlib.Nat.{pow-succ', one-le-pow, mul_assoc}
use frozen.Base.{
  le→ltb, ℕ, zero, suc, ◌*◌, ◌^◌, ◌≤◌, ◌<◌, ◌≡◌, refl, ◌⊎◌, inl, inr, Option, none, some, arith,
  ltb, mul64, Bool-cases, ltb→lt, ltb→le, lt→ltb, ◌∙◌,
}
use frozen.Memory.{double_from}

-- Where the loop stands at `t`, `k` doublings below 2 ^ 63.
step : (t k : ℕ) → t * 2 ^ suc k ≡ 2 ^ 63 → (mul64 t 2 ≡ t * 2) × (t * 2 * 2 ^ k ≡ 2 ^ 63)
step t k h =
    let e : 2 ^ suc k ≡ 2 * 2 ^ k = pow-succ' 2 k in
    let one : 1 ≤ 2 ^ k = one-le-pow k 2 (omega arith) in
    let h' : t * 2 * 2 ^ k ≡ 2 ^ 63 = mul_assoc t 2 (2 ^ k) ∙ (rw (← e) h) in
    let b : t * 2 * 1 ≤ t * 2 * 2 ^ k = grind arith in (omega arith, h')

le_top : (t k : ℕ) → t * 2 ^ k ≡ 2 ^ 63 → t ≤ 2 ^ 63
le_top t k h =
    let one : 1 ≤ 2 ^ k = one-le-pow k 2 (omega arith) in
    let b : t * 1 ≤ t * 2 ^ k = grind arith in omega arith

at_top : (t : ℕ) → t * 2 ^ 0 ≡ 2 ^ 63 → t ≡ 2 ^ 63
at_top t h = omega arith

-- What the loop returns for `n` when it starts at `t`.
abbrev pub Doubled : ℕ → ℕ → Option ℕ → Type 0
Doubled t n out =
    (r : ℕ) × (out ≡ some r) × (n ≤ r) × (t ≤ r) × (r ≤ 2 ^ 63) × ((r ≡ t) ⊎ (r < 2 * n))

double_from-Doubled :
    (fuel k t n : ℕ)
    → t * 2 ^ k ≡ 2 ^ 63
    → k < fuel
    → n ≤ 2 ^ 63
    → Doubled t n (double_from fuel t n)
unfolding double_from
double_from-Doubled zero k t n e f h = absurd (omega arith)
double_from-Doubled (suc fuel) zero t n e f h = (
  t,
  rw (le→ltb t n (omega (arith, at_top t e))),
  omega (arith, at_top t e),
  omega arith,
  le_top t 0 e,
  inl refl,
)
double_from-Doubled (suc fuel) (suc k) t n e f h = elim (Bool-cases (ltb t n)) [
  | inr stop ↦ (t, rw stop, ltb→le t n stop, omega arith, le_top t (suc k) e, inl refl)
  | inl more ↦
      let (twice, e') = step t k e in
      let (r, eq, big, from, top, tight) =
        double_from-Doubled fuel k (t * 2) n e' (omega arith) h in
      (r, rw (more, twice) eq, big, omega arith, top, inr (omega (arith, ltb→lt t n more)))
]

-- For a size of at most 2 ^ 63 the doubling loop ends within 64 rounds, at a size that holds
-- `new_size`, fits a word, and is 1 or less than twice `new_size`.
pub double_from_lem :
    (new_size : ℕ) → new_size ≤ 2 ^ 63 → Doubled 1 new_size (double_from 65 1 new_size)
double_from_lem n h = double_from-Doubled 65 63 1 n refl (omega arith) h

from_zero : (fuel n : ℕ) → 0 < n → double_from fuel 0 n ≡ none
unfolding double_from
from_zero zero n h = refl
from_zero (suc fuel) n h = rw (lt→ltb 0 n h) (from_zero fuel n h)

diverges_from : (fuel k t n : ℕ) → t * 2 ^ k ≡ 2 ^ 63 → 2 ^ 63 < n → double_from fuel t n ≡ none
unfolding double_from
diverges_from zero k t n e h = refl
diverges_from (suc fuel) zero t n e h =
    let z : mul64 t 2 ≡ 0 = omega (arith, at_top t e) in
    rw (lt→ltb t n (omega (arith, at_top t e)), z) (from_zero fuel n (omega arith))
diverges_from (suc fuel) (suc k) t n e h =
    let (twice, e') = step t k e in
    rw (lt→ltb t n (omega (arith, le_top t (suc k) e)), twice) (diverges_from fuel k (t * 2) n e' h)

-- For a size above 2 ^ 63 the doubling loop never ends: `t` wraps to 0 and stays there, so no number
-- of rounds is enough.
pub double_from_diverges :
    (fuel new_size : ℕ) → 2 ^ 63 < new_size → double_from fuel 1 new_size ≡ none
double_from_diverges fuel n h = diverges_from fuel 63 1 n refl h
