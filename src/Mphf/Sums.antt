-- ===== src/Mphf/Sums.antt =====
-- The sums of the numbers of two vertices, which the query of mphf_chm_imp.c reduces to the bits of a
-- value: the bytes that a number is stored in do not change them.
use native.Mathlib.Nat.{mod-mod_of_dvd, add-mod, pow-succ', dvd-mul_left, mul_assoc}
use frozen.Base.{
  ℕ, zero, suc, ◌+◌, ◌-◌, ◌*◌, ◌%◌, ◌^◌, ◌≤◌, ◌≡◌, refl, sym, ap, ap₂, ◌∙◌, add64, sub64, arith,
}
use frozen.Mphf.{cut, frn_g_new}

pow-add : (a b : ℕ) → 2 ^ (a + b) ≡ 2 ^ a * 2 ^ b
pow-add zero b = let e : zero + b ≡ b = omega arith in rw e (omega arith)
pow-add (suc a) b =
    let e : suc a + b ≡ suc (a + b) = omega arith in
    ap (λ k. 2 ^ k) e
    ∙ pow-succ' 2 (a + b)
    ∙ ap (λ k. 2 * k) (pow-add a b)
    ∙ sym (mul_assoc 2 (2 ^ a) (2 ^ b))
    ∙ ap (λ k. k * 2 ^ b) (sym (pow-succ' 2 a))

-- Fewer bits of some bits.
pub mod-mod_le : (a b x : ℕ) → a ≤ b → x % 2 ^ b % 2 ^ a ≡ x % 2 ^ a
mod-mod_le a b x h =
    let e : b ≡ b - a + a = omega arith in
    let p = ap (λ k. 2 ^ k) e ∙ pow-add (b - a) a in
    rw p (mod-mod_of_dvd (2 ^ a) x (dvd-mul_left (2 ^ a) (2 ^ (b - a))))

pub add-mod_congr :
    (m x x' y y' : ℕ) → x % m ≡ x' % m → y % m ≡ y' % m → (x + y) % m ≡ (x' + y') % m
add-mod_congr m x x' y y' h k = add-mod x y m ∙ ap₂ (λ s t. (s + t) % m) h k ∙ sym (add-mod x' y' m)

-- A value of `bi` bits is stored in `bt` bytes, eight at most.
module _ (bi bt : ℕ) (fits : bi ≤ 8 * bt) (word : 8 * bt ≤ 64) where
  pub cut-mod : (x : ℕ) → cut bt x % 2 ^ bi ≡ x % 2 ^ bi
  unfolding cut
  cut-mod x = mod-mod_le bi (8 * bt) x fits

  pub mod64 : (x : ℕ) → x % 2 ^ 64 % 2 ^ bi ≡ x % 2 ^ bi
  mod64 x = mod-mod_le bi 64 x (omega arith)

  wrap-mod : (x : ℕ) → (x + 2 ^ 64) % 2 ^ bi ≡ x % 2 ^ bi
  wrap-mod x =
      let h = sym (mod64 (x + 2 ^ 64)) in
      h
      ∙ ap (λ k. k % 2 ^ bi) (let e : (x + 2 ^ 64) % 2 ^ 64 ≡ x % 2 ^ 64 = omega arith in e)
      ∙ mod64 x

  -- A difference in 64 bits and what was taken off.
  pub sub64-add : (x n : ℕ) → n ≤ 2 ^ 64 → (sub64 x n + n) % 2 ^ bi ≡ x % 2 ^ bi
  sub64-add x n h =
      let e : x + 2 ^ 64 - n + n ≡ x + 2 ^ 64 = omega arith in
      add-mod_congr (2 ^ bi) (sub64 x n) (x + 2 ^ 64 - n) n n (mod64 (x + 2 ^ 64 - n)) refl
      ∙ ap (λ k. k % 2 ^ bi) e
      ∙ wrap-mod x

  pub cut_sum : (x n : ℕ) → (cut bt x + cut bt n) % 2 ^ bi ≡ (x + n) % 2 ^ bi
  cut_sum x n = add-mod_congr (2 ^ bi) (cut bt x) x (cut bt n) n (cut-mod x) (cut-mod n)

  -- The new number of the other end keeps the sum.
  pub frn_sum :
      (a b n : ℕ) → n ≤ 2 ^ 64 → (cut bt (frn_g_new a b n) + cut bt n) % 2 ^ bi ≡ (a + b) % 2 ^ bi
  unfolding frn_g_new
  frn_sum a b n h = cut_sum (frn_g_new a b n) n ∙ sub64-add (add64 a b) n h ∙ mod64 (a + b)
