-- ===== src/Uint/Arith.antt =====
-- The arithmetic handlers of the unsigned types against the arithmetic on numbers.
use native.Mathlib.Nat.{
  div-lt_iff_lt-mul, le-div_iff_mul-le, mod-eq_of_lt, mod-eq-sub-mod, lt-mul-div-succ,
  div-mul-le_self, one-le-pow,
}
use frozen.Base.{
  ◌∙◌, ℕ, ◌+◌, ◌-◌, ◌*◌, ◌/◌, ◌%◌, ◌≤◌, ◌<◌, ◌≡◌, refl, ◌⊎◌, inl, inr, some, arith, ltb, ◌==◌,
  Bool-cases, Result, ok, err, einval, eoverflow, ltb→lt, ltb→le,
}
use frozen.Uint.{
  Action, action_add, action_sub, action_multiply, action_divide, action_increment,
  action_decrement, modulus, type_max, uint_compare, uint_arith, uint_arith_no_arg,
}

module _ (k : ℕ) where
  modulus_pos : 0 < modulus k
  modulus_pos = one-le-pow (8 * k) 2 (omega arith)

  -- What an operation is to leave in the first operand and to return.
  abbrev pub Computed : Action → ℕ → ℕ → ℕ × Result (Unit {0}) → Type 0
  Computed action_add a b (v, r) =
      ((r ≡ ok tt) × (v ≡ a + b) × (a + b < modulus k))
      ⊎ ((r ≡ err eoverflow) × (v + modulus k ≡ a + b))
  Computed action_sub a b (v, r) =
      ((r ≡ ok tt) × (v + b ≡ a)) ⊎ ((r ≡ err eoverflow) × (v + b ≡ a + modulus k) × (a < b))
  Computed action_multiply a b (v, r) =
      ((r ≡ ok tt) × (v ≡ a * b) × (a * b < modulus k))
      ⊎ ((r ≡ err eoverflow) × (v ≡ (a * b) % modulus k) × (modulus k ≤ a * b))
  Computed action_divide a b (v, r) =
      ((r ≡ ok tt) × (v * b ≤ a) × (a < b * (v + 1))) ⊎ ((r ≡ err einval) × (b ≡ 0) × (v ≡ a))
  Computed action_increment a b (v, r) = ⊥
  Computed action_decrement a b (v, r) = ⊥

  add_lem :
      (a b : ℕ)
      → a < modulus k
      → b < modulus k
      → Computed action_add a b (uint_arith k action_add a (some b))
  unfolding uint_arith
  add_lem a b ha hb = elim (Bool-cases (ltb (type_max k - a) b)) [
    | inl over ↦
        let gt : type_max k - a < b = ltb→lt _ _ over in
        let w : (a + b) % modulus k ≡ a + b - modulus k =
          mod-eq-sub-mod {n = a + b} {m = modulus k} (omega (arith, ha))
          ∙ mod-eq_of_lt (omega (arith, ha, hb)) in
        inr (rw over, omega (arith, w, ha, gt))
    | inr fits ↦
        let le : b ≤ type_max k - a = ltb→le _ _ fits in
        inl (rw fits, mod-eq_of_lt (omega (arith, ha, le)), omega (arith, ha, le))
  ]

  sub_lem :
      (a b : ℕ)
      → a < modulus k
      → b < modulus k
      → Computed action_sub a b (uint_arith k action_sub a (some b))
  unfolding uint_arith
  sub_lem a b ha hb = elim (Bool-cases (ltb a (0 + b))) [
    | inl over ↦
        let lt : a < 0 + b = ltb→lt _ _ over in
        let w : (a + modulus k - b) % modulus k ≡ a + modulus k - b =
          mod-eq_of_lt (omega (arith, lt)) in
        inr (rw over, omega (arith, w, hb), omega (arith, lt))
    | inr fits ↦
        let le : 0 + b ≤ a = ltb→le _ _ fits in
        let w : (a + modulus k - b) % modulus k ≡ a - b =
          mod-eq-sub-mod {n = a + modulus k - b} {m = modulus k} (omega (arith, le))
          ∙ mod-eq_of_lt (omega (arith, ha, le))
          ∙ omega (arith, le) in
        inl (rw fits, omega (arith, w, le))
  ]

  multiply_lem :
      (a b : ℕ)
      → a < modulus k
      → b < modulus k
      → Computed action_multiply a b (uint_arith k action_multiply a (some b))
  unfolding uint_arith
  multiply_lem a b ha hb = elim (Bool-cases (b == 0)) [
    | inl by_zero ↦
        let z : b ≡ 0 = ground arith in
        rw by_zero (inl (refl, rw z (omega arith), rw z (omega (arith, modulus_pos))))
    | inr nonzero ↦
        let pos : 0 < b = ground arith in
        elim (Bool-cases (ltb (type_max k / b) a)) [
          | inl over ↦
              let gt : type_max k < a * b =
                (div-lt_iff_lt-mul {k = b} {x = type_max k} {y = a} pos).0 (ltb→lt _ _ over) in
              rw (nonzero, over) (inr (refl, refl, omega (arith, gt)))
          | inr fits ↦
              let le : a * b ≤ type_max k =
                (le-div_iff_mul-le {k = b} {x = a} {y = type_max k} pos).0 (ltb→le _ _ fits) in
              let lt : a * b < modulus k = omega (arith, le, modulus_pos) in
              rw (nonzero, fits) (inl (refl, mod-eq_of_lt lt, lt))
        ]
  ]

  divide_lem :
      (a b : ℕ)
      → a < modulus k
      → b < modulus k
      → Computed action_divide a b (uint_arith k action_divide a (some b))
  unfolding uint_arith
  divide_lem a b ha hb = elim (Bool-cases (b == 0)) [
    | inl by_zero ↦ let z : b ≡ 0 = ground arith in rw by_zero (inr (refl, z, refl))
    | inr nonzero ↦
        let pos : 0 < b = ground arith in
        rw nonzero (inl (refl, div-mul-le_self a b, lt-mul-div-succ a pos))
  ]

  -- On two words of the type, each of the four operations stores and returns what it should: the exact
  -- result where it fits the type; else EOVERFLOW, with the result reduced by the size of the type
  -- stored all the same; and EINVAL for a division by zero, which stores nothing.
  pub uint_arith-Computed :
      (action : Action) (a b : ℕ)
      → (action ≡ action_add)
        ⊎ (action ≡ action_sub)
        ⊎ (action ≡ action_multiply)
        ⊎ (action ≡ action_divide)
      → a < modulus k
      → b < modulus k
      → Computed action a b (uint_arith k action a (some b))
  uint_arith-Computed action a b which ha hb = elim which [
    | inl e ↦ rw e (add_lem a b ha hb)
    | inr (inl e) ↦ rw e (sub_lem a b ha hb)
    | inr (inr (inl e)) ↦ rw e (multiply_lem a b ha hb)
    | inr (inr (inr e)) ↦ rw e (divide_lem a b ha hb)
  ]

-- The increment and the decrement store and return what the addition and the subtraction of 1 do.
pub uint_arith_no_arg-one :
    (k a : ℕ)
    → (uint_arith_no_arg k action_increment a ≡ uint_arith k action_add a (some 1))
      × (uint_arith_no_arg k action_decrement a ≡ uint_arith k action_sub a (some 1))
unfolding uint_arith_no_arg uint_arith
uint_arith_no_arg-one k a = (refl, refl)

-- What a comparison returns: 0, 1 or 2.
abbrev pub Compared : ℕ → ℕ → Result ℕ → Type 0
Compared a b r = ((r ≡ ok 0) × (a ≡ b)) ⊎ ((r ≡ ok 1) × (a < b)) ⊎ ((r ≡ ok 2) × (b < a))

-- A comparison returns 0 for equal words, 1 if the first is smaller and 2 if it is greater, and the
-- comparison the other way round agrees with it.
pub uint_compare-Compared :
    (k a b : ℕ)
    → Compared a b (uint_compare k a (some b)) × Compared b a (uint_compare k b (some a))
unfolding uint_compare
uint_compare-Compared k a b = (one a b, one b a)
  where
    one : (a b : ℕ) → Compared a b (uint_compare k a (some b))
    one a b = elim (Bool-cases (a == b)) [
      | inl same ↦ inl (rw same, ground arith)
      | inr differ ↦ elim (Bool-cases (ltb a b)) [
        | inl less ↦ inr (inl (rw (differ, less), ltb→lt _ _ less))
        | inr more ↦ inr (inr (rw (differ, more), ground arith))
      ]
    ]
