-- ===== src/Balancer/Rounds.antt =====
-- The rounds of the counting mode.
use native.Mathlib.Nat.{mod-lt}
use frozen.Base.{
  ℕ, zero, suc, ◌+◌, ◌-◌, ◌%◌, ◌^◌, ◌<◌, ◌≡◌, refl, false, some, List, [], ◌∷◌, ◌==◌, arith, length,
  replicate, get_elem?, add64, Result, ok, err, eexist, ap, ◌∙◌, sym,
}
use frozen.ItemList.{Cell, of_cells, list_count, list_flatten}
use frozen.ItemList.View.{IsEnded, live}
use frozen.ItemList.Walk.{list_count-length, list_flatten-all}
use frozen.Balancer.{mode_counting, Balancer, clone_rounds, pick, redo, balancer_request_rest}

-- The backends in turn, from a counter on.
abbrev pub nth : List ℕ → ℕ → ℕ
nth [] i = 0
nth (x ∷ xs) zero = x
nth (x ∷ xs) (suc i) = nth xs i

abbrev pub in_turn : List ℕ → ℕ → ℕ → List ℕ
in_turn childs counter zero = []
in_turn childs counter (suc rounds) =
    nth childs (counter % length childs) ∷ in_turn childs (counter + 1) rounds

get_elem?-nth : (xs : List ℕ) (i : ℕ) → i < length xs → get_elem? xs i ≡ some (nth xs i)
get_elem?-nth [] i h = absurd (omega (arith, h))
get_elem?-nth (x ∷ xs) zero h = refl
get_elem?-nth (x ∷ xs) (suc i) h = get_elem?-nth xs i (omega (arith, h))

module _ (random : ℕ → ℕ) (backend_query : ℕ → Result ℕ) (answer : ℕ → ℕ)
    (answers : (child : ℕ) → backend_query child ≡ ok (answer child)) where
  redo-in_turn :
      (childs : List ℕ) (rounds counter : ℕ)
      → 0 < length childs
      → counter + rounds < 2 ^ 64
      → redo random backend_query mode_counting childs (length childs) rounds counter
        ≡ (in_turn childs counter rounds, counter + rounds, err eexist)
  unfolding redo pick
  redo-in_turn childs zero counter h small = let e : counter + 0 ≡ counter = omega arith in rw e
  redo-in_turn childs (suc rounds) counter h small =
      let at = get_elem?-nth childs (counter % length childs) (mod-lt counter h) in
      let next : add64 counter 1 ≡ counter + 1 = omega (arith, small) in
      let ih = redo-in_turn childs rounds (counter + 1) h (omega (arith, small)) in
      let e : counter + 1 + rounds ≡ counter + suc rounds = omega arith in
      rw (at, answers (nth childs (counter % length childs)), next, ih, e, redo)

-- The fields that the balancer leaves in the counting mode.
abbrev pub counted : Balancer → Balancer
counted b = record b { counter = b.counter + b.clone }

module _ (random : ℕ → ℕ) (backend_query : ℕ → Result ℕ) (answer : ℕ → ℕ)
    (answers : (child : ℕ) → backend_query child ≡ ok (answer child)) where
  rest-filled :
      (cells : List Cell) (counter clone n : ℕ)
      → IsEnded cells
      → length (live cells) ≡ suc n
      → 0 < clone
      → counter + clone < 2 ^ 64
      → let b : Balancer = record {
        mode = mode_counting;
        counter = counter;
        clone = clone;
        pool = of_cells cells;
      } in
        balancer_request_rest random backend_query b
        ≡ (in_turn (live cells) counter clone, counted b, err eexist)
  unfolding balancer_request_rest clone_rounds
  rest-filled cells counter clone n ended len pos small =
      let c : list_count (of_cells cells) ≡ some (suc n) =
        (list_count-length (of_cells cells) ended).0 ∙ ap some len in
      let f : list_flatten (of_cells cells) (replicate (suc n) 0) (suc n) ≡ some (live cells) =
        list_flatten-all (suc n) cells ended len in
      let r : redo random backend_query mode_counting (live cells) (suc n) clone counter
          ≡ (in_turn (live cells) counter clone, counter + clone, err eexist) =
        ap (λ l. redo random backend_query mode_counting (live cells) l clone counter) (sym len)
        ∙ redo-in_turn random backend_query answer answers (live cells) clone counter
            (omega (arith, len)) small in
      let z : (clone == 0) ≡ false = ground arith in rw (c, f, z, r, balancer_request_rest)

  -- In the counting mode, on a pool with an end and at least one backend, where no backend answers with
  -- an error, a request of `clone` copies goes to as many backends in turn, from the counter on and
  -- around the pool; the counter moves by `clone`, and EEXIST is returned. `clone` is not 0, and the
  -- counter does not wrap.
  pub balancer_request_rest-in_turn :
      (cells : List Cell) (counter clone : ℕ)
      → IsEnded cells
      → 0 < length (live cells)
      → 0 < clone
      → counter + clone < 2 ^ 64
      → let b : Balancer = record {
        mode = mode_counting;
        counter = counter;
        clone = clone;
        pool = of_cells cells;
      } in
        balancer_request_rest random backend_query b
        ≡ (in_turn (live cells) counter clone, counted b, err eexist)
  balancer_request_rest-in_turn cells counter clone ended some_child pos small =
      rest-filled cells counter clone (length (live cells) - 1) ended (omega (arith, some_child))
        pos small
