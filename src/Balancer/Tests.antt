-- ===== src/Balancer/Tests.antt =====
-- A pool of three backends and a freed cell.
use frozen.Base.{ℕ, ◌≡◌, refl, List, [], ◌∷◌, arith, Result, ok, err, eexist}
use frozen.ItemList.{Cell, list_end, free_item, item, of_cells}
use frozen.Balancer.{Balancer, mode_counting, mode_random, balancer_request_rest}
use frozen.Balancer.Rounds.{in_turn, counted, balancer_request_rest-in_turn}

abbrev three_cells : List Cell
three_cells = item 7 ∷ free_item ∷ item 8 ∷ item 9 ∷ list_end ∷ []

abbrev accepts : ℕ → Result ℕ
accepts child = ok 0

abbrev counting : Balancer
counting = record { mode = mode_counting; counter = 4; clone = 3; pool = of_cells three_cells }

test_random :
    (balancer_request_rest (λ n. 11) accepts (record counting { mode = mode_random; clone = 1 })).0
    ≡ 9 ∷ []
unfolding balancer_request_rest frozen.ItemList.list_count frozen.ItemList.list_flatten
test_random = refl

balancer_request_rest-in_turn_example :
    balancer_request_rest (λ n. n) accepts counting
    ≡ (in_turn (7 ∷ 8 ∷ 9 ∷ []) 4 3, counted counting, err eexist)
balancer_request_rest-in_turn_example =
    balancer_request_rest-in_turn (λ n. n) accepts (λ child. 0) (λ child. refl) three_cells 4 3 tt
      (omega arith) (omega arith) (omega arith)
