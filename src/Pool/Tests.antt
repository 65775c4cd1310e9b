-- ===== src/Pool/Tests.antt =====
-- Groups of three backends.
use frozen.Base.{
  ℕ, ◌≡◌, ◌≢◌, refl, Bool, true, false, Option, none, some, List, [], ◌∷◌, arith, ◌≤◌, ◌<◌, map,
  err, ebadf,
}
use frozen.Pool.{
  Member, Rule, method_first, method_random, action_destroy, Parameter, parameter_one,
  parameter_ticks, pool_group_limit, repeat_limit, count_tick, pool_backend_request_died,
}
use frozen.Pool.Scan.{total}
use frozen.Pool.Limit.{AllSingle, Limited, pool_group_limit-Limited}
use frozen.Pool.Ticks.{repeat_limit-diverges}

abbrev backend : Parameter → ℕ → ℕ → Member
backend parameter created usage = record {
  created_on = created;
  usage_parameter = usage;
  usage_ticks_last = usage;
  usage_ticks_curr = 0;
  usage_ticks_time = 0;
  tick_interval = 5;
  parameter = parameter;
  forked = true;
  died = false;
  childs = 4 ∷ 5 ∷ [];
  killed = [];
}

abbrev three_single : List Member
three_single =
    backend parameter_one 30 1 ∷ backend parameter_one 10 1 ∷ backend parameter_one 20 1 ∷ []

abbrev dead : Member → Member
dead m = record m { died = true }

abbrev two_ticking : List Member
two_ticking = dead (backend parameter_ticks 30 7) ∷ dead (backend parameter_ticks 10 0) ∷ []

abbrev keep_one : Rule
keep_one = record {
  limit = 2;
  mode = method_first;
  action = action_destroy;
  action_request = λ m. m;
}

abbrev no_request : Member → ℕ
no_request m = 0

abbrev died_of : Option (List Member) → List Bool
died_of none = []
died_of (some members) = map (λ m. m.died) members

test_first :
    died_of (pool_group_limit no_request (λ n. n) keep_one 4 three_single)
    ≡ false ∷ true ∷ true ∷ []
unfolding pool_group_limit
test_first = refl

test_tick : (count_tick 9 (backend parameter_ticks 0 3)).usage_ticks_last ≡ 0
unfolding count_tick
test_tick = refl

test_died : pool_backend_request_died (backend parameter_one 0 0) ≡ err ebadf
unfolding pool_backend_request_died
test_died = refl

not_random : method_first ≢ method_random
not_random e = absurd (cc e)

all_single : AllSingle three_single
all_single = ((refl, refl), ((refl, refl), ((refl, refl), tt)))

ticks_over : 2 ≤ total 0 two_ticking
unfolding total
ticks_over = omega arith

some_ticks : 0 < total 0 two_ticking
unfolding total
some_ticks = omega arith

pool_group_limit-Limited_example :
    Limited no_request
      (λ n. n)
      keep_one
      not_random
      three_single
      (pool_group_limit no_request (λ n. n) keep_one 4 three_single)
pool_group_limit-Limited_example =
    pool_group_limit-Limited no_request (λ n. n) keep_one not_random three_single refl all_single
      (omega arith)

repeat_limit-diverges_example : repeat_limit no_request (λ n. n) keep_one 100 two_ticking ≡ none
repeat_limit-diverges_example =
    repeat_limit-diverges no_request (λ n. n) keep_one not_random refl 100 two_ticking
      ((refl, refl, refl), ((refl, refl, refl), tt)) ticks_over some_ticks
