-- ===== src/SafeMath/Tests.antt =====
-- The checked arithmetic on small numbers.
use frozen.Base.{◌≡◌, refl, ok, err, einval}
use frozen.SafeMath.{safe_pow, safe_div}

test_pow : safe_pow 3 4 ≡ ok 81
unfolding safe_pow
test_pow = refl

test_pow_full : safe_pow 2 64 ≡ err einval
unfolding safe_pow
test_pow_full = refl

test_div : safe_div 9 0 ≡ err einval
unfolding safe_div
test_div = refl
