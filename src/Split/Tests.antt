-- ===== src/Split/Tests.antt =====
-- Inputs that are split with a small buffer, into a log of the slices.
use frozen.Base.{ℕ, ◌≡◌, refl, some, List, [], ◌∷◌, ◌++◌, uint_max, Result, ok, arith}
use frozen.Memory.{Bytes}
use frozen.Transfer.{data_default_read}
use frozen.Split.{split_handler}
use frozen.Split.Parts.{parts, pass_all}
use frozen.Split.Whole.{split_handler-parts}

abbrev Log : Type 0
Log = List (ℕ × ℕ)

abbrev logging : Log → ℕ → ℕ → Result ℕ × Log
logging log offset size = (ok 0, log ++ (offset, size) ∷ [])

abbrev lines : Bytes
lines = 65 ∷ 10 ∷ 66 ∷ 67 ∷ 10 ∷ 68 ∷ []

test_lines :
    split_handler (data_default_read (some lines)) logging (10 ∷ []) 4 20 []
    ≡ some (ok 0, (0, 2) ∷ (2, 3) ∷ (5, uint_max) ∷ [])
unfolding split_handler data_default_read
test_lines = refl

split_handler-parts_example :
    split_handler (data_default_read (some lines)) logging (10 ∷ []) 4 20 []
    ≡ some (pass_all logging (parts 10 0 0 lines) [])
split_handler-parts_example =
    split_handler-parts logging 10 4 20 lines [] (omega arith) (omega arith) (omega arith)

-- Two bytes end a line, and the buffer ends between them: the second line ends at 9, and not at 8.
abbrev long_ends : Bytes
long_ends = 65 ∷ 66 ∷ 67 ∷ 13 ∷ 10 ∷ 68 ∷ 69 ∷ 13 ∷ 10 ∷ 70 ∷ []

test_long_ends :
    split_handler (data_default_read (some long_ends)) logging (13 ∷ 10 ∷ []) 4 20 []
    ≡ some (ok 0, (0, 5) ∷ (5, 3) ∷ (8, uint_max) ∷ [])
unfolding split_handler data_default_read
test_long_ends = refl

test_long_ends_whole :
    split_handler (data_default_read (some long_ends)) logging (13 ∷ 10 ∷ []) 40 20 []
    ≡ some (ok 0, (0, 5) ∷ (5, 4) ∷ (9, uint_max) ∷ [])
unfolding split_handler data_default_read
test_long_ends_whole = refl
