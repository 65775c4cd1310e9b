-- ===== src/Base/Results.antt =====
-- The negative return values of the C functions, and results that carry one.
-- The errno values that the modelled code returns (negated), -1 (`eof`), which stands for the end of
-- the data where a reader or a writer returns it, and the number of a message that `error` prints
-- (`logged`).
pub data Errno : Type 0 where
  einval enosys efault enomem enospc ebadf eexist eoverflow enoent eof logged : Errno

-- What a call comes to: a result, a negative errno, or `fault` for what C leaves undefined and stops
-- the process (a division by zero, a read through NULL).
pub data Result {ℓ} (A : Type ℓ) : Type ℓ where
  ok : A → Result A
  err : Errno → Result A
  fault : Result A

infixl 5 ◌>>=◌ ◌>>◌
abbrev pub ◌>>=◌ {ℓ κ} : {A : Type ℓ} {B : Type κ} → Result A → (A → Result B) → Result B
ok a >>= f = f a
err e >>= f = err e
fault >>= f = fault

abbrev pub ◌>>◌ {ℓ} : {B : Type ℓ} → Result (Unit {0}) → Result B → Result B
m >> k = m >>= λ _. k
