-- ===== src/Base/Runs.antt =====
-- Runs of Rust code that can panic, and of loops on fuel.
use mathlib.Core.Option.{Option, none, some}

-- `out_of_fuel` is a loop that has not ended within its rounds; no run of the program means it.
pub data Run {ℓ} (A : Type ℓ) : Type ℓ where
  done : A → Run A
  panicked : Run A
  out_of_fuel : Run A

infixl 5 ◌>>=◌
abbrev pub ◌>>=◌ {ℓ κ} : {A : Type ℓ} {B : Type κ} → Run A → (A → Run B) → Run B
done a >>= f = f a
panicked >>= f = panicked
out_of_fuel >>= f = out_of_fuel

-- What `unwrap` and an index do: a missing value panics.
abbrev pub unwrap {ℓ} : {A : Type ℓ} → Option A → Run A
unwrap none = panicked
unwrap (some a) = done a

-- The run ends normally, with a result that satisfies `P`.
abbrev pub Returns {ℓ} : {A : Type ℓ} → Run A → (A → Type 0) → Type 0
Returns (done a) P = P a
Returns panicked P = ⊥
Returns out_of_fuel P = ⊥
