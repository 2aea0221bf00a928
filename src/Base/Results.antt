-- ===== src/Base/Results.antt =====
-- `Result`, and the errors of `std::io`.
use mathlib.Core.Path.{◌≡◌, refl}
use mathlib.Core.Logic.{◌⊎◌, inl, inr}

pub data Result {ℓ κ} (E : Type ℓ) (A : Type κ) : Type (ℓ ⊔ κ) where
  ok : A → Result E A
  err : E → Result E A

pub Result-cases {ℓ κ} :
    {E : Type ℓ} {A : Type κ} (r : Result E A) → ((a : A) × (r ≡ ok a)) ⊎ ((e : E) × (r ≡ err e))
Result-cases (ok a) = inl (a, refl)
Result-cases (err e) = inr (e, refl)

-- The kinds of `io::ErrorKind` that the program names; `other_kind` stands for the rest, which the
-- operating system reports.
pub data ErrorKind : Type 0 where
  invalid_input invalid_data out_of_memory unsupported other_kind : ErrorKind

abbrev pub Io : Type 0 → Type 0
Io A = Result ErrorKind A
