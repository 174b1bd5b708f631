-- ===== src/Prelude/Results.antt =====
-- Rust's `Result`, its `?`, and the equations that a success determines.
use mathlib.Core.Path.{◌≡◌, refl}
use mathlib.Core.Logic.{◌⊎◌, inl, inr}
use mathlib.Core.Option.{Option, none, some}

pub data Result {ℓ} (E A : Type ℓ) : Type ℓ where
  ok : A → Result E A
  err : E → Result E A

abbrev pub and_then {ℓ} : {E A B : Type ℓ} → Result E A → (A → Result E B) → Result E B
and_then (err e) next = err e
and_then (ok a) next = next a

pub Result-cases :
    {E A : Type 0} (r : Result E A) → ((e : E) × (r ≡ err e)) ⊎ ((a : A) × (r ≡ ok a))
Result-cases (err e) = inl (e, refl)
Result-cases (ok a) = inr (a, refl)

module _ {E A B : Type 0} where
  pub and_then-ok :
      (r : Result E A) (next : A → Result E B) (b : B)
      → and_then r next ≡ ok b
      → (a : A) × (r ≡ ok a) × (next a ≡ ok b)
  and_then-ok (err e) next b h = absurd cc
  and_then-ok (ok a) next b h = (a, refl, h)

pub ok_value : {E A : Type 0} (a b : A) (r : Result E A) → r ≡ ok a → r ≡ ok b → a ≡ b
ok_value a b r h k = cc

-- `?` on an option.
abbrev pub option_then {ℓ} : {A B : Type ℓ} → Option A → (A → Option B) → Option B
option_then none next = none
option_then (some a) next = next a

pub option_then-some :
    {A B : Type 0} (o : Option A) (next : A → Option B) (b : B)
    → option_then o next ≡ some b
    → (a : A) × (o ≡ some a) × (next a ≡ some b)
option_then-some none next b h = absurd cc
option_then-some (some a) next b h = (a, refl, h)
