-- ===== src/Base/Results.antt =====
-- Go's `(value, error)` results: the error is a value of the component's own type.
use mathlib.Core.Path.{◌≡◌, refl}
use mathlib.Core.Logic.{◌⊎◌, inl, inr}
use native.Mathlib.Omega.{arith}

pub data Result {ℓ κ} (E : Type ℓ) (A : Type κ) : Type (ℓ ⊔ κ) where
  ok : A → Result E A
  err : E → Result E A

infixl 5 ◌>>=◌
abbrev pub ◌>>=◌ {ℓ κ μ} :
    {E : Type ℓ} {A : Type κ} {B : Type μ} → Result E A → (A → Result E B) → Result E B
ok a >>= f = f a
err e >>= f = err e

pub Result-cases {ℓ κ} :
    {E : Type ℓ} {A : Type κ} (r : Result E A) → ((a : A) × (r ≡ ok a)) ⊎ ((e : E) × (r ≡ err e))
Result-cases (ok a) = inl (a, refl)
Result-cases (err e) = inr (e, refl)

-- What a bind with a result went through.
pub >>=-eq-ok {ℓ κ μ} :
    {Fault : Type ℓ} {Mid : Type κ} {End : Type μ} (start : Result Fault Mid)
    (next : Mid → Result Fault End) {final : End}
    → start >>= next ≡ ok final
    → (mid : Mid) × (start ≡ ok mid) × (next mid ≡ ok final)
>>=-eq-ok start next reached = elim (Result-cases start) [
  | inl (mid, first) ↦ (mid, first, rw first at reached)
  | inr (fault, first) ↦ absurd (ground (arith, reached, first))
]
