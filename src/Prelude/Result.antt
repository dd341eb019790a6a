-- ===== src/Prelude/Result.antt =====
-- Go's `(value, error)`: a value or an error, and the chain `if err != nil { return err }`.
use mathlib.Core.Path.{◌≡◌, refl, ap}
use mathlib.Core.Logic.{◌⊎◌, inl, inr}

pub data Result {ℓ} (X V : Type ℓ) : Type ℓ where
  err : X → Result X V
  ok : V → Result X V

pub Result-cases :
    {X V : Type 0} (r : Result X V) → ((v : V) × (r ≡ ok v)) ⊎ ((x : X) × (r ≡ err x))
Result-cases (ok v) = inl (v, refl)
Result-cases (err x) = inr (x, refl)

infixl 5 ◌>>=◌
abbrev pub ◌>>=◌ {ℓ} : {X V W : Type ℓ} → Result X V → (V → Result X W) → Result X W
err x >>= next = err x
ok v >>= next = next v

-- A chain that succeeds has succeeded at its first call.
pub >>=-eq-ok {ℓ} :
    {X V W : Type ℓ} (r : Result X V) (next : V → Result X W) {w : W}
    → (r >>= next) ≡ ok w
    → (v : V) × (r ≡ ok v) × (next v ≡ ok w)
>>=-eq-ok (err x) next h = cc
>>=-eq-ok (ok v) next h = (v, refl, h)

pub ok_inj : {X V : Type 0} {a b : V} → ◌≡◌ {A = Result X V} (ok a) (ok b) → a ≡ b
ok_inj {a = a} e = ap (λ r. elim r [ err _ ↦ a | ok v ↦ v ]) e

pub err_inj : {X V : Type 0} {a b : X} → ◌≡◌ {A = Result X V} (err a) (err b) → a ≡ b
err_inj {a = a} e = ap (λ r. elim r [ err x ↦ x | ok _ ↦ a ]) e
