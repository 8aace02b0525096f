-- ===== src/Base/Result.antt =====
-- A Go result with an error: the value, or the error that is not nil.
use mathlib.Core.Path.{◌≡◌, ap}

pub data Result {ℓ κ} (E : Type ℓ) (A : Type κ) : Type (ℓ ⊔ κ) where
  ok : A → Result E A
  err : E → Result E A

pub ok_inj {ℓ κ} :
    {E : Type ℓ} → {A : Type κ} → (x y : A) → ◌≡◌ {A = Result E A} (ok x) (ok y) → x ≡ y
ok_inj x y h = ap (λ r. elim r [ ok z ↦ z | err e ↦ x ]) h
