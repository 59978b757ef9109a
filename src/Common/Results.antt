-- ===== src/Common/Results.antt =====
-- A call that may raise. `ValueError("code")` is `err` of the code.
use mathlib.Core.Path.{◌≡◌, refl}
use mathlib.Core.Bool.{Bool, true, false}

pub data Result {ℓ κ} (E : Type ℓ) (A : Type κ) : Type (ℓ ⊔ κ) where
  err : E → Result E A
  ok : A → Result E A

module _ {ℓ} {E : Type ℓ} where
  -- a test that raises unless it holds, as `if not p: raise e`
  abbrev pub guard : Bool → E → Result E (Unit {0})
  guard false raised = err raised
  guard true raised = ok tt

  module _ {κ} {B : Type κ} where
    module _ {ι} {A : Type ι} where
      infixl 5 ◌>>=◌
      -- what follows a call, which is skipped where the call raised
      abbrev pub ◌>>=◌ : Result E A → (A → Result E B) → Result E B
      err raised >>= rest = err raised
      ok answer >>= rest = rest answer

      pub >>=-eq-ok :
          (call : Result E A) (rest : A → Result E B) {final : B}
          → (call >>= rest) ≡ ok final
          → (answer : A) × (call ≡ ok answer) × (rest answer ≡ ok final)
      >>=-eq-ok (err raised) rest h = cc
      >>=-eq-ok (ok answer) rest h = (answer, refl, h)

    infixl 5 ◌>>◌
    abbrev pub ◌>>◌ : Result E (Unit {0}) → Result E B → Result E B
    check >> rest = check >>= λ _. rest

    pub ok-injective : {x y : B} → ◌≡◌ {A = Result E B} (ok x) (ok y) → x ≡ y
    ok-injective h = cc
