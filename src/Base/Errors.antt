-- ===== src/Base/Errors.antt =====
-- Calls that can throw, with the standard exceptions that the sources throw.
use mathlib.Core.Path.{◌≡◌, refl, subst}
use mathlib.Core.Bool.{Bool, true, false}

-- `undefined` marks a call that the C++ leaves undefined, such as a dereference of `end()`.
pub data Error : Type 0 where
  invalid_argument overflow_error runtime_error logic_error undefined : Error

-- What a call ends with: its value, or the exception that left it.
pub data Result {ℓ} (V : Type ℓ) : Type ℓ where
  err : Error → Result V
  ok : V → Result V

-- `if (bad) throw e;`
abbrev pub throw_if : Bool → Error → Result (Unit {0})
throw_if true e = err e
throw_if false e = ok tt

module _ {ℓ κ} {V : Type ℓ} {W : Type κ} where
  infixl 5 ◌>>=◌
  abbrev pub ◌>>=◌ : Result V → (V → Result W) → Result W
  err thrown >>= next = err thrown
  ok v >>= next = next v

  pub >>=-eq-ok :
      (call : Result V) (next : V → Result W) {w : W}
      → (call >>= next) ≡ ok w
      → (v : V) × (call ≡ ok v) × (next v ≡ ok w)
  >>=-eq-ok (err thrown) next h = cc
  >>=-eq-ok (ok v) next h = (v, refl, h)

infixl 5 ◌>>◌
abbrev pub ◌>>◌ {κ} : {W : Type κ} → Result (Unit {0}) → Result W → Result W
check >> next = check >>= λ _. next

ok-injective {ℓ} : {V : Type ℓ} (v w : V) → ok v ≡ ok w → v ≡ w
ok-injective v w h = cc

-- What holds of the value that a call returned holds of the value that it is equal to.
pub ok-subst {ℓ κ} : {V : Type ℓ} (P : V → Type κ) {v w : V} → ok v ≡ ok w → P v → P w
ok-subst P h p = subst P (ok-injective _ _ h) p
