-- ===== src/Base/Fallible.antt =====
-- errors.rs: the errors of the control plane, and `Result` with the `?` of its callers. The payloads
-- that no caller reads (the driver's error and the validation report) are left out.
use mathlib.Core.Path.{◌≡◌, refl}
use mathlib.Core.Logic.{◌⊎◌, inl, inr}
use mathlib.Core.Bool.{Bool, true, false}
use qarax.Base.Order.{Text}

pub data Error : Type 0 where
  sqlx : Error
  invalid_entity : Error
  unprocessable_entity : Text → Error
  conflict : Text → Error
  internal_server_error : Error
  not_found : Error
  unauthorized : Error

pub data Result {ℓ} (A : Type ℓ) : Type ℓ where
  err : Error → Result A
  ok : A → Result A

-- `if !test { return Err(error) }`
abbrev pub guard : Bool → Error → Result (Unit {0})
guard false error = err error
guard true error = ok tt

infixl 5 ◌>>=◌
infixl 5 ◌>>◌
-- `?`, whose continuation does not run after an error
abbrev pub ◌>>=◌ {ℓ κ} : {A : Type ℓ} {B : Type κ} (r : Result A) (next : A → Result B) → Result B
err error >>= next = err error
ok value >>= next = next value

abbrev pub ◌>>◌ {κ} : {B : Type κ} (r : Result (Unit {0})) (next : Result B) → Result B
r >> next = r >>= λ ignored. next

pub Result-cases {ℓ} :
    {A : Type ℓ} (r : Result A) → ((a : A) × (r ≡ ok a)) ⊎ ((e : Error) × (r ≡ err e))
Result-cases (ok a) = inl (a, refl)
Result-cases (err e) = inr (e, refl)

-- The value that a chain which ended well passed on.
pub >>=-eq_ok {κ ℓ} :
    {B : Type κ} {A : Type ℓ} (r : Result A) (next : A → Result B) {b : B} (h : (r >>= next) ≡ ok b)
    → (a : A) × (r ≡ ok a) × (next a ≡ ok b)
>>=-eq_ok (ok value) next h = (value, refl, h)
>>=-eq_ok (err error) next h = cc
