-- ===== src/Gullet/Result.antt =====
-- utils/errors.rs: results of the gullet's functions. Errors are thrown, as the error handler
-- `ErrorThrower` does; a panic and the end of the fuel are `panic`.
use rus_te_x.Prelude.{ℕ, Option, none, some, ◌≡◌, refl}

-- the variants of `TeXError` that the functions throw; the texts are left out
pub data TeXError : Type 0 where
  invalid_character : ℕ → TeXError
  paragraph_ended wrong_definition file_ended_while_scanning_use_of : TeXError
  missing_number incomplete_conditional undefined too_many_closebraces : TeXError
  -- `TeXError::General`
  general : TeXError

pub data Result {ℓ} (A : Type ℓ) : Type ℓ where
  ok : A → Result A
  err : TeXError → Result A
  panic : Result A

module _ {ℓ κ} {A : Type ℓ} {B : Type κ} where
  infixl 5 ◌>>=◌
  abbrev pub ◌>>=◌ : Result A → (A → Result B) → Result B
  panic >>= next = panic
  err thrown >>= next = err thrown
  ok value >>= next = next value

  -- Where a sequence succeeds, so do its parts.
  pub >>=-ok :
      (first : Result A) (next : A → Result B) {b : B}
      → (first >>= next) ≡ ok b
      → (value : A) × (next value ≡ ok b) × (first ≡ ok value)
  >>=-ok panic next h = cc
  >>=-ok (err thrown) next h = cc
  >>=-ok (ok value) next h = (value, h, refl)

-- an operation that may panic and throws nothing
abbrev pub lift {ℓ} : {A : Type ℓ} → Option A → Result A
lift none = panic
lift (some a) = ok a

pub ok-injective {ℓ} : {A : Type ℓ} {a b : A} → ok a ≡ ok b → a ≡ b
ok-injective h = cc
