-- ===== src/Python/Errors.antt =====
-- Python's exceptions as values. `sys.exit` raises `SystemExit`, which `except Exception` lets pass.
use kuksa_val_feeders.Prelude.{Bool, true, false, inl, inr, refl, ◌≡◌, ◌⊎◌}

pub data Error : Type 0 where
  system_exit key_error type_error attribute_error value_error : Error
  zero_division_error stop_iteration assertion_error file_not_found_error index_error : Error
  -- raised by a library: a failed decoding, encoding or evaluation
  library_error : Error
  -- a mapping file outside the model (a property "signal" or a DDS topic that is no text)
  unsupported_signal : Error
  -- a text outside the model that int might read (spaces, a sign, underscores)
  unsupported_number : Error

pub data Result {ℓ} (A : Type ℓ) : Type ℓ where
  err : (raised : Error) → Result A
  ok : (returned : A) → Result A

-- What comes after a call is skipped where the call raises.
infixl 5 ◌>>=◌ ◌>>◌
abbrev pub ◌>>=◌ {ℓ κ} :
    {A : Type ℓ} {B : Type κ} → Result A → (then_call : A → Result B) → Result B
err raised >>= then_call = err raised
ok returned >>= then_call = then_call returned

abbrev pub ◌>>◌ {κ} : {B : Type κ} (first : Result (Unit {0})) (second : Result B) → Result B
first >> second = first >>= λ _. second

-- `except Exception` handles it
abbrev pub is_caught : Error → Bool
is_caught system_exit = false
is_caught _ = true

pub Result-cases {ℓ} :
    {A : Type ℓ} (r : Result A) → ((a : A) × (r ≡ ok a)) ⊎ ((e : Error) × (r ≡ err e))
Result-cases (ok a) = inl (a, refl)
Result-cases (err e) = inr (e, refl)
