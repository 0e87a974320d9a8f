-- ===== src/Wire/Outcome.antt =====
-- A computation that returns, or raises one of the exceptions the code can meet.
use cursus.Prelude.{ℕ, ◌≡◌, refl, ◌⊎◌, inl, inr}

pub data Error : Type 0 where
  index_error struct_error value_error key_error unicode_encode_error overflow_error os_error :
      Error
  type_error runtime_error attribute_error timeout_expired called_process_error : Error
  -- The exceptions of Python that `except Exception` does not catch.
  keyboard_interrupt system_exit generator_exit : Error
  -- Any other exception, of a library that the program calls.
  other_error : ℕ → Error
  -- No exception: a loop of the model met the end of its fuel.
  out_of_fuel : Error

pub data Result {ℓ} (A : Type ℓ) : Type ℓ where
  ok : A → Result A
  raised : Error → Result A

infixl 5 ◌>>=◌
abbrev pub ◌>>=◌ {ℓ κ} : {A : Type ℓ} {B : Type κ} → Result A → (A → Result B) → Result B
ok a >>= f = f a
raised e >>= f = raised e

pub Result-cases {ℓ} :
    {A : Type ℓ} (r : Result A) → ((a : A) × (r ≡ ok a)) ⊎ ((e : Error) × (r ≡ raised e))
Result-cases (ok a) = inl (a, refl)
Result-cases (raised e) = inr (e, refl)
