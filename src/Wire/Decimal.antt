-- ===== src/Wire/Decimal.antt =====
-- `str(n)` and `int(text)` for numbers that are not negative.
use cursus.Prelude.{
  ap, ◌∙◌, ℕ, zero, suc, ◌+◌, ◌-◌, ◌*◌, ◌/◌, ◌%◌, ◌≤◌, ◌<◌, ◌≡◌, refl, Bool, true, false, not, ◌&&◌,
  [], ◌∷◌, arith, leb, ◌==◌, length, if◌then◌else◌, Bool-cases, inl, inr,
}
use cursus.Wire.Outcome.{Result, ok}
use cursus.Wire.Struct.{Text}

-- The digits of a number in front of others. A digit is taken off in each round, so a number above
-- the first argument is not reached.
decimal_loop : ℕ → ℕ → Text → Text
decimal_loop zero n digits = digits
decimal_loop (suc fuel) n digits =
    let shown = (b'0' + n % 10) ∷ digits in
    let rest = decimal_loop fuel (n / 10) shown in if n / 10 == 0 then shown else rest

-- `str(n)`
unfoldable pub decimal : ℕ → Text
unfolding decimal_loop
decimal n = decimal_loop (suc n) n []

is_digits : Text → Bool
is_digits [] = true
is_digits (c ∷ cs) = leb b'0' c && (leb c b'9' && is_digits cs)

digits_value : ℕ → Text → ℕ
digits_value v [] = v
digits_value v (c ∷ cs) = digits_value (v * 10 + (c - b'0')) cs

-- `int(text)`. What Python makes of a text that is not a row of digits, such as one with a sign or
-- with spaces, is the first argument.
unfoldable pub int_of_text : (Text → Result ℕ) → Text → Result ℕ
unfolding is_digits digits_value
int_of_text other_int text =
    if is_digits text && not (length text == 0) then ok (digits_value 0 text) else other_int text

digits_value-decimal_loop :
    (fuel n : ℕ) (digits : Text)
    → n < fuel
    → digits_value 0 (decimal_loop fuel n digits) ≡ digits_value n digits
unfolding digits_value decimal_loop
digits_value-decimal_loop zero n digits h = absurd (omega arith)
digits_value-decimal_loop (suc fuel) n digits h = elim (Bool-cases (n / 10 == 0)) [
  | inl last ↦
      let e : 0 * 10 + (48 + n % 10 - 48) ≡ n = ground arith in
      rw last (ap (λ (v : ℕ). digits_value v digits) e)
  | inr more ↦
      let e : n / 10 * 10 + (48 + n % 10 - 48) ≡ n = omega arith in
      rw more (
        digits_value-decimal_loop fuel (n / 10) ((48 + n % 10) ∷ digits) (ground arith)
        ∙ ap (λ (v : ℕ). digits_value v digits) e)
]

decimal_loop-digits :
    (fuel n : ℕ) (digits : Text)
    → is_digits digits ≡ true
    → is_digits (decimal_loop fuel n digits) ≡ true
unfolding is_digits decimal_loop
decimal_loop-digits zero n digits h = h
decimal_loop-digits (suc fuel) n digits h =
    ground (arith, decimal_loop-digits fuel (n / 10) ((48 + n % 10) ∷ digits))

length-decimal_loop :
    (fuel n : ℕ) (digits : Text) → length digits ≤ length (decimal_loop fuel n digits)
unfolding decimal_loop
length-decimal_loop zero n digits = omega arith
length-decimal_loop (suc fuel) n digits =
    ground (arith, length-decimal_loop fuel (n / 10) ((48 + n % 10) ∷ digits))

decimal_loop_shows : (fuel n : ℕ) → 0 < length (decimal_loop (suc fuel) n [])
unfolding decimal_loop
decimal_loop_shows fuel n = ground (arith, length-decimal_loop fuel (n / 10) ((48 + n % 10) ∷ []))

-- A printed number is read as itself.
pub int_of_text-decimal :
    (other_int : Text → Result ℕ) (n : ℕ) → int_of_text other_int (decimal n) ≡ ok n
unfolding int_of_text decimal digits_value
int_of_text-decimal other_int n =
    let shows : (length (decimal_loop (suc n) n []) == 0) ≡ false =
      ground (arith, decimal_loop_shows n n) in
    rw (
      decimal_loop-digits (suc n) n [] refl,
      shows,
      digits_value-decimal_loop (suc n) n [] (omega arith),
    )

-- It is not empty.
pub decimal_shows : (n : ℕ) → (c : ℕ) × (rest : Text) × (decimal n ≡ c ∷ rest)
unfolding decimal
decimal_shows n = nonempty (decimal_loop (suc n) n []) (decimal_loop_shows n n)
  where
    nonempty : (t : Text) → 0 < length t → (c : ℕ) × (rest : Text) × (t ≡ c ∷ rest)
    nonempty [] h = absurd (omega arith)
    nonempty (c ∷ rest) h = (c, rest, refl)
