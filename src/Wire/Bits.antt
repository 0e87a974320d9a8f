-- ===== src/Wire/Bits.antt =====
-- Masks and shifts as arithmetic.
use Prim.Native.Nat.{max, min, bit_and, bit_or, digits, bit_and-bitwise, bit_or-bitwise}
use Prim.Native.Nat.add
use native.Mathlib.Nat.{add-zero, add-suc, pow-suc, one-le-pow}
use cursus.Prelude.{
  ℕ, zero, suc, ◌+◌, ◌-◌, ◌*◌, ◌/◌, ◌%◌, ◌^◌, ◌≤◌, ◌<◌, ◌≡◌, refl, Bool, true, ◌&&◌, arith, ◌==◌,
  ==_iff, ap,
}

-- A test on every number below a bound, by evaluation.
holds_below : ℕ → (ℕ → Bool) → Bool
holds_below zero p = true
holds_below (suc n) p = p n && holds_below n p

holds_below_at : (n : ℕ) (p : ℕ → Bool) (x : ℕ) → holds_below n p ≡ true → x < n → p x ≡ true
unfolding holds_below
holds_below_at zero p x h lt = absurd (omega arith)
holds_below_at (suc n) p x h lt = ground (arith, holds_below_at n p x)

eq_below :
    (n : ℕ) (f g : ℕ → ℕ) → holds_below n (λ x. f x == g x) ≡ true → (x : ℕ) → x < n → f x ≡ g x
eq_below n f g h x lt = (==_iff (f x) (g x)).0 (holds_below_at n (λ x. f x == g x) x h lt)

pub low_three : (b : ℕ) → b < 256 → bit_and b 0x07 ≡ b % 8
unfolding holds_below
low_three = eq_below 256 _ _ refl

pub class_bit : (b : ℕ) → b < 256 → bit_and b 0x08 ≡ b / 8 % 2 * 8
unfolding holds_below
class_bit = eq_below 256 _ _ refl

pub high_four : (b : ℕ) → b < 256 → bit_and b 0xf0 ≡ b / 16 * 16
unfolding holds_below
high_four = eq_below 256 _ _ refl

pub top_bit_set : (b : ℕ) → b < 256 → bit_or b 0x80 ≡ b % 128 + 128
unfolding holds_below
top_bit_set = eq_below 256 _ _ refl

-- The native operations recur on the first number's digits with that number as fuel. Any fuel
-- from there on gives the same.
module _ (keep : ℕ → ℕ) (op : ℕ → ℕ → ℕ) where
  digits_extra : (n k a b : ℕ) → a ≤ n → digits keep op (n + k) a b ≡ digits keep op n a b
  digits_extra n zero a b h = rw add-zero
  digits_extra n (suc k) zero b h =
      rw add-suc (elim n as (λ n. keep b ≡ digits keep op n 0 b) [ zero ↦ refl | suc n ↦ refl ])
  digits_extra zero (suc k) (suc a) b h = absurd (omega arith)
  digits_extra (suc n) (suc k) (suc a) b h =
      rw (add.suc, digits_extra n (suc k) (suc a / 2) (b / 2) (omega arith))

  lowest_digit :
      (a b : ℕ)
      → digits keep op (suc a) (suc a) b
        ≡ digits keep op (suc a / 2) (suc a / 2) (b / 2) * 2 + op (suc a % 2) (b % 2)
  lowest_digit a b =
      let half : ℕ = suc a / 2 in
      let e : half + (a - half) ≡ a = omega arith in
      omega (arith, rw e at (digits_extra half (a - half) half (b / 2) (omega arith)))

or_digit : (a b : ℕ) → bit_or a b ≡ bit_or (a / 2) (b / 2) * 2 + max (a % 2) (b % 2)
or_digit zero b = omega (arith, bit_or-bitwise 0 b, bit_or-bitwise 0 (b / 2))
or_digit (suc a) b = omega (
  arith,
  lowest_digit (λ y. y) max a b,
  bit_or-bitwise (suc a) b,
  bit_or-bitwise (suc a / 2) (b / 2),
)

and_digit : (a b : ℕ) → bit_and a b ≡ bit_and (a / 2) (b / 2) * 2 + min (a % 2) (b % 2)
and_digit zero b = omega (arith, bit_and-bitwise 0 b, bit_and-bitwise 0 (b / 2))
and_digit (suc a) b = omega (
  arith,
  lowest_digit (λ y. 0) min a b,
  bit_and-bitwise (suc a) b,
  bit_and-bitwise (suc a / 2) (b / 2),
)

or_nothing : (n a : ℕ) → a ≤ n → bit_or a 0 ≡ a
or_nothing n zero h = refl
or_nothing zero (suc a) h = absurd (omega arith)
or_nothing (suc n) (suc a) h =
    omega (arith, or_digit (suc a) 0, or_nothing n (suc a / 2) (omega arith))

and_nothing : (n a : ℕ) → a ≤ n → bit_and a 0 ≡ 0
and_nothing n zero h = refl
and_nothing zero (suc a) h = absurd (omega arith)
and_nothing (suc n) (suc a) h =
    omega (arith, and_digit (suc a) 0, and_nothing n (suc a / 2) (omega arith))

shift_once : (k x : ℕ) → x * 2 ^ suc k ≡ 2 * (x * 2 ^ k)
shift_once k x = omega (arith, ap (λ (t : ℕ). x * t) (pow-suc 2 k))

-- `(x << k) | y` is a sum where `y` has at most `k` bits.
pub or_shifted : (k x y : ℕ) → y < 2 ^ k → bit_or (x * 2 ^ k) y ≡ x * 2 ^ k + y
or_shifted zero x y h = ground (arith, or_nothing x x)
or_shifted (suc k) x y h =
    ground (arith, or_digit (x * 2 ^ suc k) y, shift_once k x, or_shifted k x (y / 2) (omega arith))

and_split : (k q r : ℕ) → r < 2 ^ k → bit_and (q * 2 ^ k + r) (2 ^ k - 1) ≡ r
and_split zero q r h = ground (arith, and_nothing (q * 1 + r) (q * 1 + r))
and_split (suc k) q r h =
    let whole = q * 2 ^ suc k + r in
    ground (
      arith,
      and_digit whole (2 ^ suc k - 1),
      pow-suc 2 k,
      shift_once k q,
      and_split k q (r / 2) (omega arith),
    )

-- `a & (2 ** k - 1)` is a remainder.
pub and_ones : (k a : ℕ) → bit_and a (2 ^ k - 1) ≡ a % 2 ^ k
and_ones k a = ground (arith, one-le-pow k 2, and_split k (a / 2 ^ k) (a % 2 ^ k))
