-- ===== src/Wire/Ints.antt =====
-- Fixed-width fields: their lengths, their bytes, and that unpacking undoes packing.
use native.Mathlib.Nat.{pow-suc}
use mathlib.Core.List.{foldl}
use cursus.Prelude.{
  ℕ, zero, suc, ◌+◌, ◌*◌, ◌/◌, ◌%◌, ◌^◌, ◌<◌, ◌≡◌, refl, [], ◌∷◌, ◌++◌, arith, length,
  length-append, All, All-append,
}
use cursus.Wire.Struct.{Bytes, IsByte, big_endian, little_endian, from_big, from_little, push_digit}

pub length-big_endian : (n v : ℕ) → length (big_endian n v) ≡ n
unfolding big_endian
length-big_endian zero v = refl
length-big_endian (suc n) v =
    omega
      (arith, length-append (big_endian n (v / 256)) (v % 256 ∷ []), length-big_endian n (v / 256))

pub length-little_endian : (n v : ℕ) → length (little_endian n v) ≡ n
unfolding little_endian
length-little_endian zero v = refl
length-little_endian (suc n) v = omega (arith, length-little_endian n (v / 256))

pub big_endian-IsByte : (n v : ℕ) → All IsByte (big_endian n v)
unfolding big_endian
big_endian-IsByte zero v = tt
big_endian-IsByte (suc n) v =
    All-append IsByte (big_endian n (v / 256)) (v % 256 ∷ []) (big_endian-IsByte n (v / 256))
      (omega arith, tt)

pub little_endian-IsByte : (n v : ℕ) → All IsByte (little_endian n v)
unfolding little_endian
little_endian-IsByte zero v = tt
little_endian-IsByte (suc n) v = (omega arith, little_endian-IsByte n (v / 256))

push_last :
    (acc : ℕ) (bs : Bytes) (b : ℕ)
    → foldl push_digit acc (bs ++ b ∷ []) ≡ foldl push_digit acc bs * 256 + b
push_last acc [] b = refl
push_last acc (x ∷ bs) b = push_last (push_digit acc x) bs b

-- `int.from_bytes` undoes the packing of a number that fits.
pub from_big-big_endian : (n v : ℕ) → v < 256 ^ n → from_big (big_endian n v) ≡ v
unfolding from_big big_endian
from_big-big_endian zero v h = omega arith
from_big-big_endian (suc n) v h = omega (
  arith,
  push_last 0 (big_endian n (v / 256)) (v % 256),
  from_big-big_endian n (v / 256) (omega (arith, pow-suc 256 n)),
)

pub from_little-little_endian : (n v : ℕ) → v < 256 ^ n → from_little (little_endian n v) ≡ v
unfolding from_little little_endian
from_little-little_endian zero v h = omega arith
from_little-little_endian (suc n) v h =
    omega (arith, from_little-little_endian n (v / 256) (omega (arith, pow-suc 256 n)))

pub from_little-lt : (bs : Bytes) → All IsByte bs → from_little bs < 256 ^ length bs
unfolding from_little
from_little-lt [] h = omega arith
from_little-lt (b ∷ bs) h = omega (arith, pow-suc 256 (length bs), from_little-lt bs h.1)
