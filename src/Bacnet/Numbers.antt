-- ===== src/Bacnet/Numbers.antt =====
-- `_encode_unsigned_value`: the bytes of a number, as few as hold it.
use Prim.Native.Nat.{max}
use native.Mathlib.Nat.{pow-suc, pow-le-pow_right}
use native.Mathlib.Numerals.{towards_suc}
use cursus.Prelude.{
  ℕ, zero, suc, ◌+◌, ◌-◌, ◌*◌, ◌/◌, ◌^◌, ◌≤◌, ◌<◌, ◌≡◌, refl, [], ◌∷◌, arith, length, All, ltb,
  ◌==◌, if◌then◌else◌, Bool-cases, inl, inr, lt→ltb,
}
use cursus.Wire.{ok, Bytes, IsByte, big_endian, from_big}
use cursus.Wire.Ints.{length-big_endian, big_endian-IsByte, from_big-big_endian}
use cursus.Bacnet.Encode.{binary_digits, bit_length, to_bytes, encode_unsigned_value}

binary_digits_above : (fuel v : ℕ) → v ≤ fuel → v < 2 ^ binary_digits fuel v
unfolding binary_digits
binary_digits_above zero v h = omega arith
binary_digits_above (suc fuel) v h =
    ground (arith, binary_digits_above fuel (v / 2), pow-suc 2 (binary_digits fuel (v / 2)))

binary_digits_below : (fuel v : ℕ) → 0 < v → 2 ^ binary_digits fuel v ≤ 2 * v
unfolding binary_digits
binary_digits_below zero v h = omega arith
binary_digits_below (suc zero) v h = ground arith
binary_digits_below (suc (suc fuel)) v h = elim (Bool-cases (ltb v 2)) [
  | inl one ↦ ground arith
  | inr more ↦ ground (
    arith,
    binary_digits_below (suc fuel) (v / 2) (ground arith),
    pow-suc 2 (binary_digits (suc fuel) (v / 2)),
  )
]

pow_256 : (k : ℕ) → 256 ^ k ≡ 2 ^ (8 * k)
pow_256 zero = refl
pow_256 (suc k) =
    let shifted : 2 ^ (8 * k + 8) ≡ 256 * 2 ^ (8 * k) = simp towards_suc (omega arith) in
    let bits : 8 * suc k ≡ 8 * k + 8 = omega arith in
    rw bits (omega (arith, shifted, pow_256 k, pow-suc 256 k))

-- The number of bytes that the code computes for a number other than 0.
abbrev byte_count : ℕ → ℕ
byte_count v = max 1 ((bit_length v + 7) / 8)

byte_count_fits : (v : ℕ) → v < 256 ^ byte_count v
unfolding bit_length
byte_count_fits v =
    let d = binary_digits v v in
    let wide : 2 ^ d ≤ 2 ^ (8 * byte_count v) = pow-le-pow_right (omega arith) (omega arith) in
    omega (arith, wide, binary_digits_above v v, pow_256 (byte_count v))

byte_count_least : (v : ℕ) → 0 < v → 256 ^ (byte_count v - 1) ≤ v
unfolding bit_length
byte_count_least v h =
    let d = binary_digits v v in
    let some_digit : 1 ≤ d = positive d (binary_digits_above v v (omega arith)) in
    let half : 2 ^ d ≡ 2 ^ (d - 1) * 2 = split d some_digit in
    let wide : 2 ^ (8 * (byte_count v - 1)) ≤ 2 ^ (d - 1) =
      pow-le-pow_right (omega arith) (omega arith) in
    omega (arith, wide, half, binary_digits_below v v h, pow_256 (byte_count v - 1))
  where
    positive : (d : ℕ) → v < 2 ^ d → 1 ≤ d
    positive zero p = absurd (omega arith)
    positive (suc d) p = omega arith

    split : (d : ℕ) → 1 ≤ d → 2 ^ d ≡ 2 ^ (d - 1) * 2
    split zero p = absurd (omega arith)
    split (suc d) p = let e : suc d - 1 ≡ d = omega arith in rw (e, pow-suc) refl

-- What `_encode_unsigned_value` returns.
pub unsigned_bytes : ℕ → Bytes
unsigned_bytes v = if v == 0 then 0x00 ∷ [] else big_endian (byte_count v) v

-- The exception of `to_bytes` is not reached.
pub encode_unsigned_value-ok : (v : ℕ) → encode_unsigned_value v ≡ ok (unsigned_bytes v)
unfolding encode_unsigned_value unsigned_bytes to_bytes
encode_unsigned_value-ok v = elim (Bool-cases (v == 0)) [
  | inl none ↦ rw none
  | inr more ↦ rw (more, lt→ltb v (256 ^ byte_count v) (byte_count_fits v))
]

pub from_big-unsigned_bytes : (v : ℕ) → from_big (unsigned_bytes v) ≡ v
unfolding unsigned_bytes
from_big-unsigned_bytes v = elim (Bool-cases (v == 0)) [
  | inl none ↦ rw none (unfold from_big in ground arith)
  | inr more ↦ rw more (from_big-big_endian (byte_count v) v (byte_count_fits v))
]

pub unsigned_bytes-IsByte : (v : ℕ) → All IsByte (unsigned_bytes v)
unfolding unsigned_bytes
unsigned_bytes-IsByte v = elim (Bool-cases (v == 0)) [
  | inl none ↦ rw none (omega arith)
  | inr more ↦ rw more (big_endian-IsByte (byte_count v) v)
]

pub length-unsigned_bytes :
    (v : ℕ)
    → (1 ≤ length (unsigned_bytes v))
      × (v < 256 ^ length (unsigned_bytes v))
      × (256 ^ (length (unsigned_bytes v) - 1) ≤ max 1 v)
unfolding unsigned_bytes
length-unsigned_bytes v = elim (Bool-cases (v == 0)) [
  | inl none ↦ rw none (ground arith)
  | inr more ↦
      rw (more, length-big_endian)
        (omega arith, byte_count_fits v, omega (arith, byte_count_least v (ground arith)))
]
