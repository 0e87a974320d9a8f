-- ===== src/Wire/Slices.antt =====
-- Indexing and slicing of bytes that are put together from parts.
use cursus.Prelude.{
  none, some, get_elem?, ◌<◌, ℕ, zero, suc, ◌+◌, ◌-◌, ◌≡◌, refl, [], ◌∷◌, ◌++◌, arith, length, drop,
  drop-append, take-append, get_elem?-append,
}
use cursus.Wire.Outcome.{ok}
use cursus.Wire.Struct.{Bytes, index, slice}

drop_nil : (n : ℕ) → ◌≡◌ {A = Bytes} [] (drop n [])
drop_nil zero = refl
drop_nil (suc n) = refl

pub drop_add : (m n : ℕ) (bs : Bytes) → drop (m + n) bs ≡ drop n (drop m bs)
drop_add zero n bs = let e : zero + n ≡ n = omega arith in rw e
drop_add (suc m) n [] = let e : suc m + n ≡ suc (m + n) = omega arith in rw e (drop_nil n)
drop_add (suc m) n (b ∷ bs) =
    let e : suc m + n ≡ suc (m + n) = omega arith in rw e (drop_add m n bs)

-- `payload[len(front)]`
pub index-append :
    (front : Bytes) (b : ℕ) (rest : Bytes) → index (front ++ b ∷ rest) (length front) ≡ ok b
unfolding index
index-append front b rest = rw (get_elem?-append front b rest, index)

pub index-append_second :
    (front : Bytes) (a b : ℕ) (rest : Bytes)
    → index (front ++ a ∷ b ∷ rest) (length front + 1) ≡ ok b
unfolding index
index-append_second [] a b rest = refl
index-append_second (c ∷ front) a b rest =
    let e : suc (length front) + 1 ≡ suc (length front + 1) = omega arith in
    rw e (index-append_second front a b rest)

-- A slice that starts behind two parts and is as long as the third.
pub slice-append :
    (front header value rest : Bytes)
    → slice
        (front ++ (header ++ (value ++ rest)))
        (length front + length header)
        (length front + length header + length value)
      ≡ value
slice-append front header value rest =
    let width : length front + length header + length value - (length front + length header)
        ≡ length value =
      omega arith in
    rw (width, drop_add, drop-append, drop-append) (take-append value rest)

-- The byte at an index, 0 outside the bytes.
pub byte_at : Bytes → ℕ → ℕ
byte_at bs i = elim (get_elem? bs i) [ none ↦ 0 | some b ↦ b ]

pub index-byte_at : (bs : Bytes) (i : ℕ) → i < length bs → index bs i ≡ ok (byte_at bs i)
unfolding index byte_at
index-byte_at [] i h = absurd (omega arith)
index-byte_at (b ∷ bs) zero h = refl
index-byte_at (b ∷ bs) (suc i) h = index-byte_at bs i (omega arith)
