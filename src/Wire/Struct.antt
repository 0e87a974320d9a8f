-- ===== src/Wire/Struct.antt =====
-- `bytes`: indexing, slicing, search, `bytes([...])`, `struct.pack` and `int.from_bytes`.
use cursus.Prelude.{
  ℕ, zero, suc, ◌+◌, ◌-◌, ◌*◌, ◌/◌, ◌%◌, ◌^◌, ◌<◌, Bool, Option, none, some, List, [], ◌∷◌, ◌++◌,
  ◌&&◌, true, false, ltb, ◌==◌, if◌then◌else◌, get_elem?, take, drop,
}
use cursus.Wire.Outcome.{
  Result, ok, raised, index_error, struct_error, value_error, unicode_encode_error,
}
use mathlib.Core.List.{foldl}

abbrev pub Bytes : Type 0
Bytes = List ℕ

-- A `str` is the list of its code points.
abbrev pub Text : Type 0
Text = List ℕ

abbrev pub IsByte : ℕ → Type 0
IsByte b = b < 256

-- `payload[i]`, for an index that is not negative.
unfoldable pub index : Bytes → ℕ → Result ℕ
index payload i = elim (get_elem? payload i) [ none ↦ raised index_error | some b ↦ ok b ]

-- `payload[first:last]`, for bounds that are not negative.
abbrev pub slice : Bytes → ℕ → ℕ → Bytes
slice payload first last = take (last - first) (drop first payload)

-- `bytes([b])`
unfoldable pub byte : ℕ → Result Bytes
byte b = if ltb b 256 then ok (b ∷ []) else raised value_error

-- The `n` bytes of a number, highest first and lowest first.
unfoldable pub big_endian : ℕ → ℕ → Bytes
big_endian zero v = []
big_endian (suc n) v = big_endian n (v / 256) ++ (v % 256 ∷ [])

unfoldable pub little_endian : ℕ → ℕ → Bytes
little_endian zero v = []
little_endian (suc n) v = v % 256 ∷ little_endian n (v / 256)

-- `struct.pack` of one unsigned field of `n` bytes, with `>` and with `<`.
unfoldable pub pack_big : ℕ → ℕ → Result Bytes
pack_big n v = if ltb v (256 ^ n) then ok (big_endian n v) else raised struct_error

unfoldable pub pack_little : ℕ → ℕ → Result Bytes
pack_little n v = if ltb v (256 ^ n) then ok (little_endian n v) else raised struct_error

abbrev pub push_digit : ℕ → ℕ → ℕ
push_digit acc b = acc * 256 + b

-- `int.from_bytes(bs, byteorder="big")`, and `struct.unpack` of one unsigned field with `>`.
unfoldable pub from_big : Bytes → ℕ
from_big bs = foldl push_digit 0 bs

-- `struct.unpack` of one unsigned field with `<`.
unfoldable pub from_little : Bytes → ℕ
from_little [] = 0
from_little (b ∷ bs) = b + 256 * from_little bs

is_ascii : Text → Bool
is_ascii [] = true
is_ascii (c ∷ cs) = ltb c 128 && is_ascii cs

-- `text.encode("ascii")`
unfoldable pub encode_ascii : Text → Result Bytes
unfolding is_ascii
encode_ascii text = if is_ascii text then ok text else raised unicode_encode_error

unfoldable pub starts_with : Bytes → Bytes → Bool
starts_with [] bs = true
starts_with (p ∷ ps) [] = false
starts_with (p ∷ ps) (b ∷ bs) = p == b && starts_with ps bs

-- The first position, counted from `i`, at which `needle` stands in the bytes.
unfoldable pub find_from : Bytes → Bytes → ℕ → Option ℕ
find_from [] needle i = if starts_with needle [] then some i else none
find_from (b ∷ bs) needle i =
    let later = find_from bs needle (suc i) in if starts_with needle (b ∷ bs) then some i else later

-- `payload.find(needle, offset)`, with `none` for -1; the needle is not empty.
unfoldable pub find : Bytes → Bytes → ℕ → Option ℕ
unfolding find_from starts_with
find payload needle offset = find_from (drop offset payload) needle offset
