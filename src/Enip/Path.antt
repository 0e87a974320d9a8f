-- ===== src/Enip/Path.antt =====
-- `_parse_cip_path` and `_read_path_value`.
use cursus.Prelude.{
  ℕ, zero, suc, ◌+◌, true, false, Option, none, some, ◌||◌, ltb, leb, ◌==◌, length, if◌then◌else◌,
}
use cursus.Wire.{Result, ok, raised, value_error, out_of_fuel, ◌>>=◌, Bytes, index}
use cursus.Enip.Objects.{unpack_from}

pub data SegmentType : Type 0 where
  class_segment instance_segment attribute_segment : SegmentType

-- `_SEGMENT_TYPE_BY_CODE.get(segment)`
unfoldable pub segment_type_by_code : ℕ → Option SegmentType
segment_type_by_code segment =
    if segment == 0x20 || (segment == 0x21 || segment == 0x22)
    then some class_segment
    else if segment == 0x24 || (segment == 0x25 || segment == 0x26)
    then some instance_segment
    else if segment == 0x30 || (segment == 0x31 || segment == 0x32)
    then some attribute_segment
    else none

-- The value of a segment and the offset behind it.
unfoldable pub read_path_value : Bytes → ℕ → ℕ → Result (ℕ × ℕ)
read_path_value path offset segment =
    if segment == 0x20 || (segment == 0x24 || segment == 0x30)
    then (if leb (length path) offset
        then raised value_error
        else (do value ← index path offset; ok (value, offset + 1)))
    else if segment == 0x21 || (segment == 0x25 || segment == 0x31)
    then (if ltb (length path) (offset + 2)
        then raised value_error
        else (do value ← unpack_from 2 path offset; ok (value, offset + 2)))
    else if segment == 0x22 || (segment == 0x26 || segment == 0x32)
    then (if ltb (length path) (offset + 4)
        then raised value_error
        else (do value ← unpack_from 4 path offset; ok (value, offset + 4)))
    else raised value_error

-- The variables `class_code`, `instance` and `attribute` of the loop.
pub record PathParts : Type 0 where
  pub class_code : Option ℕ
  pub instance_number : Option ℕ
  pub attribute : Option ℕ

abbrev pub no_parts : PathParts
no_parts = record { class_code = none; instance_number = none; attribute = none }

abbrev pub with_part : SegmentType → ℕ → PathParts → PathParts
with_part class_segment value parts = record parts { class_code = some value }
with_part instance_segment value parts = record parts { instance_number = some value }
with_part attribute_segment value parts = record parts { attribute = some value }

-- The body of the loop: the next offset and the parts.
unfoldable pub path_round : Bytes → ℕ → PathParts → Result (ℕ × PathParts)
path_round path offset parts = do
  segment ← index path offset
  if segment == 0 then ok (offset + 1, parts) else (do
    (value, offset') ← read_path_value path (offset + 1) segment
    elim (segment_type_by_code segment) [
      | none ↦ raised value_error
      | some segment_type ↦ ok (offset', with_part segment_type value parts)
    ])

-- `while offset < len(path)`: every round goes on by a byte at least.
unfoldable pub path_loop : ℕ → Bytes → ℕ → PathParts → Result PathParts
path_loop zero path offset parts = if ltb offset (length path) then raised out_of_fuel else ok parts
path_loop (suc fuel) path offset parts = elim (ltb offset (length path)) [
  | false ↦ ok parts
  | true ↦ (do (offset', parts') ← path_round path offset parts; path_loop fuel path offset' parts')
]

-- The check behind the loop.
unfoldable pub complete_path : PathParts → Result (ℕ × ℕ × Option ℕ)
complete_path parts = elim parts.class_code [
  | none ↦ raised value_error
  | some class_code ↦ elim parts.instance_number [
    | none ↦ raised value_error
    | some instance_number ↦ ok (class_code, instance_number, parts.attribute)
  ]
]

unfoldable pub parse_cip_path : Bytes → Result (ℕ × ℕ × Option ℕ)
parse_cip_path path = do parts ← path_loop (length path) path 0 no_parts; complete_path parts
