-- ===== src/Enip/Assemblies.antt =====
-- The assemblies as a client sees them: SetAttributeSingle and GetAttributeSingle, from the bytes of
-- the request to those of the response.
use cursus.Prelude.{
  Bool-cases, ◌&&◌, ℕ, ◌+◌, ◌≡◌, refl, Bool, true, false, Option, none, some, [], ◌∷◌, ◌==◌, arith,
  length, if◌then◌else◌, le→ltb, Option-cases, inl, inr,
}
use cursus.Prelude.Dict.{Dict, lookup, put, has_key, lookup-put}
use cursus.Wire.{ok, Bytes, index, byte}
use cursus.Enip.Objects.{EnipServer}
use cursus.Enip.Path.{
  parse_cip_path, path_loop, path_round, read_path_value, segment_type_by_code, complete_path,
}
use cursus.Enip.Cip.{addressed, parse_cip_request, path_or_error, get_attribute, build_cip_response}
use cursus.Enip.CipService.{
  set_attribute, get_single, set_single, serve_cip, answer_cip, handle_cip_request,
}

-- A service on the data of an assembly, with 8-bit path segments.
abbrev pub assembly_request : ℕ → ℕ → Bytes → Bytes
assembly_request service i value = service ∷ 3 ∷ 0x20 ∷ 4 ∷ 0x24 ∷ i ∷ 0x30 ∷ 3 ∷ value

assembly_path : (i : ℕ) → parse_cip_path (0x20 ∷ 4 ∷ 0x24 ∷ i ∷ 0x30 ∷ 3 ∷ []) ≡ ok (4, i, some 3)
unfolding parse_cip_path path_loop path_round read_path_value segment_type_by_code complete_path
    index
assembly_path i = refl

parse_assembly_request :
    (service i : ℕ) (value : Bytes)
    → parse_cip_request (assembly_request service i value)
      ≡ ok (addressed service (4, i, some 3) value)
unfolding parse_cip_request index path_or_error
parse_assembly_request service i value =
    let n : ℕ = 8 + length value in
    rw
      (
        le→ltb (length (assembly_request service i value)) 2 (omega arith),
        le→ltb (length (assembly_request service i value)) 8 (omega arith),
        assembly_path i,
      )
      refl

pub has_key-none : (i : ℕ) (d : Dict Bytes) → lookup i d ≡ none → has_key i d ≡ false
unfolding has_key
has_key-none i d h = rw (h, has_key) refl

pub has_key-some :
    (i : ℕ) (d : Dict Bytes) (value : Bytes) → lookup i d ≡ some value → has_key i d ≡ true
unfolding has_key
has_key-some i d value h = rw (h, has_key) refl

-- The status of a SetAttributeSingle, and the response to a GetAttributeSingle, from what the
-- dictionary has.
abbrev pub found_status : Option Bytes → ℕ
found_status none = 0x05
found_status (some value) = 0x00

abbrev pub found_data : Option Bytes → Bytes
found_data none = 0x8e ∷ 0x00 ∷ 0x05 ∷ 0x00 ∷ []
found_data (some value) = 0x8e ∷ 0x00 ∷ 0x00 ∷ 0x00 ∷ value

pub get_run :
    (i : ℕ) (s : EnipServer)
    → handle_cip_request (assembly_request 0x0e i []) s
      ≡ (ok (found_data (lookup i s.assemblies)), s)
unfolding handle_cip_request answer_cip serve_cip get_single get_attribute build_cip_response byte
get_run i s = elim (Option-cases (lookup i s.assemblies)) [
  | inl absent ↦ rw (parse_assembly_request 0x0e i [], absent) refl
  | inr (value, there) ↦ rw (parse_assembly_request 0x0e i [], there) refl
]

pub set_run :
    (i : ℕ) (value : Bytes) (s : EnipServer)
    → handle_cip_request (assembly_request 0x10 i value) s ≡ (
      ok (0x90 ∷ 0x00 ∷ found_status (lookup i s.assemblies) ∷ 0x00 ∷ []),
      (if has_key i s.assemblies then record s { assemblies = put i value s.assemblies } else s),
    )
unfolding handle_cip_request answer_cip serve_cip set_single set_attribute build_cip_response byte
set_run i value s = elim (Option-cases (lookup i s.assemblies)) [
  | inl absent ↦
      rw (parse_assembly_request 0x10 i value, has_key-none i s.assemblies absent, absent) refl
  | inr (old, there) ↦
      rw (parse_assembly_request 0x10 i value, has_key-some i s.assemblies old there, there) refl
]

-- A client that sets the data of an assembly and then gets that of any assembly: the set is answered
-- with status 0 if the server has the instance and with 5 if not, and the get with the bytes that
-- were set, if it asks for that instance and the server has it, and with what it would have
-- answered before in every other case.
pub get-set :
    (i j : ℕ) (value : Bytes) (s : EnipServer)
    → (let (reply, s') = handle_cip_request (assembly_request 0x10 i value) s in
        (reply ≡ ok (0x90 ∷ 0x00 ∷ found_status (lookup i s.assemblies) ∷ 0x00 ∷ []))
        × ((handle_cip_request (assembly_request 0x0e j []) s').0 ≡ (
            if i == j && has_key i s.assemblies
            then ok (0x8e ∷ 0x00 ∷ 0x00 ∷ 0x00 ∷ value)
            else (handle_cip_request (assembly_request 0x0e j []) s).0)))
get-set i j value s = elim (Bool-cases (has_key i s.assemblies)) [
  | inr absent ↦ rw (set_run i value s, absent) (refl, without (i == j))
  | inl there ↦ rw (set_run i value s, there) (refl, stored)
]
  where
    without :
        (b : Bool)
        → (handle_cip_request (assembly_request 0x0e j []) s).0 ≡ (
            if b && false
            then ok (0x8e ∷ 0x00 ∷ 0x00 ∷ 0x00 ∷ value)
            else (handle_cip_request (assembly_request 0x0e j []) s).0)
    without true = refl
    without false = refl

    stored :
        (handle_cip_request
          (assembly_request 0x0e j [])
          (record s { assemblies = put i value s.assemblies })).0
        ≡ (if i == j && true
            then ok (0x8e ∷ 0x00 ∷ 0x00 ∷ 0x00 ∷ value)
            else (handle_cip_request (assembly_request 0x0e j []) s).0)
    stored = elim (Bool-cases (i == j)) [
      | inl same ↦
          rw
            (
              get_run j (record s { assemblies = put i value s.assemblies }),
              lookup-put i j value s.assemblies,
              same,
            )
            refl
      | inr other ↦
          rw
            (
              get_run j (record s { assemblies = put i value s.assemblies }),
              lookup-put i j value s.assemblies,
              other,
              get_run j s,
            )
            refl
    ]
