-- ===== src/Enip/PathTermination.antt =====
-- The loop of `_parse_cip_path` ends, and ValueError is the one exception it raises.
use cursus.Prelude.{
  ℕ, zero, suc, ◌+◌, ◌≤◌, ◌<◌, ◌≡◌, refl, Option, none, some, true, false, arith, length, ltb,
  Bool-cases, Bool, ◌==◌, Option-cases, inl, inr, le→ltb,
}
use cursus.Wire.{Error, Result, ok, raised, value_error, Bytes}
use cursus.Wire.Slices.{byte_at, index-byte_at}
use cursus.Wire.Ensures.{Ensures, returns, raises, Ensures-bind, Ensures-raised}
use cursus.Enip.Objects.{unpack_from}
use cursus.Enip.Path.{
  SegmentType, PathParts, no_parts, with_part, segment_type_by_code, read_path_value, path_round,
  path_loop, complete_path, parse_cip_path,
}

-- `except ValueError` catches it.
abbrev IsValueError : Error → Type 0
IsValueError e = e ≡ value_error

-- The result goes on behind the offset, or is a ValueError.
abbrev goes_on {ℓ} : {A : Type ℓ} → ℕ → (A → ℕ) → Result A → Bool
goes_on offset next (ok r) = ltb offset (next r)
goes_on offset next (raised value_error) = true
goes_on offset next (raised _) = false

goes_on→Ensures :
    {A : Type 0} (offset : ℕ) (next : A → ℕ) (r : Result A)
    → goes_on offset next r ≡ true
    → Ensures (λ (a : A). offset < next a) IsValueError r
goes_on→Ensures offset next (ok r) h = returns (ground arith)
goes_on→Ensures offset next (raised value_error) h = raises refl
goes_on→Ensures offset next (raised _) h = absurd (cc)

read_path_value-goes_on :
    (path : Bytes) (offset segment : ℕ)
    → goes_on offset (λ (r : ℕ × ℕ). r.1) (read_path_value path offset segment) ≡ true
unfolding read_path_value unpack_from
read_path_value-goes_on path offset segment = ground (arith, index-byte_at path offset)

read_path_value-Ensures :
    (path : Bytes) (offset segment : ℕ)
    → Ensures (λ (r : ℕ × ℕ). offset < r.1) IsValueError (read_path_value path offset segment)
read_path_value-Ensures path offset segment =
    goes_on→Ensures offset (λ (r : ℕ × ℕ). r.1) (read_path_value path offset segment)
      (read_path_value-goes_on path offset segment)

path_round-Ensures :
    (path : Bytes) (offset : ℕ) (parts : PathParts)
    → offset < length path
    → Ensures (λ (r : ℕ × PathParts). offset < r.0) IsValueError (path_round path offset parts)
unfolding path_round
path_round-Ensures path offset parts h = elim (Bool-cases (byte_at path offset == 0)) [
  | inl padding ↦ rw (index-byte_at path offset h, padding) (returns (omega arith))
  | inr segment ↦
      rw (index-byte_at path offset h, segment)
        (Ensures-bind _ (read_path_value-Ensures path (offset + 1) (byte_at path offset))
          (λ r behind. known_segment r behind (segment_type_by_code (byte_at path offset))))
]
  where
    known_segment :
        (r : ℕ × ℕ)
        → offset + 1 < r.1
        → (t : Option SegmentType)
        → Ensures
            (λ (r : ℕ × PathParts). offset < r.0)
            IsValueError
            (elim t [
              | none ↦ raised value_error
              | some segment_type ↦ ok (r.1, with_part segment_type r.0 parts)
            ])
    known_segment r behind none = raises refl
    known_segment r behind (some t) = returns (omega arith)

path_loop-Ensures :
    (fuel : ℕ) (path : Bytes) (offset : ℕ) (parts : PathParts)
    → length path ≤ offset + fuel
    → Ensures (λ _. Unit {0}) IsValueError (path_loop fuel path offset parts)
unfolding path_loop
path_loop-Ensures zero path offset parts h =
    rw (le→ltb offset (length path) (omega arith)) (returns tt)
path_loop-Ensures (suc fuel) path offset parts h = elim (Bool-cases (ltb offset (length path))) [
  | inr stop ↦ rw (stop, path_loop) (returns tt)
  | inl more ↦
      rw (more, path_loop)
        (Ensures-bind _ (path_round-Ensures path offset parts (ground arith))
          (λ r behind. path_loop-Ensures fuel path r.0 r.1 (omega arith)))
]

complete_path-Ensures :
    (parts : PathParts) → Ensures (λ _. Unit {0}) IsValueError (complete_path parts)
unfolding complete_path
complete_path-Ensures parts = elim (Option-cases parts.class_code) [
  | inl absent ↦ rw (absent, complete_path) (raises refl)
  | inr (class_code, present) ↦ elim (Option-cases parts.instance_number) [
    | inl absent ↦ rw (present, absent, complete_path) (raises refl)
    | inr (instance_number, there) ↦ rw (present, there, complete_path) (returns tt)
  ]
]

-- Whatever the bytes of a path, the parser comes to an end within as many rounds as the path has
-- bytes, and if it raises, then the ValueError that `_handle_cip_request` catches.
pub parse_cip_path_raises :
    (path : Bytes) (e : Error) → parse_cip_path path ≡ raised e → e ≡ value_error
unfolding parse_cip_path
parse_cip_path_raises path e h =
    Ensures-raised
      (Ensures-bind _ (path_loop-Ensures (length path) path 0 no_parts (omega arith))
        (λ parts _. complete_path-Ensures parts))
      h
