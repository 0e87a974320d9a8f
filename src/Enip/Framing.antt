-- ===== src/Enip/Framing.antt =====
-- What `next_frame` takes off a buffer, and that bytes behind a whole frame do not change it.
use cursus.Prelude.{
  le→ltb, ℕ, zero, suc, ◌+◌, ◌≤◌, ◌<◌, ◌≡◌, refl, none, some, [], ◌∷◌, ◌++◌, arith, length, drop,
  take, ltb, Bool-cases, inl, inr, length-append,
}
use cursus.Wire.{from_little, Bytes, slice}
use cursus.Enip.Objects.{EncapsulationFrame}
use cursus.Enip.Encapsulation.{next_frame}

drop-append_within :
    (n : ℕ) (bs more : Bytes) → n ≤ length bs → drop n (bs ++ more) ≡ drop n bs ++ more
drop-append_within zero bs more h = refl
drop-append_within (suc n) [] more h = absurd (omega arith)
drop-append_within (suc n) (b ∷ bs) more h = drop-append_within n bs more (omega arith)

take-append_within : (n : ℕ) (bs more : Bytes) → n ≤ length bs → take n (bs ++ more) ≡ take n bs
take-append_within zero bs more h = refl
take-append_within (suc n) [] more h = absurd (omega arith)
take-append_within (suc n) (b ∷ bs) more h = rw (take-append_within n bs more (omega arith))

length-drop_within : (n : ℕ) (bs : Bytes) → n ≤ length bs → length (drop n bs) + n ≡ length bs
length-drop_within zero bs h = omega arith
length-drop_within (suc n) [] h = absurd (omega arith)
length-drop_within (suc n) (b ∷ bs) h = omega (arith, length-drop_within n bs (omega arith))

slice-append_within :
    (bs more : Bytes) (first last : ℕ)
    → first ≤ last
    → last ≤ length bs
    → slice (bs ++ more) first last ≡ slice bs first last
slice-append_within bs more first last order inside =
    rw (drop-append_within first bs more (omega arith))
      (take-append_within _ (drop first bs) more (omega (arith, length-drop_within first bs)))

-- A buffer holds a whole frame.
abbrev size_of : Bytes → ℕ
size_of buffer = 24 + from_little (slice buffer 2 4)

pub next_frame_short : (buffer : Bytes) → length buffer < 24 → next_frame buffer ≡ none
unfolding next_frame
next_frame_short buffer h = ground arith

size_of-append :
    (buffer more : Bytes) → 24 ≤ length buffer → size_of (buffer ++ more) ≡ size_of buffer
size_of-append buffer more h = rw (slice-append_within buffer more 2 4 (omega arith) (omega arith))

-- The first frame of a buffer that holds it whole.
first_frame : Bytes → EncapsulationFrame
first_frame buffer = record {
  command = from_little (slice buffer 0 2);
  session_handle = from_little (slice buffer 4 8);
  sender_context = slice buffer 12 20;
  options = from_little (slice buffer 20 24);
  payload = slice buffer 24 (size_of buffer);
}

next_frame_whole :
    (buffer : Bytes)
    → 24 ≤ length buffer
    → size_of buffer ≤ length buffer
    → next_frame buffer ≡ some (first_frame buffer, drop (size_of buffer) buffer)
unfolding next_frame first_frame
next_frame_whole buffer header whole =
    rw (le→ltb (length buffer) 24 header, le→ltb (length buffer) (size_of buffer) whole)

next_frame_cut : (buffer : Bytes) → length buffer < size_of buffer → next_frame buffer ≡ none
unfolding next_frame
next_frame_cut buffer cut = ground arith

-- A frame that a buffer gives is whole.
next_frame-some :
    (buffer : Bytes) (frame : EncapsulationFrame) (rest : Bytes)
    → next_frame buffer ≡ some (frame, rest)
    → (24 ≤ length buffer)
      × (size_of buffer ≤ length buffer)
      × (frame ≡ first_frame buffer)
      × (rest ≡ drop (size_of buffer) buffer)
next_frame-some buffer frame rest h = elim (Bool-cases (ltb (length buffer) 24)) [
  | inl short ↦ let e = next_frame_short buffer (ground arith) in absurd (cc)
  | inr header ↦ elim (Bool-cases (ltb (length buffer) (size_of buffer))) [
    | inl cut ↦ let e = next_frame_cut buffer (ground arith) in absurd (cc)
    | inr whole ↦
        let e = next_frame_whole buffer (ground arith) (ground arith) in
        (ground arith, ground arith, cc, cc)
  ]
]

first_frame-append :
    (buffer more : Bytes)
    → 24 ≤ length buffer
    → size_of buffer ≤ length buffer
    → first_frame (buffer ++ more) ≡ first_frame buffer
unfolding first_frame
first_frame-append buffer more header whole =
    rw
      (
        size_of-append buffer more header,
        slice-append_within buffer more 0 2 (omega arith) (omega arith),
        slice-append_within buffer more 4 8 (omega arith) (omega arith),
        slice-append_within buffer more 12 20 (omega arith) (omega arith),
        slice-append_within buffer more 20 24 (omega arith) (omega arith),
        slice-append_within buffer more 24 (size_of buffer) (omega arith) whole,
      )
      refl

pub next_frame-append :
    (buffer more : Bytes) (frame : EncapsulationFrame) (rest : Bytes)
    → next_frame buffer ≡ some (frame, rest)
    → next_frame (buffer ++ more) ≡ some (frame, rest ++ more)
next_frame-append buffer more frame rest h =
    let (header, whole, same_frame, same_rest) = next_frame-some buffer frame rest h in
    rw
      (
        next_frame_whole (buffer ++ more) (omega (arith, length-append buffer more))
            (omega (arith, length-append buffer more, size_of-append buffer more header)),
        size_of-append buffer more header,
        first_frame-append buffer more header whole,
        drop-append_within (size_of buffer) buffer more whole,
        same_frame,
        same_rest,
      )
      refl

pub next_frame-shorter :
    (buffer : Bytes) (frame : EncapsulationFrame) (rest : Bytes)
    → next_frame buffer ≡ some (frame, rest)
    → length rest < length buffer
next_frame-shorter buffer frame rest h =
    let (header, whole, same_frame, same_rest) = next_frame-some buffer frame rest h in
    rw same_rest (omega (arith, length-drop_within (size_of buffer) buffer whole))
