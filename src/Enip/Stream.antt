-- ===== src/Enip/Stream.antt =====
-- A client's bytes do the same however the network cuts them into chunks.
use cursus.Prelude.{
  ◌⊎◌, ◌+◌, ◌<◌, ◌≡◌, refl, sym, Bool, true, false, none, List, [], ◌∷◌, ◌++◌, append_assoc, arith,
  length, Bool-cases, inl, inr, if◌then◌else◌, length-append, All,
}
use cursus.Wire.{Bytes}
use cursus.Enip.Objects.{EnipServer, Sockets}
use cursus.Enip.Connection.{
  is_running, Received, chunk, failed, Connection, drain, receive, receive_all, released, opened,
}
use cursus.Enip.Encapsulation.{next_frame}
use cursus.Enip.Draining.{drain-rests, pour, resume, drain-pour, drain_stopped}

-- Chunks as events; an empty one would be the end of the stream.
abbrev pub chunks : List Bytes → List Received
chunks [] = []
chunks (a ∷ parts) = chunk a ∷ chunks parts

-- The bytes that chunks make up.
abbrev pub joined : Bytes → List Bytes → Bytes
joined a [] = a
joined a (b ∷ parts) = joined (a ++ b) parts

-- A connection that was left, without the bytes that nobody reads any more.
settled : Connection → Connection
settled c = if is_running c.status then c else record c { buffer = [] }

settled-running : (c : Connection) → is_running (settled c).status ≡ is_running c.status
unfolding settled
settled-running c = elim (Bool-cases (is_running c.status)) [ inl e ↦ rw e e | inr e ↦ rw e e ]

settled_whole : (c : Connection) → is_running c.status ≡ true → settled c ≡ c
unfolding settled
settled_whole c e = rw e refl

same-running :
    (c d : Connection) → settled c ≡ settled d → is_running c.status ≡ is_running d.status
same-running c d h = rw (sym (settled-running c), sym (settled-running d), h) refl

settled_cases :
    (c d : Connection)
    → settled c ≡ settled d
    → (c ≡ d) ⊎ ((is_running c.status ≡ false) × (is_running d.status ≡ false))
settled_cases c d h = elim (Bool-cases (is_running c.status)) [
  | inl e ↦
      let f : is_running d.status ≡ true = rw (sym (same-running c d h)) e in
      let g = settled_whole c e in let k = settled_whole d f in inl (cc)
  | inr e ↦ inr (e, rw (sym (same-running c d h)) e)
]

brings_bytes : Received → Bool
brings_bytes (chunk (b ∷ bs)) = true
brings_bytes _ = false

module _ (net : Sockets) (accepts : List Bytes → Bytes → Bool) where
  abbrev left : Connection → EnipServer × List Bytes
  left c = (released net accepts c, c.sent)

  -- What a connection leaves: the server behind it and the responses that were sent.
  abbrev pub outcome : List Received → EnipServer → EnipServer × List Bytes
  outcome events s = left (receive_all net accepts events (opened net accepts s))

  receive_stopped :
      (e : Received) (c : Connection) → is_running c.status ≡ false → receive net accepts e c ≡ c
  unfolding receive
  receive_stopped failed c h = rw (h, receive) refl
  receive_stopped (chunk []) c h = rw (h, receive) refl
  receive_stopped (chunk (b ∷ bs)) c h = rw (h, receive) refl

  receive_chunk :
      (a : Bytes) (c : Connection)
      → 0 < length a
      → is_running c.status ≡ true
      → receive net accepts (chunk a) c
        ≡ drain net accepts (length c.buffer + length a) (pour net accepts a c)
  unfolding receive pour
  receive_chunk [] c n h = absurd (omega arith)
  receive_chunk (b ∷ bs) c n h = rw (h, receive, length-append c.buffer (b ∷ bs)) refl

  pour-append :
      (a b : Bytes) (c : Connection)
      → pour net accepts (a ++ b) c ≡ pour net accepts b (pour net accepts a c)
  unfolding pour
  pour-append a b c = rw (append_assoc c.buffer a b) refl

  receive_whole :
      (a b : Bytes) (c : Connection)
      → 0 < length a
      → is_running c.status ≡ true
      → receive net accepts (chunk (a ++ b)) c
        ≡ resume net accepts b (receive net accepts (chunk a) c)
  unfolding pour
  receive_whole a b c n e =
      let sum : length c.buffer + length (a ++ b) ≡ length c.buffer + length a + length b =
        omega (arith, length-append a b) in
      rw
        (
          receive_chunk (a ++ b) c (omega (arith, length-append a b)) e,
          receive_chunk a c n e,
          pour-append a b c,
          sum,
        )
        (drain-pour net accepts (length c.buffer + length a) b (pour net accepts a c)
          (omega (arith, length-append c.buffer a)))

  settled-resume :
      (b : Bytes) (c : Connection)
      → 0 < length b
      → settled (receive net accepts (chunk b) c) ≡ settled (resume net accepts b c)
  unfolding resume pour settled
  settled-resume b c m = elim (Bool-cases (is_running c.status)) [
    | inl e ↦ rw (receive_chunk b c m e) refl
    | inr e ↦
        rw
          (
            receive_stopped (chunk b) c e,
            drain_stopped net accepts (length c.buffer + length b) (pour net accepts b c) e,
            e,
          )
          refl
  ]

  receive-append :
      (a b : Bytes) (c : Connection)
      → 0 < length a
      → 0 < length b
      → settled (receive net accepts (chunk b) (receive net accepts (chunk a) c))
        ≡ settled (receive net accepts (chunk (a ++ b)) c)
  receive-append a b c n m = elim (Bool-cases (is_running c.status)) [
    | inl e ↦ rw (receive_whole a b c n e) (settled-resume b (receive net accepts (chunk a) c) m)
    | inr e ↦
        rw
          (
            receive_stopped (chunk a) c e,
            receive_stopped (chunk b) c e,
            receive_stopped (chunk (a ++ b)) c e,
          )
          refl
  ]

  receive-settled :
      (e : Received) (c d : Connection)
      → settled c ≡ settled d
      → settled (receive net accepts e c) ≡ settled (receive net accepts e d)
  receive-settled e c d h = elim (settled_cases c d h) [
    | inl same ↦ rw same refl
    | inr (f, g) ↦ rw (receive_stopped e c f, receive_stopped e d g) h
  ]

  receive_all-settled :
      (events : List Received) (c d : Connection)
      → settled c ≡ settled d
      → settled (receive_all net accepts events c) ≡ settled (receive_all net accepts events d)
  unfolding receive_all
  receive_all-settled [] c d h = h
  receive_all-settled (e ∷ events) c d h =
      receive_all-settled events (receive net accepts e c) (receive net accepts e d)
        (receive-settled e c d h)

  receive_all-joined :
      (a : Bytes) (parts : List Bytes) (events : List Received) (c : Connection)
      → 0 < length a
      → All (λ b. 0 < length b) parts
      → settled (receive_all net accepts (chunks (a ∷ parts) ++ events) c)
        ≡ settled (receive_all net accepts (chunk (joined a parts) ∷ events) c)
  unfolding receive_all
  receive_all-joined a [] events c n m = refl
  receive_all-joined a (b ∷ parts) events c n (m, ms) =
      rw
        (receive_all-settled (chunks parts ++ events)
          (receive net accepts (chunk b) (receive net accepts (chunk a) c))
          (receive net accepts (chunk (a ++ b)) c) (receive-append a b c n m))
        (receive_all-joined (a ++ b) parts events c (omega (arith, length-append a b)) ms)

  released-settled : (c : Connection) → left (settled c) ≡ left c
  unfolding released settled
  released-settled c = elim (Bool-cases (is_running c.status)) [
    | inl e ↦ rw e refl
    | inr e ↦ rw e refl
  ]

  -- Two ways to cut the same bytes into chunks that are not empty, with the same events behind
  -- them: the server that the connection leaves is the same, and so are the responses that were
  -- sent.
  pub outcome-chunks :
      (s : EnipServer) (a b : Bytes) (parts others : List Bytes) (events : List Received)
      → All (λ c. 0 < length c) (a ∷ parts)
      → All (λ c. 0 < length c) (b ∷ others)
      → joined a parts ≡ joined b others
      → outcome (chunks (a ∷ parts) ++ events) s ≡ outcome (chunks (b ∷ others) ++ events) s
  outcome-chunks s a b parts others events (n, ns) (m, ms) h =
      rw
        (
          sym (
              released-settled
                (receive_all net accepts (chunks (a ∷ parts) ++ events) (opened net accepts s))),
          sym (
              released-settled
                (receive_all net accepts (chunks (b ∷ others) ++ events) (opened net accepts s))),
          receive_all-joined a parts events (opened net accepts s) n ns,
          receive_all-joined b others events (opened net accepts s) m ms,
          h,
        )
        refl

  -- No whole frame waits in the buffer of a connection that goes on.
  Rests : Connection → Type 0
  Rests c = is_running c.status ≡ true → next_frame c.buffer ≡ none

  -- The end of the stream, or an error, ends the loop.
  over_stops :
      (e : Received) (c : Connection)
      → is_running (receive net accepts e c).status ≡ true
      → brings_bytes e ≡ true
  unfolding receive brings_bytes
  over_stops (chunk (b ∷ bs)) c h = refl
  over_stops failed c h = elim (Bool-cases (is_running c.status)) [
    | inl r ↦ absurd (cc (rw r at h))
    | inr stopped ↦ let same = receive_stopped failed c stopped in absurd (cc)
  ]
  over_stops (chunk []) c h = elim (Bool-cases (is_running c.status)) [
    | inl r ↦ absurd (cc (rw r at h))
    | inr stopped ↦ let same = receive_stopped (chunk []) c stopped in absurd (cc)
  ]

  receive-Rests : (e : Received) (c : Connection) → Rests c → Rests (receive net accepts e c)
  unfolding receive Rests pour brings_bytes
  receive-Rests failed c h e = absurd (let h' = over_stops failed c e in cc)
  receive-Rests (chunk []) c h e = absurd (let h' = over_stops (chunk []) c e in cc)
  receive-Rests (chunk (b ∷ bs)) c h e = elim (Bool-cases (is_running c.status)) [
    | inl r ↦
        let same = receive_chunk (b ∷ bs) c (omega arith) r in
        rw same (
          drain-rests net accepts (length c.buffer + length (b ∷ bs)) (pour net accepts (b ∷ bs) c)
            (omega (arith, length-append c.buffer (b ∷ bs))) (rw same at e))
    | inr stopped ↦ let same = receive_stopped (chunk (b ∷ bs)) c stopped in absurd (cc)
  ]

  receive_all-Rests :
      (events : List Received) (c : Connection) → Rests c → Rests (receive_all net accepts events c)
  unfolding receive_all
  receive_all-Rests [] c h = h
  receive_all-Rests (e ∷ events) c h =
      receive_all-Rests events (receive net accepts e c) (receive-Rests e c h)

  -- Whatever `recv` has returned so far, a connection that goes on has handled every frame that is
  -- whole: what its buffer holds is the start of a frame, and the inner loop came to its end.
  pub receive_all_rests :
      (s : EnipServer) (events : List Received)
      → is_running (receive_all net accepts events (opened net accepts s)).status ≡ true
      → next_frame (receive_all net accepts events (opened net accepts s)).buffer ≡ none
  unfolding Rests next_frame
  receive_all_rests s events = receive_all-Rests events (opened net accepts s) (λ _. refl)
