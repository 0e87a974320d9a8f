-- ===== src/Bacnet/Answered.antt =====
-- The replies that the UDP server sends, whatever order its handlers take their steps in.
use cursus.Prelude.{
  ℕ, zero, suc, ◌+◌, ◌≤◌, ◌≡◌, refl, ap, Bool, true, false, Option, none, some, List, [], ◌∷◌, ◌++◌,
  inl, inr, get_elem?, arith, Bool-cases,
}
use cursus.Wire.{Result-cases, Result, ok, raised, Bytes}
use cursus.Serving.Life.{
  Address, SocketCall, shutdown, sendto, Life, Event, arrived, handled, stop_called, ended, replace,
  serve, stop, perform, turn, rest_of,
}
use cursus.Bacnet.Objects.{Floats, BacnetServer}
use cursus.Bacnet.Server.{handle_datagram}
use cursus.Bacnet.Socket.{Datagram, Handler, received, replying, handle, respond}

module _ {ℓ} {A : Type ℓ} (weight : A → ℕ) where
  total : List A → ℕ
  total [] = 0
  total (x ∷ xs) = weight x + total xs

  weight_of : Option A → ℕ
  weight_of none = 0
  weight_of (some x) = weight x

  total-append : (xs ys : List A) → total (xs ++ ys) ≡ total xs + total ys
  unfolding total
  total-append [] ys = omega arith
  total-append (x ∷ xs) ys = omega (arith, total-append xs ys)

  total-replace :
      (i : ℕ) (o : Option A) (x : A) (xs : List A)
      → get_elem? xs i ≡ some x
      → total (replace i o xs) + weight x ≡ total xs + weight_of o
  unfolding total weight_of replace
  total-replace i o x [] h = absurd (cc)
  total-replace zero none x (y ∷ ys) h = let e : y ≡ x = cc in let w = ap weight e in omega arith
  total-replace zero (some z) x (y ∷ ys) h =
      let e : y ≡ x = cc in let w = ap weight e in omega arith
  total-replace (suc i) o x (y ∷ ys) h = omega (arith, total-replace i o x ys h)

abbrev bit : Bool → ℕ
bit true = 1
bit false = 0

-- A datagram, and a reply with the address that it goes to, of some kind.
module _ (asks : Datagram → Bool) (replies : Datagram → Bool) where
  abbrev asking : Event Datagram → ℕ
  asking (arrived datagram) = bit (asks datagram)
  asking event = 0

  abbrev sending : SocketCall → ℕ
  sending (sendto response address) = bit (replies (response, address))
  sending c = 0

  abbrev owing : Handler → ℕ
  owing (received datagram) = bit (asks datagram)
  owing (replying response address) = bit (replies (response, address))

  -- The datagrams of the kind that arrive, the replies of the kind that are sent, and the handlers
  -- that may still send one.
  unfoldable pub asked : List (Event Datagram) → ℕ
  unfolding total
  asked = total asking

  unfoldable pub sent : List SocketCall → ℕ
  unfolding total
  sent = total sending

  unfoldable pub owed : List Handler → ℕ
  unfolding total
  owed = total owing

  module _ (fl : Floats) (outside : List SocketCall → SocketCall → Result (Unit {0})) where
    open fl use {Float}

    -- A datagram that is answered with a reply of the kind is of the kind.
    module _
        (kind : (payload response : Bytes) (address : Address) (s : BacnetServer Float)
          → (handle_datagram fl payload s).0 ≡ ok (some response)
          → replies (response, address) ≡ true
          → asks (payload, address) ≡ true) where
      abbrev Serving : Type 0
      Serving = Life (BacnetServer Float) Handler

      abbrev balance : Serving → ℕ
      balance l = sent l.calls + owed l.threads

      respond-owing :
          (payload : Bytes) (address : Address) (s : BacnetServer Float) (r : Result (Option Bytes))
          → (handle_datagram fl payload s).0 ≡ r
          → weight_of owing (rest_of (respond address r)) ≤ bit (asks (payload, address))
      unfolding weight_of
      respond-owing payload address s (raised e) h = omega arith
      respond-owing payload address s (ok none) h = omega arith
      respond-owing payload address s (ok (some response)) h =
          elim (Bool-cases (replies (response, address))) [
            | inl counted ↦ simp (counted, kind payload response address s h counted) (omega arith)
            | inr other ↦ simp other (omega arith)
          ]

      replied :
          (i : ℕ) (response : Bytes) (address : Address) (l : Serving)
          → get_elem? l.threads i ≡ some (replying response address)
          → sent (l.calls ++ sendto response address ∷ []) + owed (replace i none l.threads)
            ≤ balance l
      unfolding sent owed total weight_of
      replied i response address l at =
          let replaced = total-replace owing i none (replying response address) l.threads at in
          let more = total-append sending l.calls (sendto response address ∷ []) in omega arith

      turn-balance :
          (i : ℕ) (o : Option Handler) (l : Serving)
          → get_elem? l.threads i ≡ o
          → balance (turn outside received (handle fl outside) i o l) ≤ balance l
      unfolding handle perform sent owed
      turn-balance i none l at = omega arith
      turn-balance i (some (received (payload, address))) l at =
          let (response, s') = handle_datagram fl payload l.protocol in
          let left = rest_of (respond address response) in
          let replaced = total-replace owing i left (received (payload, address)) l.threads at in
          let less = respond-owing payload address l.protocol response refl in omega arith
      turn-balance i (some (replying response address)) l at =
          elim (Result-cases (outside l.calls (sendto response address))) [
            | inl (x, e) ↦ simp e (replied i response address l at)
            | inr (x, e) ↦ simp e (replied i response address l at)
          ]

      stop-balance :
          (l : Serving) → balance (stop outside received (handle fl outside) l).1 ≡ balance l
      unfolding stop perform sent total
      stop-balance l = elim (Bool-cases l.kept) [
        | inl kept ↦
            simp kept (let more = total-append sending l.calls (shutdown ∷ []) in omega arith)
        | inr idle ↦ simp idle refl
      ]

      owed-arrived :
          (threads : List Handler) (datagram : Datagram)
          → owed (threads ++ received datagram ∷ []) ≡ owed threads + bit (asks datagram)
      unfolding owed total
      owed-arrived threads datagram =
          let more = total-append owing threads (received datagram ∷ []) in omega arith

      -- A kind of replies, such as those to one address, that only a kind of datagrams is answered
      -- with. Whatever datagrams arrive, whatever order the handlers take their steps in, whatever
      -- `sendto` raises, and whoever calls `stop` meanwhile: the replies of the kind that have been sent
      -- since, and the handlers that may yet send one, are at most as many as the datagrams of the kind
      -- that have arrived and the handlers that there were.
      pub serve-sent :
          (events : List (Event Datagram)) (l : Serving)
          → (let l' = (serve outside received (handle fl outside) events l).1 in
              sent l'.calls + owed l'.threads ≤ sent l.calls + owed l.threads + asked events)
      unfolding serve asked total
      serve-sent [] l = omega arith
      serve-sent (arrived datagram ∷ events) l =
          let more = owed-arrived l.threads datagram in omega (arith, serve-sent events _)
      serve-sent (handled i ∷ events) l =
          let before = turn-balance i (get_elem? l.threads i) l refl in
          omega (arith, serve-sent events _)
      serve-sent (stop_called ∷ events) l =
          let before = stop-balance l in omega (arith, serve-sent events _)
      serve-sent (ended result ∷ events) l = omega arith
