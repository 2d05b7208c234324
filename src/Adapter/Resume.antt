-- ===== src/Adapter/Resume.antt =====
-- internal/adapter/reconnect.go: redial with bounded backoff, dedupe, consume, then ack.
pub mod Once
pub mod Backoff
pub mod Pump
pub mod Run
pub mod Exactly
pub mod Redial
use peerbus.Prelude.{
  length, ℕ, zero, suc, ◌+◌, ◌*◌, Text, same, Bool, true, false, List, [], ◌∷◌, ◌++◌, Option, none,
  some, ltb, if◌then◌else◌,
}
use peerbus.Wire.Envelope.{Envelope}
use peerbus.Wire.Control.{Deliver}
use peerbus.Adapter.Dedupe.{Dedupe, seen, forget}
use peerbus.Adapter.Client.{
  World, Client, Received, Error, Read, ack, recv, close, missing_delivery_key, inbound_hmac,
}

-- Milliseconds.
abbrev pub base_backoff : ℕ
base_backoff = 100

abbrev pub max_backoff : ℕ
max_backoff = 5000

-- The backoff after another failed attempt.
unfoldable pub next_backoff : ℕ → ℕ
next_backoff backoff =
    if ltb backoff max_backoff
    then (let doubled = backoff * 2 in if ltb max_backoff doubled then max_backoff else doubled)
    else backoff

-- The host: the ids that it consumed, and those that the handler was given, in order, and the keys
-- for which an ack was tried.
pub record Session : Type 0 where
  pub dedupe : Dedupe
  pub client : Client
  pub consumed : List Text
  pub offered : List Text
  pub acked : List Text

module _ (w : World) where
  -- The error of an ack is dropped.
  try_ack : Text → Session → Session
  try_ack key s = record s { client = (ack w key s.client).1; acked = s.acked ++ key ∷ [] }

  handle : Bool → Deliver → Session → Session
  unfolding try_ack
  handle consumes del s =
      let s' : Session = record s { offered = s.offered ++ del.envelope.id ∷ [] } in
      if consumes
      then try_ack del.delivery_key (record s' { consumed = s'.consumed ++ del.envelope.id ∷ [] })
      else record s' { dedupe = forget del.envelope.id s'.dedupe }

  -- `consumes` says that the handler returns no error.
  unfoldable pub surface : Bool → Deliver → Session → Session
  unfolding try_ack handle
  surface consumes del s =
      let (old, d) = seen del.envelope.id s.dedupe in
      let s' : Session = record s { dedupe = d } in
      if old then try_ack del.delivery_key s' else handle consumes del s'

  -- A frame that is bad alone is dropped, and any other error ends the connection.
  unfoldable pub goes_on : Error → Bool
  goes_on missing_delivery_key = true
  goes_on inbound_hmac = true
  goes_on _ = false

  -- What follows a `Recv`; `none` leaves the loop.
  unfoldable pub received : Received → (ℕ → Deliver → Bool) → Session → Option Session
  received (some del, none) handler s = some (surface (handler (length s.offered) del) del s)
  received (none, none) handler s = none
  received (_, some e) handler s = if goes_on e then some s else none

  -- The pump of one connection, until it drops, on fuel for the calls of `Recv`; `handler` answers
  -- for each delivery, and may answer otherwise at another call of it. `none` is a lack of fuel.
  unfoldable pub pump : ℕ → (ℕ → Deliver → Bool) → List Read → Session → Option Session
  unfolding received
  pump zero handler rs s = none
  pump (suc fuel) handler rs s =
      let (r, rest, c) = recv w rs s.client in
      let s' : Session = record s { client = c } in
      elim (received r handler s') [
        | none ↦ some (record s' { client = close w s'.client })
        | some s'' ↦ pump fuel handler rest s''
      ]
