-- ===== src/Broker/State.antt =====
-- internal/broker/server.go and router.go: the state of the broker, the store, the registry, and the
-- connections, with the two effects that all handlers share, a frame that is written and an audit
-- event.
use peerbus.Prelude.{
  ℕ, ◌+◌, Text, text, Bool, true, false, ◌||◌, List, [], ◌∷◌, ◌++◌, Option, none, some, ◌==◌,
  if◌then◌else◌,
}
use peerbus.Wire.Json.{Json, str, obj, member, end}
use peerbus.Wire.Print.{print}
use peerbus.Store.Handle.{Driver, Store}
use peerbus.Audit.{Blake3, append}
use peerbus.Broker.Auth.{Authenticator}
use peerbus.Broker.Registry.{Registry}

-- What the broker relies on: the driver of the store, the digest of the log, and the network, which
-- may fail the n-th write.
pub record World : Type 0 where
  pub driver : Driver
  pub blake3 : Blake3
  pub write_fails : ℕ → Bool

-- Why the broker closed a connection.
pub data Reason : Type 0 where
  no_handshake_frame not_text malformed_handshake not_register bad_version empty_name : Reason
  bad_token persistence_failed name_claimed bind_failed ack_failed bye going_away : Reason

-- peerConn, with the frames that were written to it, oldest first.
pub record Conn : Type 0 where
  pub name : Text
  pub closed : Bool
  pub takeover : Bool
  pub reason : Option Reason
  pub sent : List Json

abbrev pub new_conn : Conn
new_conn = record { name = []; closed = false; takeover = false; reason = none; sent = [] }

-- `audited` says that the server has an appender.
pub record Server : Type 0 where
  pub auth : Authenticator
  pub registry : Registry
  pub store : Store
  pub audited : Bool
  pub conns : ℕ → Conn
  pub writes : ℕ

abbrev pub set_conn : ℕ → Conn → Server → Server
set_conn c k s = record s { conns = λ j. if j == c then k else s.conns j }

-- CloseTakenOver: idempotent; a closed connection stays as it is.
unfoldable pub close_taken_over : ℕ → Server → Server
close_taken_over c s =
    let k = s.conns c in
    if k.closed then s else set_conn c (record k { closed = true; takeover = true }) s

-- closeNormal: idempotent, with the reason of the first close.
unfoldable pub close_normal : ℕ → Reason → Server → Server
close_normal c why s =
    let k = s.conns c in
    if k.closed then s else set_conn c (record k { closed = true; reason = some why }) s

module _ (w : World) where
  -- writeJSON; `false` is an error of the write.
  unfoldable pub write_json : ℕ → Json → Server → Bool × Server
  write_json c frame s =
      let k = s.conns c in
      let s' : Server = record s { writes = s.writes + 1 } in
      if w.write_fails s.writes || k.closed
      then (false, s')
      else (true, set_conn c (record k { sent = k.sent ++ frame ∷ [] }) s')

  abbrev pub event_text : Text → Text → Text → Text → Text
  event_text kind id from to = print (
      obj (
        member (text "event") (str kind) (
          member (text "id") (str id)
            (member (text "from") (str from) (member (text "to") (str to) end)))))

  -- auditEvent; a failed append is logged and dropped.
  unfoldable pub audit_event : Text → Text → Text → Text → Server → Server
  audit_event kind id from to s =
      if s.audited
      then record s { store = (append w.blake3 w.driver (event_text kind id from to) s.store).1 }
      else s
