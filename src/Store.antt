-- ===== src/Store.antt =====
-- internal/store/store.go: the durable queue. Each method is an action on the store handle.
pub mod Schema
pub mod Handle
pub mod Outcome
pub mod Changes
pub mod Rows
pub mod Invariant
pub mod Fifo
pub mod Durable
pub mod Delivered
pub mod History
use peerbus.Prelude.{
  ℕ, ◌+◌, Text, is_empty, Bool, true, false, not, ◌||◌, List, map, Option, none, some, length, keep,
  if◌then◌else◌,
}
use Schema.{
  Tables, Message, AuditRow, no_rows, known, upsert_peer, holds, next_of, set_next, insert_message,
  deliver_row, ack_row, in_flight, requeue_row, is_pending, order_by, insert_audit, by_seq, newest,
  tamper_row,
}
use Handle.{
  Driver, Store, Exec, Result, ok, err, closed_store, unknown_peer, duplicate_id, empty_name,
  missing_field, pure, gets, guard, query, statement, transaction, now_nanos, ◌>>=◌, ◌>>◌,
}

-- Open on a new database: the schema makes the four tables.
abbrev pub open_empty : Store
open_empty = record { tables = no_rows; closed = false; calls = 0 }

-- Close; a second call does nothing.
unfoldable pub close : Exec (Unit {0})
close s = if s.closed then (ok tt, s) else (ok tt, record s { closed = true })

unfoldable pub ok_to_use : Exec (Unit {0})
ok_to_use s = if s.closed then (err closed_store, s) else (ok tt, s)

-- `seq := 0` when the sender has no counter yet.
abbrev pub or_zero : Option ℕ → ℕ
or_zero none = 0
or_zero (some n) = n

abbrev pub new_row : Message → ℕ → ℕ → Message
new_row m seq ts = record m { delivered = false; acked = false; attempts = 0; seq = seq; ts = ts }

module _ (d : Driver) where
  unfoldable pub register : Text → Exec (Unit {0})
  unfolding ok_to_use statement now_nanos
  register name = do
    ok_to_use
    guard (not (is_empty name)) empty_name
    now ← now_nanos d
    statement d (λ t. some (record t { peers = upsert_peer name now t.peers }))

  unfoldable pub peer_exists : Text → Exec Bool
  unfolding query
  peer_exists name = query d (λ t. known name t.peers)

  unfoldable pub enqueue_body : Message → Exec (Unit {0})
  unfolding query statement now_nanos insert_message
  enqueue_body msg = do
    found ← query d (λ t. known msg.to t.peers)
    guard found unknown_peer
    old ← query d (λ t. holds msg.id t.messages)
    guard (not old) duplicate_id
    seq ← query d (λ t. or_zero (next_of msg.from t.sender_seq))
    statement d (λ t. some (record t { sender_seq = set_next msg.from (seq + 1) t.sender_seq }))
    now ← now_nanos d
    statement d (insert_message (new_row msg seq now))

  unfoldable pub enqueue : Message → Exec (Unit {0})
  unfolding ok_to_use transaction enqueue_body
  enqueue msg = do
    ok_to_use
    guard (not (is_empty msg.id || (is_empty msg.from || is_empty msg.to))) missing_field
    transaction d (enqueue_body msg)

  unfoldable pub pending_for : Text → Exec (List Message)
  unfolding ok_to_use peer_exists
  pending_for name = do
    ok_to_use
    exists ← peer_exists name
    guard exists unknown_peer
    query d (λ t. order_by (keep (is_pending name) t.messages))

  unfoldable pub mark_delivered : Text → Exec (Unit {0})
  unfolding ok_to_use statement
  mark_delivered id = do
    ok_to_use
    statement d (λ t. some (record t { messages = map (deliver_row id) t.messages }))

  unfoldable pub mark_acked : Text → Exec (Unit {0})
  unfolding ok_to_use statement
  mark_acked id = do
    ok_to_use
    statement d (λ t. some (record t { messages = map (ack_row id) t.messages }))

  -- Returns the number of rows that the update changes, which is asked for in a call of its own.
  unfoldable pub requeue_unacked : Text → Exec ℕ
  unfolding ok_to_use peer_exists statement
  requeue_unacked name = do
    ok_to_use
    exists ← peer_exists name
    guard exists unknown_peer
    n ← gets (λ s. length (keep (in_flight name) s.tables.messages))
    statement d (λ t. some (record t { messages = map (requeue_row name) t.messages }))
    query d (λ t. n)

  unfoldable pub audit_append : AuditRow → Exec (Unit {0})
  unfolding ok_to_use statement now_nanos insert_audit
  audit_append r = do
    ok_to_use
    guard (not (is_empty r.hash || is_empty r.prev_hash)) missing_field
    now ← now_nanos d
    statement d (insert_audit (record r { ts = now }))

  unfoldable pub audit_rows : Exec (List AuditRow)
  unfolding ok_to_use query
  audit_rows = do ok_to_use; query d (λ t. by_seq t.audit)

  unfoldable pub audit_count : Exec ℕ
  unfolding ok_to_use query
  audit_count = do ok_to_use; query d (λ t. length t.audit)

  -- `none` when the log is empty.
  unfoldable pub audit_last : Exec (Option AuditRow)
  unfolding ok_to_use query
  audit_last = do ok_to_use; query d (λ t. newest t.audit)

  unfoldable pub audit_tamper : ℕ → Text → Text → Exec (Unit {0})
  unfolding ok_to_use statement
  audit_tamper seq event hash = do
    ok_to_use
    statement d (λ t. some (record t { audit = map (tamper_row seq event hash) t.audit }))
