-- ===== src/Store/Schema.antt =====
-- internal/store/schema.sql and the SQL statements of internal/store/store.go, over tables as lists.
-- A table lists its rows in the order of insertion.
use peerbus.Prelude.{
  ℕ, ◌+◌, Text, same, text_le, Bool, true, false, not, ◌&&◌, List, [], ◌∷◌, ◌++◌, Option, none,
  some, ltb, leb, ◌==◌, if◌then◌else◌,
}
use peerbus.Wire.Json.{Json}

pub record PeerRow : Type 0 where
  pub name : Text
  pub registered : ℕ
  pub ts : ℕ

pub record Message : Type 0 where
  pub id : Text
  pub from : Text
  pub to : Text
  pub envelope : Json
  pub delivered : Bool
  pub acked : Bool
  pub attempts : ℕ
  pub seq : ℕ
  pub ts : ℕ

pub record SeqRow : Type 0 where
  pub sender : Text
  pub next : ℕ

pub record AuditRow : Type 0 where
  pub seq : ℕ
  pub prev_hash : Text
  pub hash : Text
  pub event : Text
  pub ts : ℕ

pub record Tables : Type 0 where
  pub peers : List PeerRow
  pub messages : List Message
  pub sender_seq : List SeqRow
  pub audit : List AuditRow

abbrev pub no_rows : Tables
no_rows = record { peers = []; messages = []; sender_seq = []; audit = [] }

-- SELECT 1 FROM peers WHERE name = ?
unfoldable pub known : Text → List PeerRow → Bool
known n [] = false
known n (p ∷ ps) = if same p.name n then true else known n ps

-- INSERT INTO peers ... ON CONFLICT(name) DO UPDATE SET registered = excluded.registered
unfoldable pub upsert_peer : Text → ℕ → List PeerRow → List PeerRow
upsert_peer n now [] = record { name = n; registered = now; ts = now } ∷ []
upsert_peer n now (p ∷ ps) =
    if same p.name n then record p { registered = now } ∷ ps else p ∷ upsert_peer n now ps

-- SELECT 1 FROM messages WHERE id = ?
unfoldable pub holds : Text → List Message → Bool
holds i [] = false
holds i (m ∷ ms) = if same m.id i then true else holds i ms

-- SELECT next FROM sender_seq WHERE sender = ?
unfoldable pub next_of : Text → List SeqRow → Option ℕ
next_of s [] = none
next_of s (r ∷ rs) = if same r.sender s then some r.next else next_of s rs

-- INSERT INTO sender_seq ... ON CONFLICT(sender) DO UPDATE SET next = excluded.next
unfoldable pub set_next : Text → ℕ → List SeqRow → List SeqRow
set_next s n [] = record { sender = s; next = n } ∷ []
set_next s n (r ∷ rs) = if same r.sender s then record r { next = n } ∷ rs else r ∷ set_next s n rs

-- INSERT INTO messages, refused by the UNIQUE constraint on id.
unfoldable pub insert_message : Message → Tables → Option Tables
insert_message m t =
    if holds m.id t.messages then none else some (record t { messages = t.messages ++ m ∷ [] })

-- UPDATE messages SET delivered = 1, attempts = attempts + 1 WHERE id = ?
abbrev pub deliver_row : Text → Message → Message
deliver_row i m =
    if same m.id i then record m { delivered = true; attempts = m.attempts + 1 } else m

-- UPDATE messages SET acked = 1 WHERE id = ?
abbrev pub ack_row : Text → Message → Message
ack_row i m = if same m.id i then record m { acked = true } else m

-- WHERE recipient = ? AND delivered = 1 AND acked = 0
abbrev pub in_flight : Text → Message → Bool
in_flight n m = same m.to n && (m.delivered && not m.acked)

-- UPDATE messages SET delivered = 0
abbrev pub requeue_row : Text → Message → Message
requeue_row n m = if in_flight n m then record m { delivered = false } else m

-- WHERE recipient = ? AND delivered = 0
abbrev pub is_pending : Text → Message → Bool
is_pending n m = same m.to n && not m.delivered

-- ORDER BY sender ASC, seq ASC, ts ASC
unfoldable pub comes_first : Message → Message → Bool
comes_first a b =
    if same a.from b.from
    then if ltb a.seq b.seq then true else if a.seq == b.seq then leb a.ts b.ts else false
    else text_le a.from b.from

unfoldable pub insert_sorted : Message → List Message → List Message
insert_sorted m [] = m ∷ []
insert_sorted m (x ∷ xs) =
    let rest = insert_sorted m xs in if comes_first m x then m ∷ x ∷ xs else x ∷ rest

unfoldable pub order_by : List Message → List Message
unfolding insert_sorted
order_by [] = []
order_by (m ∷ ms) = insert_sorted m (order_by ms)

-- INSERT INTO audit, refused by the UNIQUE constraint on seq.
unfoldable pub has_seq : ℕ → List AuditRow → Bool
has_seq n [] = false
has_seq n (r ∷ rs) = if r.seq == n then true else has_seq n rs

unfoldable pub insert_audit : AuditRow → Tables → Option Tables
unfolding has_seq
insert_audit r t =
    if has_seq r.seq t.audit then none else some (record t { audit = t.audit ++ r ∷ [] })

-- SELECT ... FROM audit ORDER BY seq ASC
unfoldable pub insert_by_seq : AuditRow → List AuditRow → List AuditRow
insert_by_seq r [] = r ∷ []
insert_by_seq r (x ∷ xs) =
    let rest = insert_by_seq r xs in if leb r.seq x.seq then r ∷ x ∷ xs else x ∷ rest

unfoldable pub by_seq : List AuditRow → List AuditRow
unfolding insert_by_seq
by_seq [] = []
by_seq (r ∷ rs) = insert_by_seq r (by_seq rs)

-- SELECT ... FROM audit ORDER BY seq DESC LIMIT 1
unfoldable pub newest : List AuditRow → Option AuditRow
newest [] = none
newest (r ∷ rs) = elim (newest rs) [
  | none ↦ some r
  | some x ↦ if ltb r.seq x.seq then some x else some r
]

-- UPDATE audit SET event = ?, hash = ? WHERE seq = ?
abbrev pub tamper_row : ℕ → Text → Text → AuditRow → AuditRow
tamper_row n event hash r = if r.seq == n then record r { event = event; hash = hash } else r
