-- ===== src/Store/Outcome.antt =====
-- internal/store/store.go: the outcome of `Enqueue`.
use peerbus.Prelude.{ℕ, ◌+◌, ◌≡◌, true, false, [], ◌∷◌, ◌++◌, arith}
use peerbus.Store.{or_zero, new_row, enqueue}
use peerbus.Store.Schema.{Tables, Message, known, holds, next_of, set_next}
use peerbus.Store.Handle.{Driver, Store, Result, ok, err}

-- `m` was inserted, with the next number of its sender.
abbrev pub stored : Message → ℕ → Tables → Tables
stored m ts t = record t {
  messages = t.messages ++ new_row m (or_zero (next_of m.from t.sender_seq)) ts ∷ [];
  sender_seq = set_next m.from (or_zero (next_of m.from t.sender_seq) + 1) t.sender_seq;
}

-- The result of `enqueue m` on `s`: success inserts `m`, and any error leaves the tables alone.
abbrev pub Enqueues : Driver → Message → Store → Result (Unit {0}) × Store → Type 0
Enqueues d m s (ok _, s') =
    (known m.to s.tables.peers ≡ true)
    × (holds m.id s.tables.messages ≡ false)
    × (s'.tables ≡ stored m (d.now (s.calls + 5)) s.tables)
Enqueues d m s (err _, s') = s'.tables ≡ s.tables

module _ (d : Driver) where
  -- Whichever statements fail: if `enqueue` succeeds, the recipient was known and the id new, and the
  -- tables differ by the message, stored with its sender's next number, and by that counter alone; if
  -- it fails, the tables are as before.
  pub enqueue-outcome : (m : Message) (s : Store) → Enqueues d m s (enqueue d m s)
  unfolding enqueue
  enqueue-outcome m s = ground arith
