-- ===== src/Store/Changes.antt =====
-- internal/store/store.go: the changes that its calls make to the tables of the queue, one
-- constructor for each.
use peerbus.Prelude.{ℕ, ◌≡◌, ◌⊎◌, inl, inr, Text, true, false, map, arith, refl}
use peerbus.Store.{
  register, enqueue, pending_for, mark_delivered, mark_acked, requeue_unacked, audit_last,
}
use peerbus.Store.Outcome.{stored, Enqueues, enqueue-outcome}
use peerbus.Store.Schema.{
  Tables, Message, known, holds, upsert_peer, deliver_row, ack_row, requeue_row,
}
use peerbus.Store.Handle.{Driver, Store, Result, ok, err}

pub data Change : Tables → Tables → Type 0 where
  registers :
      (n : Text) (now : ℕ) (t : Tables) → Change t (record t { peers = upsert_peer n now t.peers })
  stores :
      (m : Message) (ts : ℕ) (t : Tables)
      → known m.to t.peers ≡ true
      → holds m.id t.messages ≡ false
      → Change t (stored m ts t)
  delivers :
      (i : Text) (t : Tables) → Change t (record t { messages = map (deliver_row i) t.messages })
  acks : (i : Text) (t : Tables) → Change t (record t { messages = map (ack_row i) t.messages })
  requeues :
      (n : Text) (t : Tables) → Change t (record t { messages = map (requeue_row n) t.messages })

pub audit-Change : {t u : Tables} → Change t u → u.audit ≡ t.audit
audit-Change (registers n now t) = refl
audit-Change (stores m ts t k h) = refl
audit-Change (delivers i t) = refl
audit-Change (acks i t) = refl
audit-Change (requeues n t) = refl

pub data Changes (t : Tables) : Tables → Type 0 where
  here : Changes t t
  next : {u v : Tables} → Changes t u → Change u v → Changes t v

pub Changes-trans : {t u v : Tables} → Changes t u → Changes u v → Changes t v
Changes-trans p here = p
Changes-trans p (next q c) = next (Changes-trans p q) c

-- A call makes one change or none.
pub one_or_none : {t u v : Tables} → (v ≡ t) ⊎ (v ≡ u) → Change t u → Changes t v
one_or_none (inl e) c = rw e here
one_or_none (inr e) c = rw e (next here c)

module _ (d : Driver) (s : Store) where
  pub register-Changes : (n : Text) → Changes s.tables (register d n s).1.tables
  unfolding register
  register-Changes n =
      one_or_none {u = record s.tables { peers = upsert_peer n (d.now s.calls) s.tables.peers }}
        (ground arith) (registers n (d.now s.calls) s.tables)

  enqueued :
      (m : Message) (r : Result (Unit {0}) × Store) → Enqueues d m s r → Changes s.tables r.1.tables
  enqueued m (ok _, s') (k, h, e) = rw e (next here (stores m _ s.tables k h))
  enqueued m (err _, s') e = rw e here

  pub enqueue-Changes : (m : Message) → Changes s.tables (enqueue d m s).1.tables
  enqueue-Changes m = enqueued m (enqueue d m s) (enqueue-outcome d m s)

  pub mark_delivered-Changes : (i : Text) → Changes s.tables (mark_delivered d i s).1.tables
  unfolding mark_delivered
  mark_delivered-Changes i = one_or_none (ground arith) (delivers i s.tables)

  pub mark_acked-Changes : (i : Text) → Changes s.tables (mark_acked d i s).1.tables
  unfolding mark_acked
  mark_acked-Changes i = one_or_none (ground arith) (acks i s.tables)

  pub requeue_unacked-Changes : (n : Text) → Changes s.tables (requeue_unacked d n s).1.tables
  unfolding requeue_unacked
  requeue_unacked-Changes n = one_or_none (ground arith) (requeues n s.tables)

  pub tables-pending_for : (n : Text) → (pending_for d n s).1.tables ≡ s.tables
  unfolding pending_for
  tables-pending_for n = ground arith

  pub tables-audit_last : (audit_last d s).1.tables ≡ s.tables
  unfolding audit_last
  tables-audit_last = ground arith
