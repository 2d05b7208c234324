-- ===== src/Store/History.antt =====
-- internal/store/store.go: histories of a store, any calls in any order under any driver.
use peerbus.Prelude.{◌≡◌, Text, true, List, [], ◌∷◌, arith}
use peerbus.Store.{
  register, enqueue, pending_for, mark_delivered, mark_acked, requeue_unacked, close, open_empty,
}
use peerbus.Store.Schema.{Message}
use peerbus.Store.Changes.{
  Changes, here, Changes-trans, register-Changes, enqueue-Changes, mark_delivered-Changes,
  mark_acked-Changes, requeue_unacked-Changes, tables-pending_for,
}
use peerbus.Store.Invariant.{IsWellformed, Changes-IsWellformed, no_rows-IsWellformed}
use peerbus.Store.Durable.{Carries, Changes-Carries}
use peerbus.Store.Handle.{Driver, Store, err, closed_store}

pub data Call : Type 0 where
  registers delivers acks requeues reads : Text → Call
  enqueues : Message → Call
  closes : Call

-- The handle after a call, whether it succeeds or fails.
unfoldable pub perform : Driver → Call → Store → Store
perform d (registers n) s = (register d n s).1
perform d (delivers i) s = (mark_delivered d i s).1
perform d (acks i) s = (mark_acked d i s).1
perform d (requeues n) s = (requeue_unacked d n s).1
perform d (reads n) s = (pending_for d n s).1
perform d (enqueues m) s = (enqueue d m s).1
perform d closes s = (close s).1

unfoldable pub run_calls : Driver → List Call → Store → Store
unfolding perform
run_calls d [] s = s
run_calls d (c ∷ cs) s = run_calls d cs (perform d c s)

perform-Changes : (d : Driver) (c : Call) (s : Store) → Changes s.tables (perform d c s).tables
unfolding perform close
perform-Changes d (registers n) s = register-Changes d s n
perform-Changes d (delivers i) s = mark_delivered-Changes d s i
perform-Changes d (acks i) s = mark_acked-Changes d s i
perform-Changes d (requeues n) s = requeue_unacked-Changes d s n
perform-Changes d (reads n) s = rw tables-pending_for here
perform-Changes d (enqueues m) s = enqueue-Changes d s m
perform-Changes d closes s = let e : (close s).1.tables ≡ s.tables = ground arith in rw e here

pub run_calls-Changes :
    (d : Driver) (cs : List Call) (s : Store) → Changes s.tables (run_calls d cs s).tables
unfolding run_calls
run_calls-Changes d [] s = here
run_calls-Changes d (c ∷ cs) s =
    Changes-trans (perform-Changes d c s) (run_calls-Changes d cs (perform d c s))

-- Whatever calls were made of a new store, and whichever statements failed, ids are unique, every
-- message is to a registered peer, and each sender's numbers rise in the order of insertion and lie
-- below its counter.
pub run_calls-IsWellformed :
    (d : Driver) (cs : List Call) → IsWellformed (run_calls d cs open_empty).tables
run_calls-IsWellformed d cs =
    Changes-IsWellformed no_rows-IsWellformed (run_calls-Changes d cs open_empty)

-- Whatever calls follow, and whichever statements fail, every row stays at its place with its id,
-- sender, recipient, envelope, number and time, its attempts never fall, and an acked row stays
-- acked.
pub run_calls-Carries :
    (d : Driver) (cs : List Call) (s : Store)
    → Carries s.tables.messages (run_calls d cs s).tables.messages
run_calls-Carries d cs s = Changes-Carries (run_calls-Changes d cs s)

-- A closed store refuses every call that returns an error, and changes nothing.
pub closed_store_refuses :
    (d : Driver) (n : Text) (m : Message) (s : Store)
    → s.closed ≡ true
    → (register d n s ≡ (err closed_store, s))
      × (enqueue d m s ≡ (err closed_store, s))
      × (pending_for d n s ≡ (err closed_store, s))
      × (mark_delivered d n s ≡ (err closed_store, s))
      × (mark_acked d n s ≡ (err closed_store, s))
      × (requeue_unacked d n s ≡ (err closed_store, s))
unfolding register enqueue pending_for mark_delivered mark_acked requeue_unacked
closed_store_refuses d n m s h = (rw h, rw h, rw h, rw h, rw h, rw h)
