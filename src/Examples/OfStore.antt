-- ===== src/Examples/OfStore.antt =====
-- internal/store at concrete inputs.
use peerbus.Prelude.{◌≡◌, refl, text, Text-discrete, text_le, ◌&&◌, List, [], ◌∷◌, keep}
use peerbus.Store.{new_row, register, enqueue, pending_for, requeue_unacked, open_empty}
use peerbus.Store.Schema.{
  Message, known, upsert_peer, holds, next_of, set_next, order_by, comes_first, is_pending,
}
use peerbus.Store.Handle.{ok}
use peerbus.Store.Outcome.{Enqueues, enqueue-outcome}
use peerbus.Store.Fifo.{is_from, pending_for_fifo}
use peerbus.Store.History.{
  Call, registers, enqueues, delivers, acks, run_calls, perform, run_calls-IsWellformed,
}
use peerbus.Fixtures.{driver, alice, bob, hello_message, store}

second : Message
second = record hello_message { id = text "m2" }

-- Two messages of alice to bob.
calls : List Call
calls =
    registers bob
    ∷ enqueues hello_message
    ∷ enqueues second
    ∷ delivers (text "m1")
    ∷ acks (text "m2")
    ∷ []

enqueue-outcome_example : Enqueues driver second store (enqueue driver second store)
enqueue-outcome_example = enqueue-outcome driver second store

-- The rows of the two messages, before their delivery.
first_calls : List Call
first_calls = registers bob ∷ enqueues hello_message ∷ enqueues second ∷ []

two_rows : List Message
two_rows = new_row hello_message 0 6 ∷ new_row second 1 13 ∷ []

two_rows-pending :
    (pending_for driver bob (run_calls driver first_calls open_empty)).0 ≡ ok two_rows
unfolding two_rows first_calls second run_calls perform register enqueue pending_for Text-discrete
    known upsert_peer holds next_of set_next order_by comes_first text_le
two_rows-pending = refl

pending_for_fifo_example :
    keep (is_from alice) two_rows
    ≡ keep
        (λ m. is_from alice m && is_pending bob m)
        (run_calls driver first_calls open_empty).tables.messages
pending_for_fifo_example =
    pending_for_fifo driver bob alice (run_calls driver first_calls open_empty) two_rows
      (run_calls-IsWellformed driver first_calls) two_rows-pending

requeued : (requeue_unacked driver bob store).0 ≡ ok 1
unfolding requeue_unacked known Text-discrete
requeued = refl
