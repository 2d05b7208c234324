-- ===== src/Broker/Redelivery.antt =====
-- internal/broker/server.go: the frames that the flush of a handshake writes.
use mathlib.Core.List.{append_assoc, append-nil}
use mathlib.Core.Path.{ap₂}
use peerbus.Prelude.{
  ℕ, ◌+◌, ◌≡◌, inl, inr, Text, true, false, List, [], ◌∷◌, ◌++◌, map, Option, none, some, arith, ap,
  sym, ◌∙◌, In, keep, Option-cases,
}
use peerbus.Wire.Json.{Json}
use peerbus.Wire.Envelope.{Envelope, decode}
use peerbus.Wire.Control.{Register}
use peerbus.Store.{requeue_unacked, pending_for}
use peerbus.Store.Schema.{Message, known, requeue_row, is_pending, order_by}
use peerbus.Store.Handle.{Store, ok}
use peerbus.Broker.State.{World, Server, set_conn, write_json, audit_event}
use peerbus.Broker.Router.{deliver_frame, push, mark_and_audit, peers_reply}
use peerbus.Broker.Server.{flush, flush_pending, flush_rows, welcome}

-- No statement and no write fails.
pub record IsQuiet (w : World) : Type 0 where
  pub driver : (n : ℕ) → w.driver.fails n ≡ false
  pub network : (n : ℕ) → w.write_fails n ≡ false

-- The frames for the rows whose envelope can be read.
pub frames : List Message → List Json
frames [] = []
frames (m ∷ ms) = elim (decode m.envelope) [
  | none ↦ frames ms
  | some env ↦ deliver_frame m.id env ∷ frames ms
]

pub In-frames :
    (m : Message) (env : Envelope) (ms : List Message)
    → In m ms
    → decode m.envelope ≡ some env
    → In (deliver_frame m.id env) (frames ms)
unfolding frames
In-frames m env [] h e = absurd h
In-frames m env (x ∷ ms) (inl p) e =
    let q : decode x.envelope ≡ some env = cc in
    rw (q, frames) (inl (ap (λ i. deliver_frame i env) (ap (λ (y : Message). y.id) p)))
In-frames m env (x ∷ ms) (inr h) e = elim (Option-cases (decode x.envelope)) [
  | inl q ↦ rw (q, frames) (In-frames m env ms h e)
  | inr (_, q) ↦ rw (q, frames) (inr (In-frames m env ms h e))
]

module _ (w : World) (quiet : IsQuiet w) where
  conns-mark_and_audit :
      (m : Message) (r : Text) (s : Server) → (mark_and_audit w m r s).conns ≡ s.conns
  unfolding mark_and_audit audit_event
  conns-mark_and_audit m r s = ground arith

  -- A push on an open connection writes one frame, and the connection stays open.
  pub push-sent :
      (c : ℕ) (r : Text) (m : Message) (env : Envelope) (s : Server)
      → (s.conns c).closed ≡ false
      → ((push w c r m env s).0 ≡ true)
        × (((push w c r m env s).1.conns c).sent ≡ (s.conns c).sent ++ deliver_frame m.id env ∷ [])
        × (((push w c r m env s).1.conns c).closed ≡ false)
  unfolding push write_json
  push-sent c r m env s o =
      let s' : Server = (write_json w c (deliver_frame m.id env) s).1 in
      ground (arith, quiet.network s.writes, conns-mark_and_audit m r s')

  flush-sent :
      (c : ℕ) (ms : List Message) (s : Server)
      → (s.conns c).closed ≡ false
      → ((flush w c ms s).conns c).sent ≡ (s.conns c).sent ++ frames ms
  unfolding flush frames
  flush-sent c [] s o = sym (append-nil (s.conns c).sent)
  flush-sent c (m ∷ ms) s o = elim (Option-cases (decode m.envelope)) [
    | inl e ↦ rw (e, flush, frames) (flush-sent c ms s o)
    | inr (env, e) ↦
        let (done, sent, open_) = push-sent c (s.conns c).name m env s o in
        rw (e, flush, frames, done)
          (flush-sent c ms (push w c (s.conns c).name m env s).1 open_
            ∙ ap (λ x. x ++ frames ms) sent
            ∙ append_assoc (s.conns c).sent (deliver_frame m.id env ∷ []) (frames ms))
  ]

  -- A requeue and a query on a store that is open.
  requeue-quiet :
      (n : Text) (st : Store)
      → st.closed ≡ false
      → known n st.tables.peers ≡ true
      → ((requeue_unacked w.driver n st).1.tables.messages ≡ map (requeue_row n) st.tables.messages)
        × ((requeue_unacked w.driver n st).1.closed ≡ false)
        × ((requeue_unacked w.driver n st).1.tables.peers ≡ st.tables.peers)
  unfolding requeue_unacked
  requeue-quiet n st o k =
      ground
        (arith, quiet.driver st.calls, quiet.driver (st.calls + 1), quiet.driver (st.calls + 1 + 1))

  pending-quiet :
      (n : Text) (st : Store)
      → st.closed ≡ false
      → known n st.tables.peers ≡ true
      → (pending_for w.driver n st).0 ≡ ok (order_by (keep (is_pending n) st.tables.messages))
  unfolding pending_for
  pending-quiet n st o k = ground (arith, quiet.driver st.calls, quiet.driver (st.calls + 1))

  flush_pending-sent :
      (c : ℕ) (s : Server)
      → (s.conns c).closed ≡ false
      → s.store.closed ≡ false
      → known (s.conns c).name s.store.tables.peers ≡ true
      → ((flush_pending w c s).conns c).sent
        ≡ (s.conns c).sent
          ++ frames (order_by (keep (is_pending (s.conns c).name) s.store.tables.messages))
  unfolding flush_pending
  flush_pending-sent c s o so k =
      rw (pending-quiet (s.conns c).name s.store so k, flush_rows)
        (flush-sent c _ (record s { store = (pending_for w.driver (s.conns c).name s.store).1 }) o)

  -- The state in which `welcome` flushes.
  requeued : Register → Server → Server
  requeued reg s = record s { store = (requeue_unacked w.driver reg.name s.store).1 }

  greeted : ℕ → Register → Server → Server
  unfolding requeued
  greeted c reg s =
      let s' : Server = (write_json w c (peers_reply s) (requeued reg s)).1 in
      set_conn c (record (s'.conns c) { name = reg.name }) s'

  welcome-eq :
      (c : ℕ) (reg : Register) (s : Server)
      → (s.conns c).closed ≡ false
      → welcome w c reg s ≡ (some reg.name, flush_pending w c (greeted c reg s))
  unfolding welcome greeted
  welcome-eq c reg s o =
      let done : (write_json w c (peers_reply s) (requeued reg s)).0 ≡ true =
        unfold write_json in ground (arith, quiet.network s.writes) in
      rw (done, welcome)

  greeted-conn :
      (c : ℕ) (reg : Register) (s : Server)
      → (s.conns c).closed ≡ false
      → (((greeted c reg s).conns c).sent ≡ (s.conns c).sent ++ peers_reply s ∷ [])
        × (((greeted c reg s).conns c).closed ≡ false)
        × (((greeted c reg s).conns c).name ≡ reg.name)
        × ((greeted c reg s).store ≡ (requeue_unacked w.driver reg.name s.store).1)
  unfolding greeted write_json
  greeted-conn c reg s o = ground (arith, quiet.network s.writes)

  -- The frames that `welcome` writes: the reply with the peers, then every pending row.
  pub welcome-sent :
      (c : ℕ) (reg : Register) (s : Server)
      → (s.conns c).closed ≡ false
      → s.store.closed ≡ false
      → known reg.name s.store.tables.peers ≡ true
      → ((welcome w c reg s).0 ≡ some reg.name)
        × (((welcome w c reg s).1.conns c).sent
            ≡ ((s.conns c).sent ++ peers_reply s ∷ [])
              ++ frames (
                  order_by (
                    keep
                      (is_pending reg.name)
                      (map (requeue_row reg.name) s.store.tables.messages))))
  welcome-sent c reg s o so k =
      let (messages, open_, peers) = requeue-quiet reg.name s.store so k in
      let (sent, live, name, store) = greeted-conn c reg s o in
      let flushed =
        flush_pending-sent c (greeted c reg s) live (ap (λ (x : Store). x.closed) store ∙ open_)
          (known_of name store peers k) in
      (
        ap (λ (x : Option Text × Server). x.0) (welcome-eq c reg s o),
        ap (λ (x : Option Text × Server). (x.1.conns c).sent) (welcome-eq c reg s o)
            ∙ flushed
            ∙ cc (sent, name, ap (λ (x : Store). x.tables.messages) store, messages),
      )
    where
      known_of :
          ((greeted c reg s).conns c).name ≡ reg.name
          → (greeted c reg s).store ≡ (requeue_unacked w.driver reg.name s.store).1
          → (requeue_unacked w.driver reg.name s.store).1.tables.peers ≡ s.store.tables.peers
          → known reg.name s.store.tables.peers ≡ true
          → known ((greeted c reg s).conns c).name (greeted c reg s).store.tables.peers ≡ true
      known_of a b e k = ap₂ known a (ap (λ (x : Store). x.tables.peers) b ∙ e) ∙ k
