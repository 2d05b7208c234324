-- ===== src/Broker/Reconnect.antt =====
-- internal/broker/server.go: the handshake of a peer that has messages in the store.
use peerbus.Prelude.{
  ℕ, ◌≡◌, ◌≢◌, ◌⊎◌, inl, inr, Text, is_empty, true, false, [], ◌∷◌, ◌++◌, Option, none, some, arith,
  ap, ◌∙◌, In, In-append, In-keep,
}
use peerbus.Wire.Envelope.{Envelope, decode}
use peerbus.Wire.Control.{Register, Frame, decode_register}
use peerbus.Store.{register}
use peerbus.Store.Schema.{Message, known, requeue_row, is_pending}
use peerbus.Store.Handle.{Store, ok}
use peerbus.Store.Fifo.{In-order_by}
use peerbus.Store.Invariant.{known-upsert_peer}
use peerbus.Store.Durable.{In-map_requeue}
use peerbus.Broker.Registry.{Binding, Registry, Bound, fresh, taken_over, bind, find}
use peerbus.Broker.Registry.Laws.{bind_cases}
use peerbus.Broker.State.{World, Server, Conn, close_taken_over}
use peerbus.Broker.Router.{deliver_frame, peers_reply}
use peerbus.Broker.Server.{frame, handshake, admit, refusal, welcome, after_register, after_bind}
use peerbus.Broker.Redelivery.{IsQuiet, In-frames, welcome-sent}

-- The name is free, or held under the same token by another connection.
abbrev pub IsClaimable : Register → ℕ → Registry → Type 0
IsClaimable reg c r =
    (b : Binding) → find reg.name r ≡ some b → (b.token ≡ reg.token) × (b.conn ≢ c)

module _ (w : World) (quiet : IsQuiet w) (c : ℕ) (reg : Register) where
  -- What a welcome has written for a message of the store that it found.
  abbrev Redelivers : Message → Envelope → Option Text × Server → Type 0
  Redelivers m env (r, s') = (r ≡ some reg.name) × In (deliver_frame m.id env) (s'.conns c).sent

  welcome-Redelivers :
      (s : Server) (m : Message) (env : Envelope)
      → (s.conns c).closed ≡ false
      → s.store.closed ≡ false
      → known reg.name s.store.tables.peers ≡ true
      → In m s.store.tables.messages
      → m.to ≡ reg.name
      → m.acked ≡ false
      → decode m.envelope ≡ some env
      → Redelivers m env (welcome w c reg s)
  welcome-Redelivers s m env o so k i to unacked e =
      let (r, sent) = welcome-sent w quiet c reg s o so k in
      let m' : Message = requeue_row reg.name m in
      let pending : is_pending reg.name m' ≡ true = ground arith in
      let key : m'.id ≡ m.id = ground arith in
      let readable : decode m'.envelope ≡ some env = ground arith in
      let found =
        In-frames m' env _
          (In-order_by m' _ (
            In-keep (is_pending reg.name) m' _ (In-map_requeue reg.name m s.store.tables.messages i)
              pending))
          readable in
      (r, rw sent (In-append _ ((s.conns c).sent ++ peers_reply s ∷ []) _ (inr (rw key at found))))

  register-quiet :
      (st : Store)
      → st.closed ≡ false
      → is_empty reg.name ≡ false
      → ((register w.driver reg.name st).0 ≡ ok tt)
        × ((register w.driver reg.name st).1.closed ≡ false)
        × ((register w.driver reg.name st).1.tables.messages ≡ st.tables.messages)
        × (known reg.name (register w.driver reg.name st).1.tables.peers ≡ true)
  unfolding register
  register-quiet st o n = ground (
    arith,
    quiet.driver st.calls,
    known-upsert_peer reg.name reg.name (w.driver.now st.calls) st.tables.peers,
  )

  bound-Redelivers :
      (o : Bound) (s : Server) (m : Message) (env : Envelope)
      → (o ≡ fresh) ⊎ ((old : ℕ) × (o ≡ taken_over old) × (old ≢ c))
      → (s.conns c).closed ≡ false
      → s.store.closed ≡ false
      → known reg.name s.store.tables.peers ≡ true
      → In m s.store.tables.messages
      → m.to ≡ reg.name
      → m.acked ≡ false
      → decode m.envelope ≡ some env
      → Redelivers m env (after_bind w o c reg s)
  unfolding after_bind
  bound-Redelivers o s m env (inl b) live so k i to unacked e =
      rw b (welcome-Redelivers s m env live so k i to unacked e)
  bound-Redelivers o s m env (inr (old, b, other)) live so k i to unacked e =
      let s' : Server = close_taken_over old s in
      let (same_conn, same_store) = untouched old s other in
      rw b (
        welcome-Redelivers s' m env (ap (λ (x : Conn). x.closed) same_conn ∙ live)
          (ap (λ (x : Store). x.closed) same_store ∙ so)
          (ap (λ (x : Store). known reg.name x.tables.peers) same_store ∙ k) (rw same_store i) to
          unacked e)
    where
      untouched :
          (old : ℕ) (s : Server)
          → old ≢ c
          → ((close_taken_over old s).conns c ≡ s.conns c)
            × ((close_taken_over old s).store ≡ s.store)
      untouched old s other = unfold close_taken_over in ground arith

  claim :
      (r : Registry)
      → IsClaimable reg c r
      → let o = (bind (record { name = reg.name; token = reg.token; conn = c }) r).0 in
        (o ≡ fresh) ⊎ ((old : ℕ) × (o ≡ taken_over old) × (old ≢ c))
  claim r h = elim (bind_cases (record { name = reg.name; token = reg.token; conn = c }) r) [
    | inl (_, o, _) ↦ inl o
    | inr (inl (x, held, _, o, _)) ↦ inr (x.conn, o, (h x held).1)
    | inr (inr (x, held, other, _, _)) ↦ absurd (other (h x held).0)
  ]

  -- On a broker where no statement and no write fails, a register frame that passes the checks, for
  -- a name that is free or held under the same token by another connection, succeeds, and every
  -- message of the store to that name which is not acked and whose envelope can be read is written
  -- to the new connection, under its row's key.
  pub handshake_redelivers :
      (f : Frame) (s : Server) (m : Message) (env : Envelope)
      → decode_register f ≡ some reg
      → refusal s reg ≡ none
      → IsClaimable reg c s.registry
      → (s.conns c).closed ≡ false
      → s.store.closed ≡ false
      → In m s.store.tables.messages
      → m.to ≡ reg.name
      → m.acked ≡ false
      → decode m.envelope ≡ some env
      → let (r, s') = handshake w c (frame f) s in
        (r ≡ some reg.name) × In (deliver_frame m.id env) (s'.conns c).sent
  handshake_redelivers f s m env decoded passes h live so i to unacked e =
      let named : is_empty reg.name ≡ false = unfold refusal in ground arith in
      let (done, open_, messages, k) = register-quiet s.store so named in
      let b : Binding = record { name = reg.name; token = reg.token; conn = c } in
      let s' : Server = record s {
        registry = (bind b s.registry).1;
        store = (register w.driver reg.name s.store).1;
      } in
      let welcomed =
        bound-Redelivers (bind b s.registry).0 s' m env (claim s.registry h) live open_ k
          (rw messages i) to unacked e in
      unfold handshake admit after_register in rw (decoded, passes, done) welcomed
