-- ===== src/Broker/Threads/Good.antt =====
-- internal/broker: the atomic steps, and the push of a row, keep to the contract.
use peerbus.Prelude.{
  ℕ, ◌≡◌, inl, inr, Text, text, Bool, true, false, [], ◌∷◌, arith, refl, In, In-append, Bool-cases,
}
use peerbus.Wire.Json.{Json}
use peerbus.Wire.Envelope.{Envelope}
use peerbus.Store.{mark_delivered}
use peerbus.Store.Schema.{Tables, Message}
use peerbus.Store.Handle.{Store}
use peerbus.Store.Changes.{Changes, mark_delivered-Changes}
use peerbus.Store.Delivered.{FromDelivered, mark_delivered-FromDelivered}
use peerbus.Broker.State.{World, Server, write_json}
use peerbus.Broker.Router.{deliver_frame}
use peerbus.Broker.Keeps.{IsKept}
use peerbus.Broker.Threads.{Prog, step, look, atomic, call, write, audit}
use peerbus.Broker.Threads.Router.{push}
use peerbus.Broker.Threads.Soundness.{Good, Good-stable}
use peerbus.Broker.Threads.Contract.{WasSent, Inv, Grows, Grows-trans, Own, contract}
use peerbus.Broker.Threads.Moves.{Moves, here-Moves, store-Moves, write-Moves, audit-Moves}

module _ (w : World) (T : Tables → Type 0) (k : IsKept w T) (i : ℕ) where
  -- The goroutine `i` keeps to the contract from the state on.
  abbrev pub Keeps : Prog → Server → Type 0
  Keeps p s = Good (contract T) i p s

  -- What the goroutine knows of a later state.
  abbrev pub Later : Server → Server → Type 0
  Later s t = Grows s t × Own i s t × Inv T t

  pub later : (p : Prog) (s t : Server) → Later s t → Keeps p s → Keeps p t
  later p s t (g, o, v) h = Good-stable (contract T) i p s t g o h

  -- A step that leaves the registry alone.
  pub step-Keeps :
      (f : Server → Server) (next : Server → Prog) (s : Server)
      → ((t : Server) → Later s t → Moves T t (f t) × (Later s (f t) → Keeps (next t) (f t)))
      → Keeps (step f next) s
  unfolding Good
  step-Keeps f next s h = λ t g o v.
      let (m, rest) = h t (g, o, v) in
      let own : (j : ℕ) → Own j t (f t) = λ j n b found e. rw m.registry at found in
      (
        m.inv,
        m.grows,
        λ j other. own j,
        rest (Grows-trans s t (f t) g m.grows, λ n b found e. o n b (own i n b found e) e, m.inv),
      )

  pub look-Keeps :
      {A : Type 0} (g : Server → A) (next : A → Prog) (s : Server)
      → ((t : Server) → Later s t → Keeps (next (g t)) t)
      → Keeps (look g next) s
  unfolding look
  look-Keeps g next s h =
      step-Keeps (λ t. t) (λ t. next (g t)) s (λ t l. (here-Moves w T k t l.2, λ l'. h t l'))

  pub atomic-Keeps :
      (f : Server → Server) (next : Prog) (s : Server)
      → ((t : Server) → Inv T t → Moves T t (f t))
      → ((t : Server) → Later s t → Keeps next t)
      → Keeps (atomic f next) s
  unfolding atomic
  atomic-Keeps f next s m h = step-Keeps f (λ t. next) s (λ t l. (m t l.2, λ l'. h (f t) l'))

  -- A call of the store that marks no row as delivered but those that were sent.
  pub call-Keeps :
      {A : Type 0} (op : Store → A × Store) (new : Message → Type 0) (next : A → Prog) (s : Server)
      → ((st : Store) → Changes st.tables (op st).1.tables)
      → ((st : Store) → FromDelivered new st.tables.messages (op st).1.tables.messages)
      → ((t : Server) → Later s t → (m : Message) → new m → WasSent m.id t)
      → ((a : A) (t : Server) → Later s t → Keeps (next a) t)
      → Keeps (call op next) s
  unfolding call
  call-Keeps op new next s c from sent h =
      step-Keeps (λ t. record t { store = (op t.store).1 }) (λ t. next (op t.store).0) s
        (λ t l. (
          store-Moves w T k t l.2 new (op t.store).1 (c t.store) (from t.store) (sent t l),
          λ l'. h (op t.store).0 _ l',
        ))

  pub audit-Keeps :
      (kind id from to : Text) (next : Prog) (s : Server)
      → Keeps next s
      → Keeps (audit w kind id from to next) s
  unfolding audit
  audit-Keeps kind id from to next s h =
      atomic-Keeps _ next s (λ t v. audit-Moves w T k t v kind id from to)
        (λ t l. later next s t l h)

  write_json-sent :
      (c : ℕ) (j : Json) (s : Server)
      → (write_json w c j s).0 ≡ true
      → In j ((write_json w c j s).1.conns c).sent
  unfolding write_json
  write_json-sent c j s e = ground (arith, In-append j (s.conns c).sent (j ∷ []) (inr (inl refl)))

  -- After a write that succeeded the frame is among those of the connection.
  pub write-Keeps :
      (c : ℕ) (j : Json) (next : Bool → Prog) (s : Server)
      → ((t : Server) → Later s t → In j (t.conns c).sent → Keeps (next true) t)
      → ((t : Server) → Later s t → Keeps (next false) t)
      → Keeps (write w c j next) s
  unfolding write
  write-Keeps c j next s sent failed =
      step-Keeps (λ t. (write_json w c j t).1) (λ t. next (write_json w c j t).0) s
        (λ t l. (write-Moves w T k t l.2 c j, wrote t))
    where
      wrote :
          (t : Server)
          → Later s (write_json w c j t).1
          → Keeps (next (write_json w c j t).0) (write_json w c j t).1
      wrote t l = elim (Bool-cases (write_json w c j t).0) [
        | inl e ↦ rw e (sent _ l (write_json-sent c j t e))
        | inr e ↦ rw e (failed _ l)
      ]

  -- A row is marked as delivered only once it was written.
  pub push-Keeps :
      (c : ℕ) (r : Text) (m : Message) (env : Envelope) (next : Bool → Prog) (s : Server)
      → ((sent : Bool) → Keeps (next sent) s)
      → Keeps (push w c r m env next) s
  unfolding push
  push-Keeps c r m env next s h =
      write-Keeps c (deliver_frame m.id env) _ s
        (λ t l sent.
          call-Keeps (mark_delivered w.driver m.id) (λ x. x.id ≡ m.id) _ t
            (λ st. mark_delivered-Changes w.driver st m.id)
            (λ st. mark_delivered-FromDelivered w.driver st m.id)
            (λ u l' x e. rw e (c, env, l'.0.sent c _ sent))
            (λ a u l'.
              audit-Keeps (text "deliver") m.id m.from r (next true) u
                (later (next true) t u l' (later (next true) s t l (h true)))))
        (λ t l. later (next false) s t l (h false))
