-- ===== src/Broker/Provenance.antt =====
-- internal/broker/router.go: the rows that its calls add to the store.
pub mod Broadcast
pub mod Sender
use peerbus.Prelude.{
  ℕ, ◌≡◌, ◌≢◌, ◌⊎◌, inl, inr, Text, text, same, is_empty, Bool, true, false, ◌||◌, List, [], ◌∷◌,
  ◌++◌, map, Option, none, some, arith, refl, ◌∙◌, sym, ap, In, In-append, Option-cases, Bool-cases,
  if◌then◌else◌, Text-discrete,
}
use peerbus.Wire.Json.{Json}
use peerbus.Wire.Envelope.{Envelope, decode, encode, kind_broadcast}
use peerbus.Wire.Control.{
  Frame, Ack, control_ack, control_peers, control_register, control_deliver, control_type_of,
  decode_ack,
}
use peerbus.Store.{enqueue, mark_delivered, mark_acked, new_row}
use peerbus.Store.Schema.{Message, Tables, deliver_row, ack_row}
use peerbus.Store.Handle.{Driver, Store, Result, ok, err}
use peerbus.Store.Durable.{
  Evolves, Evolves-refl, Evolves-trans, deliver_row-Evolves, ack_row-Evolves,
}
use peerbus.Store.Outcome.{Enqueues, enqueue-outcome}
use peerbus.Audit.{append}
use peerbus.Audit.Chain.{append-queue}
use peerbus.Broker.Registry.{get, names}
use peerbus.Broker.State.{World, Server, write_json, audit_event}
use peerbus.Broker.Router.{
  message, row_id, after_enqueue, after_ack, route_typed, push, mark_and_audit, deliver_to,
  send_row, fan_out, route_direct, route_broadcast, route_envelope, handle_ack, handle_peers,
  route_ack, route_data, route_frame, deliver_frame, peers_reply,
}

-- `P` is about what no later state of a row changes.
abbrev pub IsStable : (Message → Type 0) → Type 0
IsStable P = (x y : Message) → Evolves x y → P x → P y

-- Every row of `ys` is a later state of a row of `xs`, or is new and has `P`.
abbrev pub Adds : (Message → Type 0) → List Message → List Message → Type 0
Adds P xs ys = (y : Message) → In y ys → ((x : Message) × In x xs × Evolves x y) ⊎ P y

pub Adds-refl : (P : Message → Type 0) (xs : List Message) → Adds P xs xs
Adds-refl P xs y h = inl (y, h, Evolves-refl y)

pub Adds-trans :
    (P : Message → Type 0) (xs ys zs : List Message)
    → IsStable P
    → Adds P xs ys
    → Adds P ys zs
    → Adds P xs zs
Adds-trans P xs ys zs stable p q z h = elim (q z h) [
  | inr new ↦ inr new
  | inl (y, i, v) ↦ elim (p y i) [
    | inr new ↦ inr (stable y z v new)
    | inl (x, j, u) ↦ inl (x, j, Evolves-trans x y z u v)
  ]
]

In-map :
    (f : Message → Message) (y : Message) (xs : List Message)
    → In y (map f xs)
    → (x : Message) × In x xs × (y ≡ f x)
In-map f y [] h = absurd h
In-map f y (x ∷ xs) (inl e) = (x, inl refl, e)
In-map f y (x ∷ xs) (inr h) = let (z, i, e) = In-map f y xs h in (z, inr i, e)

Adds-map :
    (P : Message → Type 0) (f : Message → Message) (xs : List Message)
    → ((m : Message) → Evolves m (f m))
    → Adds P xs (map f xs)
Adds-map P f xs step y h = let (x, i, e) = In-map f y xs h in inl (x, i, rw e (step x))

Adds-one : (P : Message → Type 0) (xs : List Message) (m : Message) → P m → Adds P xs (xs ++ m ∷ [])
Adds-one P [] m p y (inl e) = inr (rw e p)
Adds-one P [] m p y (inr h) = elim h [ ]
Adds-one P (x ∷ xs) m p y (inl e) = inl (x, inl refl, rw e (Evolves-refl x))
Adds-one P (x ∷ xs) m p y (inr h) = elim (Adds-one P xs m p y h) [
  | inl (z, i, v) ↦ inl (z, inr i, v)
  | inr new ↦ inr new
]

module _ (w : World) (P : Message → Type 0) (stable : IsStable P) where
  mark_delivered-Adds :
      (i : Text) (st : Store)
      → Adds P st.tables.messages (mark_delivered w.driver i st).1.tables.messages
  mark_delivered-Adds i st = elim (cases i st) [
    | inl e ↦ rw e (Adds-refl P st.tables.messages)
    | inr e ↦ rw e (Adds-map P (deliver_row i) st.tables.messages (deliver_row-Evolves i))
  ]
    where
      cases :
          (i : Text) (st : Store)
          → ((mark_delivered w.driver i st).1.tables.messages ≡ st.tables.messages)
            ⊎ ((mark_delivered w.driver i st).1.tables.messages
                ≡ map (deliver_row i) st.tables.messages)
      cases i st = unfold mark_delivered in ground arith

  pub mark_acked-Adds :
      (i : Text) (st : Store)
      → Adds P st.tables.messages (mark_acked w.driver i st).1.tables.messages
  mark_acked-Adds i st = elim (cases i st) [
    | inl e ↦ rw e (Adds-refl P st.tables.messages)
    | inr e ↦ rw e (Adds-map P (ack_row i) st.tables.messages (ack_row-Evolves i))
  ]
    where
      cases :
          (i : Text) (st : Store)
          → ((mark_acked w.driver i st).1.tables.messages ≡ st.tables.messages)
            ⊎ ((mark_acked w.driver i st).1.tables.messages ≡ map (ack_row i) st.tables.messages)
      cases i st = unfold mark_acked in ground arith

  enqueue-Adds :
      (m : Message) (st : Store)
      → ((seq ts : ℕ) → P (new_row m seq ts))
      → Adds P st.tables.messages (enqueue w.driver m st).1.tables.messages
  enqueue-Adds m st p = elim (cases (enqueue w.driver m st) (enqueue-outcome w.driver m st)) [
    | inl e ↦ rw e (Adds-refl P st.tables.messages)
    | inr (seq, ts, e) ↦ rw e (Adds-one P st.tables.messages (new_row m seq ts) (p seq ts))
  ]
    where
      cases :
          (o : Result (Unit {0}) × Store)
          → Enqueues w.driver m st o
          → (o.1.tables.messages ≡ st.tables.messages)
            ⊎ ((seq : ℕ) × (ts : ℕ) × (o.1.tables.messages
                  ≡ st.tables.messages ++ new_row m seq ts ∷ []))
      cases (ok _, st') (_, _, e) = inr (_, _, ap (λ (t : Tables). t.messages) e)
      cases (err _, st') e = inl (ap (λ (t : Tables). t.messages) e)

module _ (w : World) (P : Message → Type 0) (stable : IsStable P) (ms : List Message) where
  abbrev pub Grown : Server → Type 0
  Grown s = Adds P ms s.store.tables.messages

  messages-append :
      (event : Text) (st : Store)
      → (append w.blake3 w.driver event st).1.tables.messages ≡ st.tables.messages
  messages-append event st =
      ap (λ (t : Tables). t.messages) (append-queue w.blake3 w.driver event st)

  pub audit_event-Grown : (k i f t : Text) (s : Server) → Grown s → Grown (audit_event w k i f t s)
  unfolding audit_event
  audit_event-Grown k i f t s g = elim (Bool-cases s.audited) [
    | inl a ↦ rw (a, audit_event) (rw messages-append g)
    | inr a ↦ rw (a, audit_event) g
  ]

  pub store-write_json : (c : ℕ) (j : Json) (s : Server) → (write_json w c j s).1.store ≡ s.store
  unfolding write_json
  store-write_json c j s = ground arith

  mark_and_audit-Grown :
      (m : Message) (r : Text) (s : Server) → Grown s → Grown (mark_and_audit w m r s)
  unfolding mark_and_audit
  mark_and_audit-Grown m r s g =
      audit_event-Grown _ _ _ _ _
        (Adds-trans P ms _ _ stable g (mark_delivered-Adds w P stable m.id s.store))

  push-Grown :
      (c : ℕ) (r : Text) (m : Message) (env : Envelope) (s : Server)
      → Grown s
      → Grown (push w c r m env s).1
  unfolding push
  push-Grown c r m env s g =
      let written = write_json w c (deliver_frame m.id env) s in
      let q : Grown written.1 = rw store-write_json g in
      elim (Bool-cases written.0) [
        | inl e ↦ rw (e, push) (mark_and_audit-Grown m r written.1 q)
        | inr e ↦ rw (e, push) q
      ]

  deliver_to-Grown : (r : Text) (m : Message) (s : Server) → Grown s → Grown (deliver_to w r m s)
  unfolding deliver_to
  deliver_to-Grown r m s g = elim (Option-cases (get r s.registry)) [
    | inl e ↦ rw (e, deliver_to) g
    | inr (c, e) ↦ elim (Option-cases (decode m.envelope)) [
      | inl f ↦ rw (e, deliver_to, f) g
      | inr (env, f) ↦ rw (e, deliver_to, f) (push-Grown c r m env s g)
    ]
  ]

  after_enqueue-Grown :
      (o : Result (Unit {0})) (m : Message) (s : Server) → Grown s → Grown (after_enqueue w o m s)
  unfolding after_enqueue
  after_enqueue-Grown (err _) m s g = g
  after_enqueue-Grown (ok _) m s g =
      deliver_to-Grown m.to m (audit_event w (text "send") m.id m.from m.to s)
        (audit_event-Grown (text "send") m.id m.from m.to s g)

  pub send_row-Grown :
      (m : Message) (s : Server)
      → ((seq ts : ℕ) → P (new_row m seq ts))
      → Grown s
      → Grown (send_row w m s)
  unfolding send_row
  send_row-Grown m s p g =
      after_enqueue-Grown (enqueue w.driver m s.store).0 m
        (record s { store = (enqueue w.driver m s.store).1 })
        (Adds-trans P ms _ _ stable g (enqueue-Adds w P stable m s.store p))

  pub fan_out-Grown :
      (from : Text) (env : Envelope) (rs : List Text) (s : Server)
      → ((r : Text)
          → In r rs
          → same r from ≡ false
          → (seq ts : ℕ) → P (new_row (message (row_id env.id r) from r env) seq ts))
      → Grown s
      → Grown (fan_out w from env rs s)
  unfolding fan_out
  fan_out-Grown from env [] s p g = g
  fan_out-Grown from env (r ∷ rs) s p g = elim (Bool-cases (same r from)) [
    | inl e ↦ rw (e, fan_out) (fan_out-Grown from env rs s (λ x i. p x (inr i)) g)
    | inr e ↦
        rw (e, fan_out)
          (fan_out-Grown from env rs _ (λ x i. p x (inr i))
            (send_row-Grown (message (row_id env.id r) from r env) s (p r (inl refl) e) g))
  ]
