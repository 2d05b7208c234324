-- ===== src/Broker/Keeps.antt =====
-- internal/broker/router.go and server.go: properties of the tables, through every handler.
use peerbus.Prelude.{
  ℕ, ◌≡◌, Text, text, same, List, [], ◌∷◌, Option, none, some, arith, Bool-cases, Option-cases, inl,
  inr,
}
use peerbus.Wire.Json.{Json}
use peerbus.Wire.Envelope.{Envelope, decode}
use peerbus.Wire.Control.{Frame, Ack, Register, decode_register, decode_ack, control_type_of}
use peerbus.Store.{enqueue, mark_acked, requeue_unacked, register, pending_for}
use peerbus.Store.Schema.{Tables, Message}
use peerbus.Store.Handle.{Store, Result, ok, err}
use peerbus.Store.Changes.{
  Change, Changes, here, next, register-Changes, enqueue-Changes, mark_delivered-Changes,
  mark_acked-Changes, requeue_unacked-Changes, tables-pending_for,
}
use peerbus.Audit.{append}
use peerbus.Broker.Registry.{get, names, Bound, fresh, taken_over, bind}
use peerbus.Broker.State.{
  World, Server, write_json, audit_event, close_normal, close_taken_over, Reason, going_away,
  event_text,
}
use peerbus.Broker.Router.{
  message, deliver_frame, mark_and_audit, push, deliver_to, send_row, route_direct, fan_out,
  route_broadcast, route_envelope, peers_reply, handle_ack, route_ack, handle_peers, route_data,
  route_frame, row_id,
}
use peerbus.Broker.Server.{
  Read, failed, binary, cancelled, frame, flush, flush_pending, welcome, admit, handshake, serve,
  hang_up, serve_http, refusal, flush_rows, after_bind, after_register, after_checks, after_decode,
  after_handshake,
}

-- A property of the tables that no call of the store or of the log breaks.
pub record IsKept (w : World) (P : Tables → Type 0) : Type 0 where
  pub change : (t u : Tables) → Change t u → P t → P u
  pub log : (event : Text) (s : Store) → P s.tables → P (append w.blake3 w.driver event s).1.tables

module _ (w : World) (P : Tables → Type 0) (k : IsKept w P) where
  pub changes : {t u : Tables} → Changes t u → P t → P u
  changes here p = p
  changes (next cs c) p = k.change _ _ c (changes cs p)

  abbrev Holds : Server → Type 0
  Holds s = P s.store.tables

  audit_event-keeps :
      (kind id from to : Text) (s : Server) → Holds s → Holds (audit_event w kind id from to s)
  unfolding audit_event
  audit_event-keeps kind id from to s p =
      ground (arith, k.log (event_text w kind id from to) s.store p)

  tables-write_json : (c : ℕ) (j : Json) (s : Server) → (write_json w c j s).1.store ≡ s.store
  unfolding write_json
  tables-write_json c j s = ground arith

  mark_and_audit-keeps :
      (m : Message) (r : Text) (s : Server) → Holds s → Holds (mark_and_audit w m r s)
  unfolding mark_and_audit
  mark_and_audit-keeps m r s p =
      audit_event-keeps _ _ _ _ _ (changes (mark_delivered-Changes w.driver s.store m.id) p)

  push-keeps :
      (c : ℕ) (r : Text) (m : Message) (env : Envelope) (s : Server)
      → Holds s
      → Holds (push w c r m env s).1
  unfolding push
  push-keeps c r m env s p =
      let s' : Server = (write_json w c (deliver_frame m.id env) s).1 in
      let q : Holds s' = rw tables-write_json p in ground (arith, q, mark_and_audit-keeps m r s' q)

  deliver_to-keeps : (r : Text) (m : Message) (s : Server) → Holds s → Holds (deliver_to w r m s)
  unfolding deliver_to
  deliver_to-keeps r m s p = elim (Option-cases (get r s.registry)) [
    | inl e ↦ rw (e, deliver_to) p
    | inr (c, e) ↦ elim (Option-cases (decode m.envelope)) [
      | inl f ↦ rw (e, deliver_to, f) p
      | inr (env, f) ↦ rw (e, deliver_to, f) (push-keeps c r m env s p)
    ]
  ]

  send_row-keeps : (m : Message) (s : Server) → Holds s → Holds (send_row w m s)
  unfolding send_row
  send_row-keeps m s p =
      let q = changes (enqueue-Changes w.driver s.store m) p in
      let s' : Server = record s { store = (enqueue w.driver m s.store).1 } in
      ground (
        arith,
        q,
        deliver_to-keeps m.to m (audit_event w (text "send") m.id m.from m.to s')
            (audit_event-keeps (text "send") m.id m.from m.to s' q),
      )

  fan_out-keeps :
      (from : Text) (env : Envelope) (rs : List Text) (s : Server)
      → Holds s
      → Holds (fan_out w from env rs s)
  unfolding fan_out
  fan_out-keeps from env [] s p = p
  fan_out-keeps from env (r ∷ rs) s p = elim (Bool-cases (same r from)) [
    | inl e ↦ rw (e, fan_out) (fan_out-keeps from env rs s p)
    | inr e ↦
        rw (e, fan_out)
          (fan_out-keeps from env rs _ (send_row-keeps (message (row_id env.id r) from r env) s p))
  ]

  route_envelope-keeps :
      (from : Text) (env : Envelope) (s : Server) → Holds s → Holds (route_envelope w from env s)
  unfolding route_envelope route_broadcast route_direct
  route_envelope-keeps from env s p = ground (
    arith,
    fan_out-keeps from env (names s.registry) s p,
    send_row-keeps (message env.id from env.to env) s p,
  )

  handle_ack-keeps : (a : Ack) (from : Text) (s : Server) → Holds s → Holds (handle_ack w a from s)
  unfolding handle_ack
  handle_ack-keeps a from s p =
      let q = changes (mark_acked-Changes w.driver s.store a.id) p in
      let s' : Server = record s { store = (mark_acked w.driver a.id s.store).1 } in
      ground (arith, q, audit_event-keeps (text "ack") a.id from [] s' q)

  route_data-keeps : (c : ℕ) (f : Frame) (s : Server) → Holds s → Holds (route_data w c f s)
  unfolding route_data
  route_data-keeps c none s p = p
  route_data-keeps c (some j) s p = elim (Option-cases (decode j)) [
    | inl e ↦ rw (e, route_data) p
    | inr (env, e) ↦
        rw (e, route_data) (ground (arith, route_envelope-keeps (s.conns c).name env s p))
  ]

  handle_peers-keeps : (c : ℕ) (s : Server) → Holds s → Holds (handle_peers w c s)
  unfolding handle_peers
  handle_peers-keeps c s p = rw tables-write_json p

  route_ack-keeps : (c : ℕ) (o : Option Ack) (s : Server) → Holds s → Holds (route_ack w o c s)
  unfolding route_ack
  route_ack-keeps c none s p = p
  route_ack-keeps c (some a) s p = handle_ack-keeps a (s.conns c).name s p

  -- Routing a frame keeps the property.
  pub route_frame-keeps : (c : ℕ) (f : Frame) (s : Server) → Holds s → Holds (route_frame w c f s)
  unfolding route_frame
  route_frame-keeps c f s p = elim (Option-cases (control_type_of f)) [
    | inl e ↦ rw e (route_data-keeps c f s p)
    | inr (ct, e) ↦ rw e (
        ground (
          arith,
          route_ack-keeps c (decode_ack f) s p,
          handle_peers-keeps c s p,
          route_data-keeps c f s p,
        ))
  ]

  flush-keeps : (c : ℕ) (ms : List Message) (s : Server) → Holds s → Holds (flush w c ms s)
  unfolding flush
  flush-keeps c [] s p = p
  flush-keeps c (m ∷ ms) s p = elim (Option-cases (decode m.envelope)) [
    | inl e ↦ rw (e, flush) (flush-keeps c ms s p)
    | inr (env, e) ↦
        let s' : Server = (push w c (s.conns c).name m env s).1 in
        let q = push-keeps c (s.conns c).name m env s p in
        rw (e, flush) (ground (arith, q, flush-keeps c ms s' q))
  ]

  flush_pending-keeps : (c : ℕ) (s : Server) → Holds s → Holds (flush_pending w c s)
  unfolding flush_pending
  flush_pending-keeps c s p =
      rows (pending_for w.driver (s.conns c).name s.store) (rw tables-pending_for p)
    where
      rows :
          (r : Result (List Message) × Store)
          → P r.1.tables
          → Holds (flush_rows w c r.0 (record s { store = r.1 }))
      rows (ok ms, st) q = flush-keeps c ms (record s { store = st }) q
      rows (err e, st) q = q

  store-close_normal : (c : ℕ) (why : Reason) (s : Server) → (close_normal c why s).store ≡ s.store
  unfolding close_normal
  store-close_normal c why s = ground arith

  store-close_taken_over : (c : ℕ) (s : Server) → (close_taken_over c s).store ≡ s.store
  unfolding close_taken_over
  store-close_taken_over c s = ground arith

  welcome-keeps : (c : ℕ) (reg : Register) (s : Server) → Holds s → Holds (welcome w c reg s).1
  unfolding welcome
  welcome-keeps c reg s0 p =
      let s : Server = record s0 { store = (requeue_unacked w.driver reg.name s0.store).1 } in
      let q : Holds s = changes (requeue_unacked-Changes w.driver s0.store reg.name) p in
      let reply = peers_reply s in
      let s' : Server = (write_json w c reply s).1 in
      let r : Holds s' = rw tables-write_json q in
      elim (Bool-cases (write_json w c reply s).0) [
        | inl e ↦ rw (e, welcome) (flush_pending-keeps c _ r)
        | inr e ↦ rw (e, welcome) (rw store-close_normal r)
      ]

  admit-keeps : (c : ℕ) (reg : Register) (s : Server) → Holds s → Holds (admit w c reg s).1
  unfolding admit
  admit-keeps c reg s p =
      registered (register w.driver reg.name s.store)
        (changes (register-Changes w.driver s.store reg.name) p)
    where
      bound : (o : Bound) (s : Server) → Holds s → Holds (after_bind w o c reg s).1
      bound fresh s q = welcome-keeps c reg s q
      bound (taken_over old) s q =
          welcome-keeps c reg (close_taken_over old s) (rw store-close_taken_over q)
      bound Bound.name_claimed s q = rw store-close_normal q

      registered :
          (r : Result (Unit {0}) × Store)
          → P r.1.tables
          → Holds (after_register w r.0 c reg (record s { store = r.1 })).1
      registered (err e, st) q = rw store-close_normal q
      registered (ok u, st) q = bound (bind _ s.registry).0 _ q

  pub handshake-keeps : (c : ℕ) (r : Read) (s : Server) → Holds s → Holds (handshake w c r s).1
  unfolding handshake
  handshake-keeps c failed s p = rw store-close_normal p
  handshake-keeps c cancelled s p = rw store-close_normal p
  handshake-keeps c binary s p = rw store-close_normal p
  handshake-keeps c (frame f) s p = decoded (decode_register f)
    where
      checked : (o : Option Reason) (reg : Register) → Holds (after_checks w o c reg s).1
      checked (some why) reg = rw store-close_normal p
      checked none reg = admit-keeps c reg s p

      decoded : (o : Option Register) → Holds (after_decode w o c s).1
      decoded none = rw store-close_normal p
      decoded (some reg) = checked (refusal s reg) reg

  serve-keeps : (c : ℕ) (rs : List Read) (s : Server) → Holds s → Holds (serve w c rs s)
  unfolding serve
  serve-keeps c [] s p = p
  serve-keeps c (failed ∷ rs) s p = p
  serve-keeps c (cancelled ∷ rs) s p = ground (arith, store-close_normal c going_away s)
  serve-keeps c (binary ∷ rs) s p = ground (arith, serve-keeps c rs s p)
  serve-keeps c (frame f ∷ rs) s p =
      ground (arith, serve-keeps c rs (route_frame w c f s) (route_frame-keeps c f s p))

  pub hang_up-keeps : (c : ℕ) (n : Text) (s : Server) → Holds s → Holds (hang_up w c n s)
  unfolding hang_up
  hang_up-keeps c n s p = rw store-close_normal p

  -- Serving a connection from its handshake to its end keeps the property.
  pub serve_http-keeps :
      (c : ℕ) (first : Read) (rs : List Read) (s : Server)
      → Holds s
      → Holds (serve_http w c first rs s)
  unfolding serve_http
  serve_http-keeps c first rs s p = shaken (handshake w c first s) (handshake-keeps c first s p)
    where
      shaken : (r : Option Text × Server) → Holds r.1 → Holds (after_handshake w r.0 c rs r.1)
      shaken (none, s') q = q
      shaken (some n, s') q = hang_up-keeps c n _ (serve-keeps c rs s' q)
