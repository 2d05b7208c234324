-- ===== src/Broker/Fanout/Others.antt =====
-- internal/broker/router.go: what a send to one peer leaves as it was for another.
use peerbus.Prelude.{
  ℕ, ◌+◌, ◌≡◌, inl, inr, Text, text, same, Bool, true, false, List, [], ◌∷◌, map, some, arith, refl,
  ◌∙◌, if◌then◌else◌, In, In-append, Option-cases, Bool-cases,
}
use peerbus.Wire.Json.{Json}
use peerbus.Wire.Envelope.{Envelope, decode}
use peerbus.Store.{enqueue, mark_delivered, audit_last, audit_append}
use peerbus.Store.Outcome.{Enqueues, enqueue-outcome}
use peerbus.Store.Schema.{Message, known, holds, deliver_row}
use peerbus.Store.Handle.{Store, Result, ok, err}
use peerbus.Store.Invariant.{holds-append_one}
use peerbus.Audit.{append}
use peerbus.Audit.Chain.{append-queue}
use peerbus.Broker.State.{World, Server, audit_event, write_json, event_text}
use peerbus.Broker.Registry.{get}
use peerbus.Broker.Router.{
  message, row_id, deliver_frame, deliver_to, push, mark_and_audit, send_row, fan_out,
}
use peerbus.Broker.Redelivery.{IsQuiet}

-- What a send to another peer leaves for the peer `r` on connection `b`: it is still there, its row
-- is still missing, and its frames are kept.
pub record Waits (key r : Text) (b : ℕ) (s : Server) : Type 0 where
  pub bound : get r s.registry ≡ some b
  pub live : (s.conns b).closed ≡ false
  pub open_ : s.store.closed ≡ false
  pub peer : known r s.store.tables.peers ≡ true
  pub new : holds key s.store.tables.messages ≡ false

-- A step that leaves the peer waiting, and takes back no frame.
abbrev pub Lets : Text → Text → ℕ → Server → Server → Type 0
Lets key r b s t =
    (Waits key r b s → Waits key r b t)
    × ((j : Json) → In j (s.conns b).sent → In j (t.conns b).sent)

holds-map_deliver :
    (i key : Text) (ms : List Message) → holds key (map (deliver_row i) ms) ≡ holds key ms
unfolding holds
holds-map_deliver i key [] = refl
holds-map_deliver i key (m ∷ ms) = ground (arith, holds-map_deliver i key ms)

module _ (w : World) (quiet : IsQuiet w) (key r : Text) (b : ℕ) where
  open-enqueue :
      (m : Message) (st : Store) → st.closed ≡ false → (enqueue w.driver m st).1.closed ≡ false
  unfolding enqueue
  open-enqueue m st o = ground (
    arith,
    o,
    quiet.driver st.calls,
    quiet.driver (st.calls + 1),
    quiet.driver (st.calls + 1 + 1),
    quiet.driver (st.calls + 1 + 1 + 1),
    quiet.driver (st.calls + 1 + 1 + 1 + 1),
    quiet.driver (st.calls + 1 + 1 + 1 + 1 + 1),
    quiet.driver (st.calls + 1 + 1 + 1 + 1 + 1 + 1),
  )

  Lets-trans : (s t u : Server) → Lets key r b s t → Lets key r b t u → Lets key r b s u
  Lets-trans s t u (f, g) (f', g') = ((λ h. f' (f h)), (λ j h. g' j (g j h)))

  closed-append :
      (event : Text) (st : Store) → (append w.blake3 w.driver event st).1.closed ≡ st.closed
  unfolding append audit_last audit_append
  closed-append event st = ground arith

  audit_event-Lets :
      (kind id from to : Text) (s : Server) → Lets key r b s (audit_event w kind id from to s)
  unfolding audit_event
  audit_event-Lets kind id from to s =
      let event = event_text w kind id from to in
      let st : Store = (append w.blake3 w.driver event s.store).1 in
      audited s.audited (
        (λ h. record {
          bound = h.bound;
          live = h.live;
          open_ = closed-append event s.store ∙ h.open_;
          peer = rw (append-queue w.blake3 w.driver event s.store) h.peer;
          new = rw (append-queue w.blake3 w.driver event s.store) h.new;
        }),
        (λ j h. h),
      )
    where
      audited :
          (on : Bool) {st : Store}
          → Lets key r b s (record s { store = st })
          → Lets key r b s (if on then record s { store = st } else s)
      audited true h = h
      audited false h = ((λ x. x), (λ j x. x))

  mark-Lets :
      (i : Text) (s : Server)
      → Lets key r b s (record s { store = (mark_delivered w.driver i s.store).1 })
  unfolding mark_delivered
  mark-Lets i s = (
    (λ h. record {
      bound = h.bound;
      live = h.live;
      open_ = ground (arith, h.open_);
      peer = ground (arith, h.peer);
      new = ground (arith, h.new, holds-map_deliver i key s.store.tables.messages);
    }),
    (λ j h. h),
  )

  write-Lets : (c : ℕ) (j : Json) (s : Server) → Lets key r b s (write_json w c j s).1
  unfolding write_json
  write-Lets c j s = (
    (λ h. record {
      bound = ground (arith, h.bound);
      live = ground (arith, h.live);
      open_ = ground (arith, h.open_);
      peer = ground (arith, h.peer);
      new = ground (arith, h.new);
    }),
    (λ x h. ground (arith, h, In-append x (s.conns b).sent (j ∷ []) (inl h))),
  )

  push-Lets :
      (c : ℕ) (n : Text) (m : Message) (env : Envelope) (s : Server)
      → Lets key r b s (push w c n m env s).1
  unfolding push mark_and_audit
  push-Lets c n m env s = written (write_json w c (deliver_frame m.id env) s) (write-Lets c _ s)
    where
      written :
          (o : Bool × Server)
          → Lets key r b s o.1
          → let p : Bool × Server =
              if o.0 then (true, mark_and_audit w m n o.1) else (false, o.1) in
            Lets key r b s p.1
      written (true, t) h =
          Lets-trans s t _ h (
            Lets-trans t _ _ (mark-Lets m.id t) (audit_event-Lets (text "deliver") m.id m.from n _))
      written (false, t) h = h

  deliver_to-Lets : (n : Text) (m : Message) (s : Server) → Lets key r b s (deliver_to w n m s)
  unfolding deliver_to
  deliver_to-Lets n m s = elim (Option-cases (get n s.registry)) [
    | inl e ↦ rw (e, deliver_to) ((λ h. h), (λ j h. h))
    | inr (c, e) ↦ elim (Option-cases (decode m.envelope)) [
      | inl f ↦ rw (e, deliver_to, f) ((λ h. h), (λ j h. h))
      | inr (env, f) ↦ rw (e, deliver_to, f) (push-Lets c n m env s)
    ]
  ]

  enqueue-Lets :
      (m : Message) (s : Server)
      → same m.id key ≡ false
      → Lets key r b s (record s { store = (enqueue w.driver m s.store).1 })
  enqueue-Lets m s other = (
    (λ h.
        stored h (enqueue w.driver m s.store) (enqueue-outcome w.driver m s.store)
          (open-enqueue m s.store h.open_)),
    (λ j h. h),
  )
    where
      stored :
          Waits key r b s
          → (o : Result (Unit {0}) × Store) → Enqueues w.driver m s.store o
          → o.1.closed ≡ false
          → Waits key r b (record s { store = o.1 })
      stored h (err _, st) e c = record {
        bound = h.bound;
        live = h.live;
        open_ = c;
        peer = rw e h.peer;
        new = rw e h.new;
      }
      stored h (ok _, st) (_, _, e) c = record {
        bound = h.bound;
        live = h.live;
        open_ = c;
        peer = rw e h.peer;
        new = rw e (holds-append_one key s.store.tables.messages _ ∙ ground (arith, h.new, other));
      }

  -- A send to somebody else.
  pub send_row-Lets :
      (m : Message) (s : Server) → same m.id key ≡ false → Lets key r b s (send_row w m s)
  unfolding send_row
  send_row-Lets m s other =
      let s' : Server = record s { store = (enqueue w.driver m s.store).1 } in
      let t : Server = audit_event w (text "send") m.id m.from m.to s' in
      let sent = Lets-trans s s' _ (enqueue-Lets m s other) (
        Lets-trans s' t _ (audit_event-Lets (text "send") m.id m.from m.to s')
          (deliver_to-Lets m.to m t)) in
      ground (arith, enqueue-Lets m s other, sent)

  send_row-In :
      (m : Message) (s : Server) (j : Json)
      → In j (s.conns b).sent
      → In j ((send_row w m s).conns b).sent
  unfolding send_row
  send_row-In m s j h =
      let s' : Server = record s { store = (enqueue w.driver m s.store).1 } in
      let t : Server = audit_event w (text "send") m.id m.from m.to s' in
      let audited = (audit_event-Lets (text "send") m.id m.from m.to s').1 j h in
      ground (arith, h, (deliver_to-Lets m.to m t).1 j audited)

  pub fan_out-In :
      (from : Text) (env : Envelope) (rs : List Text) (s : Server) (j : Json)
      → In j (s.conns b).sent
      → In j ((fan_out w from env rs s).conns b).sent
  unfolding fan_out
  fan_out-In from env [] s j h = h
  fan_out-In from env (x ∷ rs) s j h = elim (Bool-cases (same x from)) [
    | inl e ↦ rw (e, fan_out) (fan_out-In from env rs s j h)
    | inr e ↦
        let m = message (row_id env.id x) from x env in
        rw (e, fan_out) (fan_out-In from env rs (send_row w m s) j (send_row-In m s j h))
  ]
