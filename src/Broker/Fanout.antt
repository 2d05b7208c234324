-- ===== src/Broker/Fanout.antt =====
-- internal/broker/router.go: a broadcast, on a broker where nothing fails.
pub mod Others
use peerbus.Prelude.{
  ℕ, ◌+◌, ◌≡◌, ◌≢◌, inl, inr, Text, text, same, is_empty, Bool, true, false, ◌||◌, List, [], ◌∷◌,
  map, some, arith, refl, ◌∙◌, if◌then◌else◌, Text-discrete, In, In-append, Option-cases,
  Bool-cases,
}
use mathlib.Core.Path.{subst}
use peerbus.Wire.Json.{Json}
use peerbus.Wire.Envelope.{Envelope, encode, decode, received, kind_broadcast}
use peerbus.Wire.Transit.{decode-encode}
use peerbus.Wire.Control.{control_type_of-encode}
use peerbus.Store.{enqueue, mark_delivered, audit_last, audit_append}
use peerbus.Store.Outcome.{Enqueues, enqueue-outcome}
use peerbus.Store.Schema.{Message, known, holds, deliver_row}
use peerbus.Store.Handle.{Store, Result, ok, err}
use peerbus.Store.Invariant.{holds-append_one}
use peerbus.Audit.{append}
use peerbus.Audit.Chain.{append-queue}
use peerbus.Broker.State.{World, Server, audit_event, write_json, event_text}
use peerbus.Broker.Registry.{get, names}
use peerbus.Broker.Registry.Laws.{names_exact}
use peerbus.Broker.Router.{
  message, row_id, deliver_frame, deliver_to, push, mark_and_audit, send_row, fan_out,
  route_broadcast, route_envelope, route_data, route_frame,
}
use peerbus.Broker.Redelivery.{IsQuiet}
use peerbus.Broker.Direct.{send_row-sent, is_empty-false}
use peerbus.Broker.Fanout.Others.{Waits, send_row-Lets, fan_out-In}

row_id-injective : (id x y : Text) → row_id id x ≡ row_id id y → x ≡ y
row_id-injective [] x y e = ground (arith, e)
row_id-injective (c ∷ id) x y e = row_id-injective id x y (ground (arith, e))

row_id-nonempty : (id x : Text) → is_empty (row_id id x) ≡ false
row_id-nonempty [] x = refl
row_id-nonempty (c ∷ id) x = refl

-- What the broker makes of a broadcast.
route_frame-fan_out :
    (w : World) (a : ℕ) (e : Envelope) (s : Server)
    → is_empty e.id ≡ false
    → e.to ≡ text "*"
    → e.kind ≡ kind_broadcast
    → route_frame w a (some (encode e)) s
      ≡ fan_out w (s.conns a).name (received e) (names s.registry) s
unfolding route_frame route_data route_envelope route_broadcast Text-discrete
route_frame-fan_out w a e s n t k =
    let star : same e.to (text "*") ≡ true = ground (arith, t) in
    let filled : is_empty e.to ≡ false = ground (arith, t) in
    let kind : same e.kind kind_broadcast ≡ true = ground (arith, k) in
    rw (control_type_of-encode, route_frame, decode-encode, n, filled, star, kind) refl

module _ (w : World) (quiet : IsQuiet w) (from r : Text) (b : ℕ) where
  -- A frame for the row of `r`.
  abbrev Reached : Envelope → Server → Type 0
  Reached env s = In (deliver_frame (row_id env.id r) (received env)) (s.conns b).sent

  fan_out-Reached :
      (env : Envelope) (rs : List Text) (s : Server)
      → In r rs
      → r ≢ from
      → from ≢ []
      → r ≢ []
      → Waits (row_id env.id r) r b s
      → Reached env (fan_out w from env rs s)
  unfolding fan_out
  fan_out-Reached env [] s h other nf nr waits = absurd h
  fan_out-Reached env (x ∷ rs) s h other nf nr waits = elim (Bool-cases (same x from)) [
    | inl e ↦
        let there : In r rs = ground (arith, h, e, other) in
        rw (e, fan_out) (fan_out-Reached env rs s there other nf nr waits)
    | inr e ↦ elim (Text-discrete x r) [
      | yes p ↦
          let m = message (row_id env.id x) from x env in
          let filled : is_empty m.id || (is_empty m.from || is_empty m.to) ≡ false =
            ground (
              arith,
              row_id-nonempty env.id x,
              is_empty-false from nf,
              is_empty-false x (rw p nr),
            ) in
          let sent =
            send_row-sent w quiet m (received env) b s waits.open_ filled (rw p waits.peer)
              (rw p waits.new) (rw p waits.bound) (decode-encode env) waits.live in
          let now : Reached env (send_row w m s) =
            rw sent (In-append _ (s.conns b).sent _ (inr (inl (rw p refl)))) in
          rw (e, fan_out)
            (fan_out-In w quiet (row_id env.id r) r b from env rs (send_row w m s) _ now)
      | no n ↦
          let m = message (row_id env.id x) from x env in
          let apart : same m.id (row_id env.id r) ≡ false =
            ground (arith, n, row_id-injective env.id x r) in
          let there : In r rs = ground (arith, h, n) in
          rw (e, fan_out)
            (fan_out-Reached env rs (send_row w m s) there other nf nr
              ((send_row-Lets w quiet (row_id env.id r) r b m s apart).0 waits))
    ]
  ]

  -- The frame of a broadcast reaches every other peer that is connected.
  pub route_frame-Reached :
      (a : ℕ) (e : Envelope) (s : Server)
      → e.id ≢ []
      → e.to ≡ text "*"
      → e.kind ≡ kind_broadcast
      → (s.conns a).name ≡ from
      → received (received e) ≡ received e
      → r ≢ from
      → from ≢ []
      → r ≢ []
      → Waits (row_id e.id r) r b s
      → Reached e (route_frame w a (some (encode e)) s)
  route_frame-Reached a e s ni t k name idem other nf nr waits =
      let listed : In r (names s.registry) =
        ((names_exact s.registry).1 r).1 (unfold get in ground (arith, waits.bound)) in
      let reached = fan_out-Reached (received e) (names s.registry) s listed other nf nr waits in
      let routed = route_frame-fan_out w a e s (is_empty-false e.id ni) t k in
      rw (routed, name)
        (subst
          (λ x.
            In (deliver_frame (row_id e.id r) x)
              ((fan_out w from (received e) (names s.registry) s).conns b).sent)
          idem reached)
