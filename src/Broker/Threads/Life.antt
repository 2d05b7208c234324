-- ===== src/Broker/Threads/Life.antt =====
-- internal/broker/server.go: the goroutine of a connection keeps to the contract.
use peerbus.Prelude.{
  ℕ, ◌≡◌, inl, inr, Text, Bool, true, false, List, [], ◌∷◌, Option, none, some, arith, refl,
  if◌then◌else◌, Option-cases,
}
use peerbus.Wire.Envelope.{decode}
use peerbus.Wire.Control.{Register, decode_register}
use peerbus.Store.{register, requeue_unacked, pending_for}
use peerbus.Store.Schema.{Tables, Message, known}
use peerbus.Store.Handle.{Store, Result, ok, err}
use peerbus.Store.Changes.{here, register-Changes, requeue_unacked-Changes, tables-pending_for}
use peerbus.Store.Delivered.{
  FromDelivered-refl, register-FromDelivered, requeue_unacked-FromDelivered,
}
use peerbus.Store.Invariant.{known-upsert_peer}
use peerbus.Broker.Auth.{valid}
use peerbus.Broker.Registry.{Bound, fresh, taken_over}
use peerbus.Broker.State.{
  World, Server, Reason, no_handshake_frame, not_text, malformed_handshake, name_claimed,
  persistence_failed, ack_failed, going_away, close_taken_over, close_normal,
}
use peerbus.Broker.Router.{peers_reply}
use peerbus.Broker.Server.{Read, failed, binary, cancelled, frame, refusal}
use peerbus.Broker.Keeps.{IsKept}
use peerbus.Broker.Threads.{Prog, look, atomic, call}
use peerbus.Broker.Threads.Router.{push, route_frame}
use peerbus.Broker.Threads.Handlers.{
  name_step, refuse, flush, flush_rows, flush_pending, welcome, after_bind, after_register, admit,
  after_checks, after_decode, handshake, serve, hang_up, serve_http,
}
use peerbus.Broker.Threads.Contract.{Grows, Grows-trans, Unbound, OnlyAs}
use peerbus.Broker.Threads.Moves.{
  store-Moves, close_normal-Moves, close_taken_over-Moves, name-Moves,
}
use peerbus.Broker.Threads.Soundness.{Good}
use peerbus.Broker.Threads.Good.{
  Keeps, later, step-Keeps, look-Keeps, atomic-Keeps, call-Keeps, write-Keeps, push-Keeps,
}
use peerbus.Broker.Threads.Routing.{look_then, route_frame-Keeps}
use peerbus.Broker.Threads.Serving.{
  Later-Unbound, Later-OnlyAs, refuse-Keeps, remove_step-Keeps, hang_up-Keeps, Answered,
  bind_step-Keeps,
}

module _ (w : World) (T : Tables → Type 0) (k : IsKept w T) (i : ℕ) where
  flush-Keeps :
      (ms : List Message) (next : Prog) (s : Server)
      → Keeps w T k i next s
      → Keeps w T k i (flush w i ms next) s
  unfolding flush
  flush-Keeps [] next s h = h
  flush-Keeps (m ∷ ms) next s h = elim (Option-cases (decode m.envelope)) [
    | inl e ↦ rw (e, flush) (flush-Keeps ms next s h)
    | inr (env, e) ↦
        rw (e, flush)
          (look_then w T k i (λ t. (t.conns i).name)
            (λ name. push w i name m env (λ sent. if sent then flush w i ms next else next)) s
            (λ name.
              push-Keeps w T k i i name m env (λ sent. if sent then flush w i ms next else next) s
                (go (flush w i ms next) (flush-Keeps ms next s h))))
  ]
    where
      go :
          (p : Prog)
          → Keeps w T k i p s
          → (sent : Bool) → Keeps w T k i (if sent then p else next) s
      go p q true = q
      go p q false = h

  flush_rows-Keeps :
      (r : Result (List Message)) (next : Prog) (s : Server)
      → Keeps w T k i next s
      → Keeps w T k i (flush_rows w i r next) s
  unfolding flush_rows
  flush_rows-Keeps (err _) next s h = h
  flush_rows-Keeps (ok ms) next s h = flush-Keeps ms next s h

  flush_pending-Keeps :
      (next : Prog) (s : Server) → Keeps w T k i next s → Keeps w T k i (flush_pending w i next) s
  unfolding flush_pending
  flush_pending-Keeps next s h =
      look_then w T k i (λ t. (t.conns i).name)
        (λ name. call (pending_for w.driver name) (λ r. flush_rows w i r next)) s
        (λ name.
          call-Keeps w T k i (pending_for w.driver name) (λ x. ⊥) (λ r. flush_rows w i r next) s
            (λ st. rw tables-pending_for here)
            (λ st. rw tables-pending_for (FromDelivered-refl (λ x. ⊥) st.tables.messages))
            (λ t l x e. absurd e) (λ r t l. flush_rows-Keeps r next t (later w T k i next s t l h)))

  name_step-Keeps :
      (name : Text) (next : Prog) (s : Server)
      → Keeps w T k i next s
      → Keeps w T k i (name_step name i next) s
  unfolding name_step
  name_step-Keeps name next s h =
      atomic-Keeps w T k i _ next s (λ t v. name-Moves w T k t v i name)
        (λ t l. later w T k i next s t l h)

  welcome-Keeps :
      (reg : Register) (next : Prog) (s : Server)
      → OnlyAs i reg.name s
      → Keeps w T k i next s
      → Keeps w T k i (welcome w i reg next) s
  unfolding welcome
  welcome-Keeps reg next s a h =
      call-Keeps w T k i (requeue_unacked w.driver reg.name) (λ x. ⊥) _ s
        (λ st. requeue_unacked-Changes w.driver st reg.name)
        (λ st. requeue_unacked-FromDelivered w.driver st reg.name) (λ t l x e. absurd e)
        (λ n t l.
          look-Keeps w T k i (λ u. peers_reply u) _ t
            (λ u l'.
              let a' =
                Later-OnlyAs w T k i reg.name t u l' (Later-OnlyAs w T k i reg.name s t l a) in
              let h' = later w T k i next t u l' (later w T k i next s t l h) in
              write-Keeps w T k i i (peers_reply u) _ u
                (λ v l'' _.
                  name_step-Keeps reg.name (flush_pending w i next) v
                    (flush_pending-Keeps next v (later w T k i next u v l'' h')))
                (λ v l''.
                  remove_step-Keeps w T k i reg.name (refuse i ack_failed) v
                    (Later-OnlyAs w T k i reg.name u v l'' a')
                    (λ x g free. refuse-Keeps w T k i ack_failed x free))))

  after_bind-Keeps :
      (o : Bound) (reg : Register) (next : Prog) (s : Server)
      → Answered w T k i o reg.name s
      → (OnlyAs i reg.name s → Keeps w T k i next s)
      → Keeps w T k i (after_bind w o i reg next) s
  unfolding after_bind Answered
  after_bind-Keeps fresh reg next s a h = welcome-Keeps reg next s a (h a)
  after_bind-Keeps (taken_over old) reg next s a h =
      atomic-Keeps w T k i (close_taken_over old) (welcome w i reg next) s
        (λ t v. close_taken_over-Moves w T k t v old)
        (λ t l.
          welcome-Keeps reg next t (Later-OnlyAs w T k i reg.name s t l a)
            (later w T k i next s t l (h a)))
  after_bind-Keeps Bound.name_claimed reg next s a h = refuse-Keeps w T k i name_claimed s a

  -- What follows a handshake under the name may rely on no other name being bound.
  abbrev Follows : Text → Prog → Server → Type 0
  Follows name next s = (t : Server) → Grows s t → OnlyAs i name t → Keeps w T k i next t

  after_register-Keeps :
      (r : Result (Unit {0})) (reg : Register) (next : Prog) (s : Server)
      → (r ≡ ok tt → known reg.name s.store.tables.peers ≡ true)
      → valid s.auth reg.token ≡ true
      → Unbound i s
      → Follows reg.name next s
      → Keeps w T k i (after_register w r i reg next) s
  unfolding after_register
  after_register-Keeps (err _) reg next s n q u h = refuse-Keeps w T k i persistence_failed s u
  after_register-Keeps (ok tt) reg next s n q u h =
      bind_step-Keeps w T k i (record { name = reg.name; token = reg.token; conn = i })
        (λ o. after_bind w o i reg next) s refl (n refl) q u
        (λ o t g a. after_bind-Keeps o reg next t a (λ only. h t g only))

  register-known :
      (name : Text) (st : Store)
      → (register w.driver name st).0 ≡ ok tt
      → known name (register w.driver name st).1.tables.peers ≡ true
  unfolding register
  register-known name st e =
      ground (arith, known-upsert_peer name name (w.driver.now st.calls) st.tables.peers)

  admit-Keeps :
      (reg : Register) (next : Prog) (s : Server)
      → valid s.auth reg.token ≡ true
      → Unbound i s
      → Follows reg.name next s
      → Keeps w T k i (admit w i reg next) s
  unfolding admit call
  admit-Keeps reg next s q u h =
      step-Keeps w T k i (λ t. record t { store = (register w.driver reg.name t.store).1 })
        (λ t. after_register w (register w.driver reg.name t.store).0 i reg next) s
        (λ t l. (
          store-Moves w T k t l.2 (λ x. ⊥) (register w.driver reg.name t.store).1
              (register-Changes w.driver t.store reg.name)
              (register-FromDelivered w.driver t.store reg.name) (λ x e. absurd e),
          λ l'.
              after_register-Keeps (register w.driver reg.name t.store).0 reg next _
                (register-known reg.name t.store) (rw l'.0.auth q) (Later-Unbound w T k i s _ l' u)
                (λ v g a. h v (Grows-trans s _ v l'.0 g) a),
        ))

  after_checks-Keeps :
      (o : Option Reason) (reg : Register) (next : Prog) (s : Server)
      → (o ≡ none → valid s.auth reg.token ≡ true)
      → Unbound i s
      → Follows reg.name next s
      → Keeps w T k i (after_checks w o i reg next) s
  unfolding after_checks
  after_checks-Keeps (some why) reg next s q u h = refuse-Keeps w T k i why s u
  after_checks-Keeps none reg next s q u h = admit-Keeps reg next s (q refl) u h

  refusal-valid :
      (s : Server) (reg : Register) → refusal s reg ≡ none → valid s.auth reg.token ≡ true
  unfolding refusal
  refusal-valid s reg e = ground arith

  after_decode-Keeps :
      (o : Option Register) (next : Text → Prog) (s : Server)
      → Unbound i s
      → ((name : Text) → Follows name (next name) s)
      → Keeps w T k i (after_decode w o i next) s
  unfolding after_decode
  after_decode-Keeps none next s u h = refuse-Keeps w T k i malformed_handshake s u
  after_decode-Keeps (some reg) next s u h =
      look-Keeps w T k i (λ t. refusal t reg) (λ why. after_checks w why i reg (next reg.name)) s
        (λ t l.
          after_checks-Keeps (refusal t reg) reg (next reg.name) t (refusal-valid t reg)
            (Later-Unbound w T k i s t l u) (λ v g a. h reg.name v (Grows-trans s t v l.0 g) a))

  handshake-Keeps :
      (r : Read) (next : Text → Prog) (s : Server)
      → Unbound i s
      → ((name : Text) → Follows name (next name) s)
      → Keeps w T k i (handshake w i r next) s
  unfolding handshake
  handshake-Keeps failed next s u h = refuse-Keeps w T k i no_handshake_frame s u
  handshake-Keeps cancelled next s u h = refuse-Keeps w T k i no_handshake_frame s u
  handshake-Keeps binary next s u h = refuse-Keeps w T k i not_text s u
  handshake-Keeps (frame f) next s u h = after_decode-Keeps (decode_register f) next s u h

  unless_closed :
      (p next : Prog) (s : Server)
      → Keeps w T k i next s
      → Keeps w T k i p s
      → Keeps w T k i (look (λ t. (t.conns i).closed) (λ closed. if closed then next else p)) s
  unless_closed p next s h g =
      look_then w T k i (λ t. (t.conns i).closed) (λ closed. if closed then next else p) s chosen
    where
      chosen : (closed : Bool) → Keeps w T k i (if closed then next else p) s
      chosen true = h
      chosen false = g

  serve-Keeps :
      (rs : List Read) (next : Prog) (s : Server)
      → Keeps w T k i next s
      → Keeps w T k i (serve w i rs next) s
  unfolding serve
  serve-Keeps [] next s h = unfold Good in tt
  serve-Keeps (failed ∷ rs) next s h = h
  serve-Keeps (cancelled ∷ rs) next s h =
      unless_closed (atomic (close_normal i going_away) next) next s h (
        atomic-Keeps w T k i (close_normal i going_away) next s
          (λ t v. close_normal-Moves w T k t v i going_away) (λ t l. later w T k i next s t l h))
  serve-Keeps (binary ∷ rs) next s h =
      unless_closed (serve w i rs next) next s h (serve-Keeps rs next s h)
  serve-Keeps (frame f ∷ rs) next s h =
      unless_closed (route_frame w i f (serve w i rs next)) next s h
        (route_frame-Keeps w T k i i f (serve w i rs next) s (serve-Keeps rs next s h))

  -- The goroutine of a connection that no name is bound to yet.
  pub serve_http-Keeps :
      (first : Read) (rs : List Read) (s : Server)
      → Unbound i s
      → Keeps w T k i (serve_http w i first rs) s
  unfolding serve_http
  serve_http-Keeps first rs s u =
      handshake-Keeps first (λ name. serve w i rs (hang_up i name)) s u
        (λ name t g a. serve-Keeps rs (hang_up i name) t (hang_up-Keeps w T k i name t a))
