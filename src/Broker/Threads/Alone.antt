-- ===== src/Broker/Threads/Alone.antt =====
-- internal/broker: a goroutine that runs alone is the handler of Broker/Router and Broker/Server.
use peerbus.Prelude.{
  ℕ, ◌≡◌, Text, text, same, Bool, true, false, List, [], ◌∷◌, Option, none, some, arith, refl, ◌∙◌,
  Bool-cases, inl, inr, if◌then◌else◌,
}
use peerbus.Wire.Envelope.{Envelope, decode}
use peerbus.Wire.Control.{Frame, Ack, control_type_of, decode_ack}
use peerbus.Store.{enqueue, mark_delivered, mark_acked}
use peerbus.Store.Schema.{Message}
use peerbus.Store.Handle.{Result, ok, err}
use peerbus.Broker.Registry.{get, names}
use peerbus.Broker.State.{World, Server, write_json, audit_event}
use peerbus.Broker.Router as Whole
use peerbus.Broker.Threads.{Prog, run_alone, look, atomic, call, write, audit}
use peerbus.Broker.Threads.Router.{
  push, deliver_env, deliver_on, deliver_to, after_enqueue, send_row, route_direct, fan_out,
  route_broadcast, route_envelope, after_ack, handle_ack, handle_peers, route_decoded, route_data,
  route_ack, route_typed, route_frame,
}

module _ (w : World) where
  pub run_alone-push :
      (c : ℕ) (x : Text) (m : Message) (env : Envelope) (k : Bool → Prog) (s : Server)
      → run_alone (push w c x m env k) s
        ≡ run_alone (k (Whole.push w c x m env s).0) (Whole.push w c x m env s).1
  unfolding run_alone push write call audit atomic Whole.push Whole.mark_and_audit
  run_alone-push c x m env k s = written (write_json w c (Whole.deliver_frame m.id env) s)
    where
      written :
          (r : Bool × Server)
          → run_alone
              (if r.0
                then call
                    (mark_delivered w.driver m.id)
                    (λ _. audit w (text "deliver") m.id m.from x (k true))
                else k false)
              r.1
            ≡ let o : Bool × Server =
                if r.0 then (true, Whole.mark_and_audit w m x r.1) else (false, r.1) in
              run_alone (k o.0) o.1
      written (true, t) = refl
      written (false, t) = refl

  run_alone-deliver_env :
      (o : Option Envelope) (c : ℕ) (r : Text) (m : Message) (next : Prog) (s : Server)
      → run_alone (deliver_env w o c r m next) s ≡ run_alone next (Whole.deliver_env w o c r m s)
  unfolding deliver_env Whole.deliver_env
  run_alone-deliver_env none c r m next s = refl
  run_alone-deliver_env (some env) c r m next s = run_alone-push c r m env (λ _. next) s

  run_alone-deliver_on :
      (o : Option ℕ) (r : Text) (m : Message) (next : Prog) (s : Server)
      → run_alone (deliver_on w o r m next) s ≡ run_alone next (Whole.deliver_on w o r m s)
  unfolding deliver_on Whole.deliver_on
  run_alone-deliver_on none r m next s = refl
  run_alone-deliver_on (some c) r m next s = run_alone-deliver_env (decode m.envelope) c r m next s

  run_alone-after_enqueue :
      (o : Result (Unit {0})) (m : Message) (next : Prog) (s : Server)
      → run_alone (after_enqueue w o m next) s ≡ run_alone next (Whole.after_enqueue w o m s)
  unfolding run_alone after_enqueue Whole.after_enqueue audit atomic deliver_to look
      Whole.deliver_to
  run_alone-after_enqueue (err e) m next s = refl
  run_alone-after_enqueue (ok u) m next s =
      let s' : Server = audit_event w (text "send") m.id m.from m.to s in
      run_alone-deliver_on (get m.to s'.registry) m.to m next s'

  run_alone-send_row :
      (m : Message) (next : Prog) (s : Server)
      → run_alone (send_row w m next) s ≡ run_alone next (Whole.send_row w m s)
  unfolding run_alone send_row call Whole.send_row
  run_alone-send_row m next s =
      run_alone-after_enqueue (enqueue w.driver m s.store).0 m next
        (record s { store = (enqueue w.driver m s.store).1 })

  run_alone-fan_out :
      (from : Text) (env : Envelope) (rs : List Text) (next : Prog) (s : Server)
      → run_alone (fan_out w from env rs next) s ≡ run_alone next (Whole.fan_out w from env rs s)
  unfolding fan_out Whole.fan_out
  run_alone-fan_out from env [] next s = refl
  run_alone-fan_out from env (r ∷ rs) next s =
      let rest = fan_out w from env rs next in
      let m = Whole.message (Whole.row_id env.id r) from r env in
      elim (Bool-cases (same r from)) [
        | inl e ↦ rw (e, fan_out) (run_alone-fan_out from env rs next s)
        | inr e ↦
            rw (e, fan_out) (run_alone-send_row m rest s ∙ run_alone-fan_out from env rs next _)
      ]

  run_alone-route_envelope :
      (from : Text) (env : Envelope) (next : Prog) (s : Server)
      → run_alone (route_envelope w from env next) s
        ≡ run_alone next (Whole.route_envelope w from env s)
  unfolding run_alone look route_envelope route_broadcast route_direct Whole.route_envelope
      Whole.route_broadcast Whole.route_direct
  run_alone-route_envelope from env next s = ground (
    arith,
    run_alone-fan_out from env (names s.registry) next s,
    run_alone-send_row (Whole.message env.id from env.to env) next s,
  )

  run_alone-after_ack :
      (o : Result (Unit {0})) (a : Ack) (from : Text) (next : Prog) (s : Server)
      → run_alone (after_ack w o a from next) s ≡ run_alone next (Whole.after_ack w o a from s)
  unfolding run_alone after_ack audit atomic Whole.after_ack
  run_alone-after_ack (err e) a from next s = refl
  run_alone-after_ack (ok u) a from next s = refl

  run_alone-handle_ack :
      (a : Ack) (from : Text) (next : Prog) (s : Server)
      → run_alone (handle_ack w a from next) s ≡ run_alone next (Whole.handle_ack w a from s)
  unfolding run_alone handle_ack call Whole.handle_ack
  run_alone-handle_ack a from next s = ground (
    arith,
    run_alone-after_ack (mark_acked w.driver a.id s.store).0 a from next
        (record s { store = (mark_acked w.driver a.id s.store).1 }),
  )

  run_alone-route_ack :
      (o : Option Ack) (c : ℕ) (next : Prog) (s : Server)
      → run_alone (route_ack w o c next) s ≡ run_alone next (Whole.route_ack w o c s)
  unfolding run_alone route_ack look Whole.route_ack
  run_alone-route_ack none c next s = refl
  run_alone-route_ack (some a) c next s = run_alone-handle_ack a (s.conns c).name next s

  run_alone-route_decoded :
      (c : ℕ) (o : Option Envelope) (next : Prog) (s : Server)
      → run_alone (route_decoded w c o next) s ≡ run_alone next (Whole.route_decoded w c o s)
  unfolding run_alone route_decoded look Whole.route_decoded
  run_alone-route_decoded c none next s = refl
  run_alone-route_decoded c (some env) next s =
      ground (arith, run_alone-route_envelope (s.conns c).name env next s)

  run_alone-route_typed :
      (o : Option Text) (c : ℕ) (f : Frame) (next : Prog) (s : Server)
      → run_alone (route_typed w o c f next) s ≡ run_alone next (Whole.route_typed w o c f s)
  unfolding run_alone route_typed route_data handle_peers look write Whole.route_typed
      Whole.route_data Whole.handle_peers
  run_alone-route_typed none c f next s = run_alone-route_decoded c (Whole.decode_frame w f) next s
  run_alone-route_typed (some ct) c f next s = ground (
    arith,
    run_alone-route_ack (decode_ack f) c next s,
    run_alone-route_decoded c (Whole.decode_frame w f) next s,
  )

  -- Routing a frame.
  pub run_alone-route_frame :
      (c : ℕ) (f : Frame) (next : Prog) (s : Server)
      → run_alone (route_frame w c f next) s ≡ run_alone next (Whole.route_frame w c f s)
  unfolding route_frame Whole.route_frame
  run_alone-route_frame c f next s = run_alone-route_typed (control_type_of f) c f next s
