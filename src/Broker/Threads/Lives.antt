-- ===== src/Broker/Threads/Lives.antt =====
-- internal/broker: a connection whose goroutine runs alone is served as Broker/Server says.
use peerbus.Prelude.{
  ℕ, ◌≡◌, Text, Bool, true, false, List, [], ◌∷◌, ◌++◌, Option, none, some, arith, refl, ◌∙◌,
  Option-cases, inl, inr, if◌then◌else◌,
}
use peerbus.Wire.Envelope.{decode}
use peerbus.Wire.Control.{Register, decode_register}
use peerbus.Store.{register, requeue_unacked, pending_for}
use peerbus.Store.Schema.{Message}
use peerbus.Store.Handle.{Result, ok, err}
use peerbus.Broker.Registry.{Bound, fresh, taken_over, bind, remove}
use peerbus.Broker.State.{
  World, Server, Reason, ack_failed, close_taken_over, close_normal, set_conn, write_json,
}
use peerbus.Broker.Router as Routing
use peerbus.Broker.Server as Whole
use peerbus.Broker.Server.{Read, failed, binary, cancelled, frame, refusal}
use peerbus.Broker.Threads.{Prog, run_alone, look, atomic, call, write}
use peerbus.Broker.Threads.Alone.{run_alone-push, run_alone-route_frame}
use peerbus.Broker.Threads.Handlers.{
  bind_step, remove_step, name_step, refuse, flush, flush_rows, flush_pending, welcome, after_bind,
  after_register, admit, after_checks, after_decode, handshake, serve, hang_up, serve_http,
}

module _ (w : World) where
  run_alone-flush :
      (c : ℕ) (ms : List Message) (next : Prog) (s : Server)
      → run_alone (flush w c ms next) s ≡ run_alone next (Whole.flush w c ms s)
  unfolding run_alone flush look Whole.flush
  run_alone-flush c [] next s = refl
  run_alone-flush c (m ∷ ms) next s = elim (Option-cases (decode m.envelope)) [
    | inl e ↦ rw (e, flush, Whole.flush) (run_alone-flush c ms next s)
    | inr (env, e) ↦
        let o = Routing.push w c (s.conns c).name m env s in
        let k : Bool → Prog = λ sent. if sent then flush w c ms next else next in
        rw (e, flush, Whole.flush)
          (run_alone-push w c (s.conns c).name m env k s
            ∙ ground (arith, run_alone-flush c ms next o.1))
  ]

  run_alone-flush_rows :
      (c : ℕ) (r : Result (List Message)) (next : Prog) (s : Server)
      → run_alone (flush_rows w c r next) s ≡ run_alone next (Whole.flush_rows w c r s)
  unfolding flush_rows Whole.flush_rows
  run_alone-flush_rows c (err e) next s = refl
  run_alone-flush_rows c (ok ms) next s = run_alone-flush c ms next s

  run_alone-flush_pending :
      (c : ℕ) (next : Prog) (s : Server)
      → run_alone (flush_pending w c next) s ≡ run_alone next (Whole.flush_pending w c s)
  unfolding run_alone look call flush_pending Whole.flush_pending
  run_alone-flush_pending c next s =
      let r = pending_for w.driver (s.conns c).name s.store in
      run_alone-flush_rows c r.0 next (record s { store = r.1 })

  -- What follows a handshake that answered `r`.
  afterwards : (Text → Prog) → Option Text × Server → Server
  afterwards k (none, s) = s
  afterwards k (some name, s) = run_alone (k name) s

  run_alone-welcome :
      (c : ℕ) (reg : Register) (k : Text → Prog) (s : Server)
      → run_alone (welcome w c reg (k reg.name)) s ≡ afterwards k (Whole.welcome w c reg s)
  unfolding run_alone look call write atomic welcome name_step remove_step refuse Whole.welcome
      afterwards
  run_alone-welcome c reg k s0 =
      let s : Server = record s0 { store = (requeue_unacked w.driver reg.name s0.store).1 } in
      written (write_json w c (Routing.peers_reply s) s)
    where
      written :
          (r : Bool × Server)
          → run_alone
              (if r.0
                then name_step reg.name c (flush_pending w c (k reg.name))
                else remove_step reg.name c (refuse c ack_failed))
              r.1
            ≡ afterwards k (
                if r.0
                then (
                  some reg.name,
                  Whole.flush_pending w c
                      (set_conn c (record (r.1.conns c) { name = reg.name }) r.1),
                )
                else (
                  none,
                  close_normal c ack_failed
                      (record r.1 { registry = remove reg.name c r.1.registry }),
                ))
      written (true, t) =
          run_alone-flush_pending c (k reg.name)
            (set_conn c (record (t.conns c) { name = reg.name }) t)
      written (false, t) = refl

  run_alone-after_bind :
      (o : Bound) (c : ℕ) (reg : Register) (k : Text → Prog) (s : Server)
      → run_alone (after_bind w o c reg (k reg.name)) s
        ≡ afterwards k (Whole.after_bind w o c reg s)
  unfolding run_alone atomic after_bind refuse Whole.after_bind afterwards
  run_alone-after_bind fresh c reg k s = run_alone-welcome c reg k s
  run_alone-after_bind (taken_over old) c reg k s =
      run_alone-welcome c reg k (close_taken_over old s)
  run_alone-after_bind Bound.name_claimed c reg k s = refl

  run_alone-after_register :
      (r : Result (Unit {0})) (c : ℕ) (reg : Register) (k : Text → Prog) (s : Server)
      → run_alone (after_register w r c reg (k reg.name)) s
        ≡ afterwards k (Whole.after_register w r c reg s)
  unfolding run_alone atomic after_register bind_step refuse Whole.after_register afterwards
  run_alone-after_register (err e) c reg k s = refl
  run_alone-after_register (ok u) c reg k s =
      let o = bind (record { name = reg.name; token = reg.token; conn = c }) s.registry in
      run_alone-after_bind o.0 c reg k (record s { registry = o.1 })

  run_alone-after_checks :
      (o : Option Reason) (c : ℕ) (reg : Register) (k : Text → Prog) (s : Server)
      → run_alone (after_checks w o c reg (k reg.name)) s
        ≡ afterwards k (Whole.after_checks w o c reg s)
  unfolding run_alone atomic after_checks admit call refuse Whole.after_checks Whole.admit
      afterwards
  run_alone-after_checks (some why) c reg k s = refl
  run_alone-after_checks none c reg k s =
      let r = register w.driver reg.name s.store in
      run_alone-after_register r.0 c reg k (record s { store = r.1 })

  run_alone-after_decode :
      (o : Option Register) (c : ℕ) (k : Text → Prog) (s : Server)
      → run_alone (after_decode w o c k) s ≡ afterwards k (Whole.after_decode w o c s)
  unfolding run_alone look atomic after_decode refuse Whole.after_decode afterwards
  run_alone-after_decode none c k s = refl
  run_alone-after_decode (some reg) c k s = run_alone-after_checks (refusal s reg) c reg k s

  run_alone-handshake :
      (c : ℕ) (r : Read) (k : Text → Prog) (s : Server)
      → run_alone (handshake w c r k) s ≡ afterwards k (Whole.handshake w c r s)
  unfolding run_alone atomic handshake refuse Whole.handshake afterwards
  run_alone-handshake c failed k s = refl
  run_alone-handshake c cancelled k s = refl
  run_alone-handshake c binary k s = refl
  run_alone-handshake c (frame f) k s = run_alone-after_decode (decode_register f) c k s

  run_alone-serve :
      (c : ℕ) (rs : List Read) (next : Prog) (s : Server)
      → run_alone (serve w c (rs ++ failed ∷ []) next) s ≡ run_alone next (Whole.serve w c rs s)
  unfolding run_alone look atomic serve Whole.serve
  run_alone-serve c [] next s = refl
  run_alone-serve c (failed ∷ rs) next s = refl
  run_alone-serve c (cancelled ∷ rs) next s = ground arith
  run_alone-serve c (binary ∷ rs) next s = ground (arith, run_alone-serve c rs next s)
  run_alone-serve c (frame f ∷ rs) next s =
      let e = run_alone-route_frame w c f (serve w c (rs ++ failed ∷ []) next) s in
      ground (arith, e ∙ run_alone-serve c rs next (Routing.route_frame w c f s))

  -- A connection whose goroutine runs alone, to a read that fails, is served from its handshake to its end exactly as by
  -- the handlers that run as a whole.
  run_alone-serve_http :
      (c : ℕ) (first : Read) (rs : List Read) (s : Server)
      → run_alone (serve_http w c first (rs ++ failed ∷ [])) s ≡ Whole.serve_http w c first rs s
  unfolding serve_http Whole.serve_http run_alone atomic remove_step
  run_alone-serve_http c first rs s =
      run_alone-handshake c first (λ name. serve w c (rs ++ failed ∷ []) (hang_up c name)) s
      ∙ lived (Whole.handshake w c first s)
    where
      lived :
          (r : Option Text × Server)
          → afterwards (λ name. serve w c (rs ++ failed ∷ []) (hang_up c name)) r
            ≡ Whole.after_handshake w r.0 c rs r.1
      lived (none, s') = unfold afterwards in refl
      lived (some name, s') =
          unfold afterwards in
          unfold hang_up in unfold Whole.hang_up in run_alone-serve c rs (hang_up c name) s'
