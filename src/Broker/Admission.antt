-- ===== src/Broker/Admission.antt =====
-- internal/broker/server.go: which handshakes succeed, and what they do to the registry.
use peerbus.Prelude.{
  ℕ, ◌≡◌, ◌≢◌, ◌⊎◌, inl, inr, Text, true, List, [], ◌∷◌, Option, none, some, arith, refl, ◌∙◌, ap,
  Option-cases,
}
use peerbus.Wire.Json.{Json}
use peerbus.Wire.Envelope.{Envelope, check_version, decode}
use peerbus.Wire.Control.{Register, Frame, control_register, decode_register}
use peerbus.Store.{register, requeue_unacked, pending_for}
use peerbus.Store.Schema.{Message}
use peerbus.Store.Handle.{Result, ok, err}
use peerbus.Broker.Auth.{valid}
use peerbus.Broker.Registry.{Binding, Registry, Bound, fresh, taken_over, bind, find}
use peerbus.Broker.Registry.Laws.{bind_cases}
use peerbus.Broker.State.{
  World, Server, Reason, set_conn, close_normal, close_taken_over, write_json, audit_event,
}
use peerbus.Broker.Router.{push, mark_and_audit, peers_reply}
use peerbus.Broker.Server.{
  Read, frame, failed, binary, cancelled, handshake, admit, refusal, welcome, flush, flush_rows,
  flush_pending, after_register, after_bind, after_checks, after_decode,
}

registry-close_normal :
    (c : ℕ) (why : Reason) (s : Server) → (close_normal c why s).registry ≡ s.registry
unfolding close_normal
registry-close_normal c why s = ground arith

registry-close_taken_over : (c : ℕ) (s : Server) → (close_taken_over c s).registry ≡ s.registry
unfolding close_taken_over
registry-close_taken_over c s = ground arith

module _ (w : World) (c : ℕ) where
  registry-push :
      (n : Text) (m : Message) (env : Envelope) (s : Server)
      → (push w c n m env s).1.registry ≡ s.registry
  unfolding push write_json mark_and_audit audit_event
  registry-push n m env s = ground arith

  registry-flush : (ms : List Message) (s : Server) → (flush w c ms s).registry ≡ s.registry
  unfolding flush
  registry-flush [] s = refl
  registry-flush (m ∷ ms) s = elim (Option-cases (decode m.envelope)) [
    | inl e ↦ rw (e, flush) (registry-flush ms s)
    | inr (env, e) ↦
        let pushed = push w c (s.conns c).name m env s in
        rw (e, flush)
          (ground (arith, registry-push (s.conns c).name m env s, registry-flush ms pushed.1))
  ]

  registry-flush_rows :
      (r : Result (List Message)) (s : Server) → (flush_rows w c r s).registry ≡ s.registry
  unfolding flush_rows
  registry-flush_rows (err _) s = refl
  registry-flush_rows (ok ms) s = registry-flush ms s

  registry-flush_pending : (s : Server) → (flush_pending w c s).registry ≡ s.registry
  unfolding flush_pending
  registry-flush_pending s =
      registry-flush_rows (pending_for w.driver (s.conns c).name s.store).0
        (record s { store = (pending_for w.driver (s.conns c).name s.store).1 })

  registry-write_json : (f : Json) (s : Server) → (write_json w c f s).1.registry ≡ s.registry
  unfolding write_json
  registry-write_json f s = ground arith

  -- Where a welcome succeeds, the registry stays as it was.
  registry-welcome :
      (reg : Register) (s : Server) (n : Text)
      → (welcome w c reg s).0 ≡ some n
      → (n ≡ reg.name) × ((welcome w c reg s).1.registry ≡ s.registry)
  unfolding welcome
  registry-welcome reg s0 n e =
      let s : Server = record s0 { store = (requeue_unacked w.driver reg.name s0.store).1 } in
      let (done, s') = write_json w c (peers_reply s) s in
      ground (
        arith,
        registry-write_json (peers_reply s) s,
        registry-flush_pending (set_conn c (record (s'.conns c) { name = reg.name }) s'),
      )

  bind_claimed :
      (b held : Binding) (r : Registry)
      → find b.name r ≡ some held
      → held.token ≢ b.token
      → bind b r ≡ (Bound.name_claimed, r)
  unfolding bind
  bind_claimed b held r h other = ground arith

  -- The name is held under another token.
  abbrev IsHeld : Register → Registry → Type 0
  IsHeld reg r = (held : Binding) × (find reg.name r ≡ some held) × (held.token ≢ reg.token)

  -- Refused, with the registry as it was.
  abbrev Refuses : Registry → Option Text × Server → Type 0
  Refuses r (o, s') = (o ≡ none) × (s'.registry ≡ r)

  after_register-Refuses :
      (o : Result (Unit {0})) (reg : Register) (s : Server)
      → IsHeld reg s.registry
      → Refuses s.registry (after_register w o c reg s)
  unfolding after_register after_bind
  after_register-Refuses (err _) reg s h = (refl, registry-close_normal c _ s)
  after_register-Refuses (ok _) reg s (held, h, other) =
      let b : Binding = record { name = reg.name; token = reg.token; conn = c } in
      rw (bind_claimed b held s.registry h other) (refl, registry-close_normal c _ s)

  after_checks-Refuses :
      (o : Option Reason) (reg : Register) (s : Server)
      → IsHeld reg s.registry
      → Refuses s.registry (after_checks w o c reg s)
  unfolding after_checks admit
  after_checks-Refuses (some why) reg s h = (refl, registry-close_normal c why s)
  after_checks-Refuses none reg s h =
      after_register-Refuses (register w.driver reg.name s.store).0 reg
        (record s { store = (register w.driver reg.name s.store).1 }) h

  -- A register frame for a name that is held under another token is refused, and leaves the registry
  -- as it was, whatever else is in the frame and whatever fails.
  pub hijack_refused :
      (f : Frame) (reg : Register) (held : Binding) (s : Server)
      → decode_register f ≡ some reg
      → find reg.name s.registry ≡ some held
      → held.token ≢ reg.token
      → ((handshake w c (frame f) s).0 ≡ none)
        × ((handshake w c (frame f) s).1.registry ≡ s.registry)
  unfolding handshake after_decode
  hijack_refused f reg held s e h other =
      rw (e, after_decode) (after_checks-Refuses (refusal s reg) reg s (held, h, other))

  -- The name is bound to this connection, under the token of the frame.
  abbrev pub IsBound : Register → Text → Server → Type 0
  IsBound reg n s' =
      (n ≡ reg.name)
      × (find n s'.registry ≡ some (record { name = reg.name; token = reg.token; conn = c }))

  welcome-IsBound :
      (reg : Register) (s : Server) (n : Text)
      → find reg.name s.registry ≡ some (record { name = reg.name; token = reg.token; conn = c })
      → (welcome w c reg s).0 ≡ some n
      → IsBound reg n (welcome w c reg s).1
  welcome-IsBound reg s n b e =
      let (name, kept) = registry-welcome reg s n e in (name, rw (kept, name) b)

  after_bind-IsBound :
      (o : Bound) (reg : Register) (s : Server) (n : Text)
      → (o ≡ Bound.name_claimed)
        ⊎ (find reg.name s.registry
            ≡ some (record { name = reg.name; token = reg.token; conn = c }))
      → (after_bind w o c reg s).0 ≡ some n
      → IsBound reg n (after_bind w o c reg s).1
  unfolding after_bind
  after_bind-IsBound fresh reg s n (inl h) e = absurd (cc h)
  after_bind-IsBound fresh reg s n (inr b) e = welcome-IsBound reg s n b e
  after_bind-IsBound (taken_over old) reg s n (inl h) e = absurd (cc h)
  after_bind-IsBound (taken_over old) reg s n (inr b) e =
      welcome-IsBound reg (close_taken_over old s) n
        (ap (find reg.name) (registry-close_taken_over old s) ∙ b) e
  after_bind-IsBound Bound.name_claimed reg s n h e = absurd (cc e)

  bind_answers :
      (b : Binding) (r : Registry)
      → ((bind b r).0 ≡ Bound.name_claimed) ⊎ (find b.name (bind b r).1 ≡ some b)
  bind_answers b r = elim (bind_cases b r) [
    | inl (_, _, found) ↦ inr found
    | inr (inl (_, _, _, _, found)) ↦ inr found
    | inr (inr (_, _, _, claimed, _)) ↦ inl claimed
  ]

  after_register-IsBound :
      (o : Result (Unit {0})) (reg : Register) (s : Server) (n : Text)
      → (after_register w o c reg s).0 ≡ some n
      → IsBound reg n (after_register w o c reg s).1
  unfolding after_register
  after_register-IsBound (err _) reg s n e = absurd (cc e)
  after_register-IsBound (ok _) reg s n e =
      let b : Binding = record { name = reg.name; token = reg.token; conn = c } in
      after_bind-IsBound (bind b s.registry).0 reg (record s { registry = (bind b s.registry).1 }) n
        (bind_answers b s.registry) e

  -- The frame passed the checks on an authenticator.
  abbrev pub IsGenuine : Register → Server → Type 0
  IsGenuine reg s =
      (reg.kind ≡ control_register)
      × (check_version reg.protocol_version ≡ true)
      × (reg.name ≢ [])
      × (valid s.auth reg.token ≡ true)

  refusal-IsGenuine : (reg : Register) (s : Server) → refusal s reg ≡ none → IsGenuine reg s
  unfolding refusal
  refusal-IsGenuine reg s e = (ground arith, ground arith, named, ground arith)
    where
      named : reg.name ≢ []
      named h = ground arith

  after_checks-IsBound :
      (o : Option Reason) (reg : Register) (s : Server) (n : Text)
      → (after_checks w o c reg s).0 ≡ some n
      → (o ≡ none) × IsBound reg n (after_checks w o c reg s).1
  unfolding after_checks admit
  after_checks-IsBound (some why) reg s n e = absurd (cc e)
  after_checks-IsBound none reg s n e = (
    refl,
    after_register-IsBound (register w.driver reg.name s.store).0 reg
        (record s { store = (register w.driver reg.name s.store).1 }) n e,
  )

  -- What a handshake that succeeds has read.
  abbrev pub Admits : Read → Server → Text → Server → Type 0
  Admits r s n s' =
      (f : Frame) × (reg : Register) × (r ≡ frame f)
      × (decode_register f ≡ some reg)
      × IsGenuine reg s
      × IsBound reg n s'

  after_decode-Admits :
      (f : Frame) (s : Server) (n : Text)
      → (after_decode w (decode_register f) c s).0 ≡ some n
      → Admits (frame f) s n (after_decode w (decode_register f) c s).1
  after_decode-Admits f s n e = elim (Option-cases (decode_register f)) [
    | inl d ↦ absurd (unfold after_decode in ground arith)
    | inr (reg, d) ↦
        let checked : (after_checks w (refusal s reg) c reg s).0 ≡ some n =
          unfold after_decode in ground arith in
        let (passed, bound) = after_checks-IsBound (refusal s reg) reg s n checked in
        (
          f,
          reg,
          refl,
          d,
          refusal-IsGenuine reg s passed,
          unfold after_decode in rw (d, after_decode) bound,
        )
  ]

  -- A handshake that succeeds has read a register frame of the broker's version, with a name and a
  -- configured token, and the name is then bound to this connection under that token.
  pub handshake-Admits :
      (r : Read) (s : Server) (n : Text)
      → (handshake w c r s).0 ≡ some n
      → Admits r s n (handshake w c r s).1
  unfolding handshake
  handshake-Admits failed s n e = absurd (cc e)
  handshake-Admits cancelled s n e = absurd (cc e)
  handshake-Admits binary s n e = absurd (cc e)
  handshake-Admits (frame f) s n e = after_decode-Admits f s n e
