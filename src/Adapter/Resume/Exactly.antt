-- ===== src/Adapter/Resume/Exactly.antt =====
-- internal/adapter/reconnect.go: what the host consumes over all the connections of `Run`.
use mathlib.Core.Path.{subst}
use mathlib.Core.Option.{some_inj}
use peerbus.Prelude.{
  ℕ, zero, suc, ◌≤◌, ◌≡◌, ◌⊎◌, inl, inr, Text, same, is_empty, Bool, true, false, List, [], ◌∷◌,
  Option, none, some, arith, refl, length, All, Option-cases, Bool-cases, if◌then◌else◌,
}
use peerbus.Wire.Control.{Deliver, control_type_of, control_deliver, control_peers, decode_deliver}
use peerbus.Hmac
use peerbus.Hmac.{verify_envelope}
use peerbus.Adapter.Dedupe.{contains, new_dedupe}
use peerbus.Adapter.Dedupe.Lru.{Distinct}
use peerbus.Adapter.Client.{
  World, Client, Config, Received, Read, failed, claimed, binary, frame, recv_loop, recv,
  check_deliver, forward_peers, close,
}
use peerbus.Adapter.Resume.{Session, received, goes_on, pump, base_backoff}
use peerbus.Adapter.Resume.Once.{IsOnce, surface-IsOnce, fresh_session, fresh_session-IsOnce}
use peerbus.Adapter.Resume.Pump.{pump-total, recv-open, recv-closed}
use peerbus.Adapter.Resume.Run.{
  Turn, Connected, connected, refused, given_up, dialling, End, turned, redial, run,
}

-- The id of the delivery in a read, if there is one, is in play.
abbrev IsPlayed : List Text → Option Deliver → Type 0
IsPlayed ids none = Unit
IsPlayed ids (some d) = contains d.envelope.id ids ≡ true

abbrev pub Among : List Text → Read → Type 0
Among ids failed = Unit
Among ids claimed = Unit
Among ids binary = Unit
Among ids (frame f) = IsPlayed ids (decode_deliver f)

kept : (b : Bool) (s s' : Session) → (if b then some s else none) ≡ some s' → s ≡ s'
kept true s s' e = some_inj.0 e
kept false s s' e = ground arith

verify_cases :
    {A : Type 0} (r : Hmac.Result A)
    → ((e : Hmac.Error) × (r ≡ Hmac.err e)) ⊎ ((a : A) × (r ≡ Hmac.ok a))
verify_cases (Hmac.err e) = inl (e, refl)
verify_cases (Hmac.ok a) = inr (a, refl)

module _ (w : World) (ids : List Text) where
  -- What a `Recv` returns is in play, and what is left.
  abbrev Gives : Received × List Read × Client → Type 0
  Gives (r, rest, c) = IsPlayed ids r.0 × All (Among ids) rest

  check_deliver-IsPlayed :
      (o : Option Deliver) (c : Client) → IsPlayed ids o → IsPlayed ids (check_deliver w o c).0
  unfolding check_deliver
  check_deliver-IsPlayed none c h = tt
  check_deliver-IsPlayed (some d) c h = elim (Bool-cases (is_empty d.delivery_key)) [
    | inl e ↦ rw (e, check_deliver) h
    | inr e ↦ elim (verify_cases (verify_envelope w.sha256 w.syntax c.cfg.hmac_secret d.envelope)) [
      | inl (x, f) ↦ rw (e, f, check_deliver) h
      | inr (x, f) ↦ rw (e, f, check_deliver) h
    ]
  ]

  recv_loop-Gives : (rs : List Read) (c : Client) → All (Among ids) rs → Gives (recv_loop w rs c)
  unfolding recv_loop
  recv_loop-Gives [] c h = (tt, tt)
  recv_loop-Gives (failed ∷ rs) c h = (tt, h.1)
  recv_loop-Gives (claimed ∷ rs) c h = (tt, h.1)
  recv_loop-Gives (binary ∷ rs) c h = recv_loop-Gives rs c h.1
  recv_loop-Gives (frame f ∷ rs) c (h, hs) = elim (Option-cases (control_type_of f)) [
    | inl e ↦ rw (e, recv_loop) (recv_loop-Gives rs c hs)
    | inr (ct, e) ↦ elim (Bool-cases (same ct control_deliver)) [
      | inl deliver ↦ rw (e, recv_loop, deliver) (check_deliver-IsPlayed (decode_deliver f) c h, hs)
      | inr other ↦ elim (Bool-cases (same ct control_peers)) [
        | inl peers ↦ rw (e, recv_loop, other, peers) (recv_loop-Gives rs (forward_peers w f c) hs)
        | inr unknown ↦ rw (e, recv_loop, other, unknown) (recv_loop-Gives rs c hs)
      ]
    ]
  ]

  recv-Gives : (rs : List Read) (c : Client) → All (Among ids) rs → Gives (recv w rs c)
  recv-Gives rs c h = elim (Bool-cases c.open_) [
    | inl o ↦ rw (recv-open w (λ n d. true) rs c o) (recv_loop-Gives rs c h)
    | inr o ↦ rw (recv-closed w (λ n d. true) rs c o) (tt, h)
  ]

  -- The session with another connection.
  with_client-IsOnce :
      (c : Client) (s : Session) → IsOnce ids s → IsOnce ids (record s { client = c })
  with_client-IsOnce c s o = record {
    cache = o.cache;
    fits = o.fits;
    known = o.known;
    once = o.once;
    agree = o.agree;
  }

  received-IsOnce :
      (r : Received) (handler : ℕ → Deliver → Bool) (s s' : Session)
      → IsPlayed ids r.0
      → IsOnce ids s
      → received w r handler s ≡ some s'
      → IsOnce ids s'
  unfolding received
  received-IsOnce (some del, none) handler s s' i o e =
      subst (IsOnce ids) (some_inj.0 e)
        (surface-IsOnce w ids del (handler (length s.offered) del) s o i)
  received-IsOnce (none, none) handler s s' i o e = ground arith
  received-IsOnce (none, some x) handler s s' i o e =
      subst (IsOnce ids) (kept (goes_on w x) s s' e) o
  received-IsOnce (some del, some x) handler s s' i o e =
      subst (IsOnce ids) (kept (goes_on w x) s s' e) o

  pump-IsOnce :
      (fuel : ℕ) (handler : ℕ → Deliver → Bool) (rs : List Read) (s s' : Session)
      → All (Among ids) rs
      → IsOnce ids s
      → pump w fuel handler rs s ≡ some s'
      → IsOnce ids s'
  unfolding pump
  pump-IsOnce zero handler rs s s' h o e = ground arith
  pump-IsOnce (suc fuel) handler rs s s' h o e =
      let r = recv w rs s.client in
      let t : Session = record s { client = r.2 } in
      let (i, rest) = recv-Gives rs s.client h in
      elim (Option-cases (received w r.0 handler t)) [
        | inl f ↦
            subst (IsOnce ids) (some_inj.0 (rw (f, pump) at e))
              (with_client-IsOnce (close w t.client) t (with_client-IsOnce r.2 s o))
        | inr (u, f) ↦
            pump-IsOnce fuel handler r.1 u s' rest
              (received-IsOnce r.0 handler t u i (with_client-IsOnce r.2 s o) f) (rw (f, pump) at e)
      ]

  -- The loop has come to an end, or to the end of what happens, with the invariant.
  abbrev Comes : Option (End × Session) → Type 0
  Comes o = (e : End) × ((s' : Session) × (o ≡ some (e, s')) × IsOnce ids s')

  turned-Comes :
      (handler : ℕ → Deliver → Bool) (r : Connected) (t : Turn) (s : Session)
      (rest : Session → Option (End × Session))
      → All (Among ids) t.reads
      → IsOnce ids s
      → ((s' : Session) → IsOnce ids s' → Comes (rest s'))
      → Comes (turned w handler r t s rest)
  unfolding turned
  turned-Comes handler dialling t s rest h o k = (_, (s, refl, o))
  turned-Comes handler given_up t s rest h o k = (_, (s, refl, o))
  turned-Comes handler (refused e) t s rest h o k = (_, (s, refl, o))
  turned-Comes handler (connected c) t s rest h o k =
      let n = suc (length t.reads) in
      let (s', e) = pump-total w handler n t.reads (record s { client = c }) (omega arith) in
      let o' =
        pump-IsOnce n handler t.reads (record s { client = c }) s' h (with_client-IsOnce c s o) e in
      elim (Bool-cases t.cancelled) [
        | inl b ↦ rw (e, b, turned) (_, (s', refl, o'))
        | inr b ↦ rw (e, b, turned) (k s' o')
      ]

  run-Comes :
      (cfg : Config) (handler : ℕ → Deliver → Bool) (ts : List Turn) (s : Session)
      → All (λ t. All (Among ids) t.reads) ts
      → IsOnce ids s
      → Comes (run w cfg handler ts s)
  unfolding run
  run-Comes cfg handler [] s h o = (_, (s, refl, o))
  run-Comes cfg handler (t ∷ ts) s (h, hs) o =
      turned-Comes handler (redial w base_backoff t.attempts cfg).0 t s
        (λ s'. run w cfg handler ts s') h o (λ s' o'. run-Comes cfg handler ts s' hs o')

-- If the ids that the connections read are among some list that is no longer than the cache, then
-- over any number of connections, each dropped and redialled in any way, `run` comes to a result, and
-- the host has consumed no id twice.
pub run_once :
    (w : World) (size : ℕ) (ids : List Text) (cfg : Config) (handler : ℕ → Deliver → Bool)
    (ts : List Turn) (c : Client)
    → length ids ≤ (new_dedupe size).max
    → All (λ t. All (Among ids) t.reads) ts
    → (e : End) × ((s : Session) × (run w cfg handler ts (fresh_session size c) ≡ some (e, s))
        × Distinct s.consumed)
run_once w size ids cfg handler ts c f h =
    let (e, (s, q, o)) =
      run-Comes w ids cfg handler ts (fresh_session size c) h (fresh_session-IsOnce size ids c f) in
    (e, (s, q, o.once))
