-- ===== src/Adapter/Resume/Pump.antt =====
-- internal/adapter/reconnect.go: the end of the pump of a connection.
use peerbus.Prelude.{
  ℕ, zero, suc, ◌≤◌, ◌<◌, ◌≡◌, ◌⊎◌, inl, inr, same, Bool, true, false, List, [], ◌∷◌, none, some,
  arith, refl, length, Option-cases, Bool-cases,
}
use peerbus.Wire.Control.{Deliver, control_type_of, control_deliver, control_peers}
use peerbus.Adapter.Client.{
  World, Client, Received, Read, not_connected, failed, claimed, binary, frame, recv_loop, recv,
  forward_peers, close,
}
use peerbus.Adapter.Resume.{Session, received, pump, goes_on}

module _ (w : World) (handler : ℕ → Deliver → Bool) where
  -- A result of `Recv`: it ends the loop, or a read was taken.
  abbrev Advances : ℕ → Received × List Read × Client → Type 0
  Advances n (r, rest, c) =
      ((s : Session) → received w r handler s ≡ none) ⊎ (suc (length rest) ≤ n)

  later_Advances :
      (n m : ℕ) (o : Received × List Read × Client) → n ≤ m → Advances n o → Advances m o
  later_Advances n m o h (inl e) = inl e
  later_Advances n m o h (inr e) = inr (omega arith)

  recv_loop-Advances : (rs : List Read) (c : Client) → Advances (length rs) (recv_loop w rs c)
  unfolding recv_loop received goes_on
  recv_loop-Advances [] c = inl (λ s. refl)
  recv_loop-Advances (failed ∷ rs) c = inl (λ s. refl)
  recv_loop-Advances (claimed ∷ rs) c = inl (λ s. refl)
  recv_loop-Advances (binary ∷ rs) c =
      later_Advances _ _ (recv_loop w rs c) (omega arith) (recv_loop-Advances rs c)
  recv_loop-Advances (frame f ∷ rs) c = elim (Option-cases (control_type_of f)) [
    | inl h ↦
        rw (h, recv_loop)
          (later_Advances _ _ (recv_loop w rs c) (omega arith) (recv_loop-Advances rs c))
    | inr (ct, h) ↦ elim (Bool-cases (same ct control_deliver)) [
      | inl deliver ↦ rw (h, recv_loop, deliver) (inr (omega arith))
      | inr other ↦ elim (Bool-cases (same ct control_peers)) [
        | inl peers ↦
            let c' = forward_peers w f c in
            rw (h, recv_loop, other, peers)
              (later_Advances _ _ (recv_loop w rs c') (omega arith) (recv_loop-Advances rs c'))
        | inr unknown ↦
            rw (h, recv_loop, other, unknown)
              (later_Advances _ _ (recv_loop w rs c) (omega arith) (recv_loop-Advances rs c))
      ]
    ]
  ]

  pub recv-open : (rs : List Read) (c : Client) → c.open_ ≡ true → recv w rs c ≡ recv_loop w rs c
  unfolding recv
  recv-open rs c o = ground arith

  pub recv-closed :
      (rs : List Read) (c : Client)
      → c.open_ ≡ false
      → recv w rs c ≡ ((none, some not_connected), rs, c)
  unfolding recv
  recv-closed rs c o = ground arith

  recv-Advances : (rs : List Read) (c : Client) → Advances (length rs) (recv w rs c)
  unfolding received goes_on
  recv-Advances rs c = elim (Bool-cases c.open_) [
    | inl o ↦ rw (recv-open rs c o) (recv_loop-Advances rs c)
    | inr o ↦ rw (recv-closed rs c o) (inl (λ s. refl))
  ]

  fewer :
      (n : ℕ) (o : Received × List Read × Client) (s s' : Session)
      → Advances n o
      → received w o.0 handler s ≡ some s'
      → suc (length o.1) ≤ n
  fewer n o s s' (inl e) q = absurd (cc (e s))
  fewer n o s s' (inr b) q = b

  -- With more fuel than there are reads the pump ends, whatever the reads are and whatever the handler
  -- answers.
  pub pump-total :
      (fuel : ℕ) (rs : List Read) (s : Session)
      → length rs < fuel
      → (s' : Session) × (pump w fuel handler rs s ≡ some s')
  unfolding pump
  pump-total zero rs s h = absurd (omega arith)
  pump-total (suc fuel) rs s h =
      let o = recv w rs s.client in
      let s' : Session = record s { client = o.2 } in
      elim (Option-cases (received w o.0 handler s')) [
        | inl e ↦ (record s' { client = close w s'.client }, rw (e, pump) refl)
        | inr (s'', e) ↦
            let b = fewer (length rs) o s' s'' (recv-Advances rs s.client) e in
            let (t, q) = pump-total fuel o.1 s'' (omega (arith, b, h)) in (t, rw (e, pump) q)
      ]
