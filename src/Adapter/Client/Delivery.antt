-- ===== src/Adapter/Client/Delivery.antt =====
-- internal/adapter/client.go: what `Recv` surfaces.
use peerbus.Prelude.{
  ◌≡◌, ◌≢◌, Text, same, same_refl, is_empty, true, false, ◌||◌, List, [], ◌∷◌, Option, none, some,
  arith, refl, ap, ◌∙◌, Option-cases, Bool-cases, inl, inr,
}
use peerbus.Wire.Envelope.{Envelope, received, protocol_version}
use peerbus.Wire.Control.{
  Deliver, Frame, control_deliver, control_peers, control_type_of, decode_deliver, encode_deliver,
  decode_deliver-encode, control_type_of-encode_deliver,
}
use peerbus.Broker.Router.{deliver_frame}
use peerbus.Hmac
use peerbus.Hmac.{sign_envelope, verify_envelope}
use peerbus.Hmac.Integrity.{verify_envelope-received}
use peerbus.Adapter.Client.{
  World, Client, Config, Received, Read, failed, claimed, binary, frame, check_deliver, recv_loop,
  recv, forward_peers,
}

module _ (w : World) where
  -- The frame is accepted only with a key and a signature that verifies under the secret.
  abbrev Accepts : Text → Received → Type 0
  Accepts secret r =
      (d : Deliver)
      → r ≡ (some d, none)
      → (d.delivery_key ≢ []) × (verify_envelope w.sha256 w.syntax secret d.envelope ≡ Hmac.ok tt)

  check_deliver-Accepts :
      (secret : Text) (o : Option Deliver) (c : Client)
      → c.cfg.hmac_secret ≡ secret
      → Accepts secret (check_deliver w o c)
  unfolding check_deliver
  check_deliver-Accepts secret none c s d e = absurd (ground arith)
  check_deliver-Accepts secret (some x) c s d e = (ground arith, ground arith)

  cfg-forward_peers : (f : Frame) (c : Client) → (forward_peers w f c).cfg ≡ c.cfg
  unfolding forward_peers
  cfg-forward_peers f c = ground arith

  recv_loop-Accepts :
      (secret : Text) (rs : List Read) (c : Client)
      → c.cfg.hmac_secret ≡ secret
      → Accepts secret (recv_loop w rs c).0
  unfolding recv_loop
  recv_loop-Accepts secret [] c s = λ d e. absurd (ground arith)
  recv_loop-Accepts secret (failed ∷ rs) c s = λ d e. absurd (ground arith)
  recv_loop-Accepts secret (claimed ∷ rs) c s = λ d e. absurd (ground arith)
  recv_loop-Accepts secret (binary ∷ rs) c s = recv_loop-Accepts secret rs c s
  recv_loop-Accepts secret (frame f ∷ rs) c s = elim (Option-cases (control_type_of f)) [
    | inl h ↦ rw (h, recv_loop) (recv_loop-Accepts secret rs c s)
    | inr (ct, h) ↦ elim (Bool-cases (same ct control_deliver)) [
      | inl deliver ↦
          rw (h, recv_loop, deliver) (check_deliver-Accepts secret (decode_deliver f) c s)
      | inr other ↦ elim (Bool-cases (same ct control_peers)) [
        | inl peers ↦
            rw (h, recv_loop, other, peers)
              (recv_loop-Accepts secret rs (forward_peers w f c)
                (ap (λ (x : Config). x.hmac_secret) (cfg-forward_peers f c) ∙ s))
        | inr unknown ↦ rw (h, recv_loop, other, unknown) (recv_loop-Accepts secret rs c s)
      ]
    ]
  ]

  -- Whatever the broker sends, a frame that `Recv` returns without an error carries a key, and its
  -- envelope verifies under the client's secret.
  pub recv_authentic :
      (rs : List Read) (c : Client) (d : Deliver)
      → (recv w rs c).0 ≡ (some d, none)
      → (d.delivery_key ≢ [])
        × (verify_envelope w.sha256 w.syntax c.cfg.hmac_secret d.envelope ≡ Hmac.ok tt)
  unfolding recv
  recv_authentic rs c d e =
      let inner : (recv_loop w rs c).0 ≡ (some d, none) = ground arith in
      recv_loop-Accepts c.cfg.hmac_secret rs c refl d inner

  recv_loop-deliver :
      (f : Frame) (rs : List Read) (c : Client)
      → control_type_of f ≡ some control_deliver
      → recv_loop w (frame f ∷ rs) c ≡ (check_deliver w (decode_deliver f) c, rs, c)
  unfolding recv_loop
  recv_loop-deliver f rs c h = rw (h, recv_loop, same_refl control_deliver)

  recv-open : (rs : List Read) (c : Client) → c.open_ ≡ true → recv w rs c ≡ recv_loop w rs c
  unfolding recv
  recv-open rs c o = ground arith

  accepted :
      (d : Deliver) (c : Client)
      → d.delivery_key ≢ []
      → verify_envelope w.sha256 w.syntax c.cfg.hmac_secret d.envelope ≡ Hmac.ok tt
      → check_deliver w (some d) c ≡ (some d, none)
  unfolding check_deliver
  accepted d c k v =
      let e : is_empty d.delivery_key ≡ false = nonempty d.delivery_key k in rw (e, v)
    where
      nonempty : (t : Text) → t ≢ [] → is_empty t ≡ false
      nonempty [] h = absurd (h refl)
      nonempty (x ∷ t) h = refl

  -- The deliver frame of the broker for an envelope that verifies and whose body is absent or a JSON
  -- value is returned by the next `Recv`, with its key and the envelope as it was.
  pub recv_delivers :
      (key : Text) (e : Envelope) (rs : List Read) (c : Client)
      → c.open_ ≡ true
      → key ≢ []
      → is_empty e.body || w.syntax.valid e.body ≡ true
      → verify_envelope w.sha256 w.syntax c.cfg.hmac_secret e ≡ Hmac.ok tt
      → recv w (frame (some (deliver_frame key e)) ∷ rs) c ≡ (
        (
          some (record {
            protocol_version = protocol_version;
            kind = control_deliver;
            delivery_key = key;
            envelope = received e;
          }),
          none,
        ),
        rs,
        c,
      )
  recv_delivers key e rs c o k v ok_ =
      let d : Deliver = record {
        protocol_version = protocol_version;
        kind = control_deliver;
        delivery_key = key;
        envelope = e;
      } in
      let verified = verify_envelope-received w.sha256 w.syntax c.cfg.hmac_secret e v ∙ ok_ in
      recv-open (frame (some (encode_deliver d)) ∷ rs) c o
      ∙ recv_loop-deliver (some (encode_deliver d)) rs c (control_type_of-encode_deliver d)
      ∙ ap (λ x. (x, rs, c))
          (ap (λ x. check_deliver w x c) (decode_deliver-encode d)
            ∙ accepted (record d { envelope = received e }) c k verified)
