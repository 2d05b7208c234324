-- ===== src/Hmac/Integrity.antt =====
-- internal/hmac/hmac.go: what a signature shows.
use peerbus.Prelude.{
  ◌≡◌, ◌≢◌, inl, inr, Text, is_empty, true, false, ◌||◌, some, arith, refl, length, Option-cases,
  ◌∙◌, ◌<◌,
}
use peerbus.Prelude.Hex.{encode, length-encode, decode-encode}
use peerbus.Wire.Envelope as Wire
use peerbus.Wire.Envelope.{Envelope, Syntax, canonical, canonical_bytes, received}
use peerbus.Wire.Transit
use peerbus.Wire.Runes.{IsUtf8}
use peerbus.Wire.Socket.{transmit, transmit-encode, hex-IsUtf8}
use peerbus.Wire.Transit.{canonical-received}
use peerbus.Wire.Unquote.{HasUtf8, HasUtf8-keeps}
use peerbus.Hmac.{
  Sha256, ok, err, verify, sign_envelope, verify_envelope, check_secret, short_secret,
}

-- The signature is not covered by itself.
canonical-hmac :
    (j : Syntax) (e : Envelope) (sig : Text) → canonical j (record e { hmac = sig }) ≡ canonical j e
unfolding canonical canonical_bytes
canonical-hmac j e sig = refl

module _ (h : Sha256) (j : Syntax) where
  encode-mac-nonempty : (k x : Text) → is_empty (encode (h.mac k x)) ≡ false
  encode-mac-nonempty k x = grind (arith, length-encode (h.mac k x), h.length-mac k x)

  pub canonical-some :
      (e : Envelope) (c : Text) → canonical j e ≡ some c → is_empty e.body || j.valid e.body ≡ true
  unfolding canonical
  canonical-some e c q = ground arith

  pub sign_envelope-eq :
      (secret : Text) (e signed : Envelope)
      → sign_envelope h j secret e ≡ ok signed
      → (c : Text) × (canonical j e ≡ some c)
        × (check_secret secret ≡ ok tt)
        × (signed ≡ record e { hmac = encode (h.mac secret c) })
  unfolding sign_envelope
  sign_envelope-eq secret e signed p = elim (Option-cases (canonical j e)) [
    | inl q ↦ absurd (ground arith)
    | inr (c, q) ↦ (c, q, ground arith, ground arith)
  ]

  verify-signed :
      (secret : Text) (e : Envelope) (c : Text)
      → canonical j e ≡ some c
      → check_secret secret ≡ ok tt
      → e.hmac ≡ encode (h.mac secret c)
      → verify h j secret e ≡ ok tt
  unfolding verify
  verify-signed secret e c q k m =
      ground
        (arith, encode-mac-nonempty secret c, decode-encode (h.mac secret c) (h.bytes secret c))

  -- Compaction of the body does not invalidate the signature.
  pub verify-received :
      (secret : Text) (e signed : Envelope)
      → sign_envelope h j secret e ≡ ok signed
      → verify_envelope h j secret (received signed) ≡ ok tt
  unfolding verify_envelope
  verify-received secret e signed p =
      let (c, q, k, s) = sign_envelope-eq secret e signed p in
      let e' : Envelope = record e { hmac = encode (h.mac secret c) } in
      let r : canonical j (received e') ≡ some c =
        canonical-received j e' (canonical-some e c q) ∙ canonical-hmac j e _ ∙ q in
      rw s (verify-signed secret (received e') c r k refl)

  pub signed-hmac :
      (secret : Text) (e signed : Envelope)
      → HasUtf8 e
      → sign_envelope h j secret e ≡ ok signed
      → HasUtf8 signed × IsUtf8 signed.hmac
  signed-hmac secret e signed u p =
      let (c, _, _, s) = sign_envelope-eq secret e signed p in
      let mac = hex-IsUtf8 (h.mac secret c) (h.bytes secret c) in
      rw s (HasUtf8-keeps e e.body (encode (h.mac secret c)) u, mac)

  -- What is signed of valid UTF-8 passes the wire as it is.
  pub transmit-signed :
      (secret : Text) (e signed : Envelope)
      → HasUtf8 e
      → sign_envelope h j secret e ≡ ok signed
      → transmit (Wire.encode signed) ≡ Wire.encode signed
  transmit-signed secret e signed u p =
      let (v, m) = signed-hmac secret e signed u p in transmit-encode signed v m

  -- Transit does not change the verdict.
  pub verify_envelope-received :
      (secret : Text) (e : Envelope)
      → is_empty e.body || j.valid e.body ≡ true
      → verify_envelope h j secret (received e) ≡ verify_envelope h j secret e
  unfolding verify_envelope
  verify_envelope-received secret e v = rw (canonical-received j e v)

  -- The canonical forms differ, and have one MAC under the secret.
  abbrev pub Forgery : Text → Envelope → Envelope → Type 0
  Forgery secret e f =
      (canonical_bytes e ≢ canonical_bytes f)
      × (h.mac secret (canonical_bytes e) ≡ h.mac secret (canonical_bytes f))

  -- A secret of less than 32 bytes neither signs nor verifies any envelope.
  pub short_secret_refused :
      (secret : Text) (e : Envelope)
      → length secret < 32
      → (sign_envelope h j secret e ≡ err short_secret)
        × (verify_envelope h j secret e ≡ err short_secret)
  unfolding sign_envelope verify_envelope
  short_secret_refused secret e p = ground arith
