-- ===== src/Wire/Transit.antt =====
-- internal/wire/codec.go and envelope.go: an envelope on the wire, and its canonical form there.
use peerbus.Prelude.{
  ◌≡◌, Text, Text-discrete, is_empty, Bool, true, false, ◌||◌, [], ◌∷◌, some, refl, ap,
}
use peerbus.Wire.Print.{print, compact, compact_idem, after}
use peerbus.Prelude.Strings.{fold_name}
use peerbus.Wire.Fields.{string_field, raw_field}
use peerbus.Wire.Envelope.{
  Envelope, Syntax, encode, canonical_bytes, decode, canonical, received, body_value,
}

-- An envelope that is marshalled and unmarshalled keeps all fields, the hmac included, and its body
-- up to insignificant space.
pub decode-encode : (e : Envelope) → decode (encode e) ≡ some (received e)
unfolding decode encode string_field raw_field fold_name Text-discrete
decode-encode e = refl

pub or_true : (a b : Bool) → b ≡ true → a || b ≡ true
or_true true b h = refl
or_true false b h = h

module _ (j : Syntax) where
  pub body_idem :
      (b : Text)
      → is_empty b || j.valid b ≡ true
      → (print (body_value (print (body_value b))) ≡ print (body_value b))
        × (j.valid (print (body_value b)) ≡ true)
  unfolding print compact after
  body_idem [] v = (refl, j.valid-null)
  body_idem (c ∷ s) v = printed (compact (c ∷ s)) (j.valid-compact (c ∷ s) v) (compact_idem (c ∷ s))
    where
      printed :
          (t : Text)
          → j.valid t ≡ true
          → compact t ≡ t
          → (print (body_value t) ≡ t) × (j.valid t ≡ true)
      printed [] v e = cc (j.valid-empty)
      printed (a ∷ t) v e = (e, v)

  canonical_bytes-received :
      (e : Envelope)
      → print (body_value (print (body_value e.body))) ≡ print (body_value e.body)
      → canonical_bytes (received e) ≡ canonical_bytes e
  unfolding canonical_bytes print
  canonical_bytes-received e p = rw p

  -- The recipient reconstructs the canonical bytes that the sender signed, if the sender's body is
  -- absent or a JSON value.
  pub canonical-received :
      (e : Envelope)
      → is_empty e.body || j.valid e.body ≡ true
      → canonical j (received e) ≡ canonical j e
  unfolding canonical
  canonical-received e v =
      let (p, q) = body_idem e.body v in
      rw (v, or_true (is_empty (received e).body) _ q) (ap some (canonical_bytes-received e p))

-- A second transit changes nothing.
pub received_idem :
    (j : Syntax) (e : Envelope)
    → is_empty e.body || j.valid e.body ≡ true
    → received (received e) ≡ received e
received_idem j e v = ap (λ b. record e { body = b }) (body_idem j e.body v).0
