-- ===== src/Examples/OfWire.antt =====
-- internal/wire and internal/hmac at concrete inputs.
use peerbus.Prelude.{[], ◌∷◌, some, ◌≡◌, refl, text, Text-discrete}
use peerbus.Prelude.Hex
use peerbus.Prelude.Hex.{digit}
use peerbus.Wire.Print.{print, quote, compact, after}
use peerbus.Wire.Runes.{reread}
use peerbus.Wire.Socket.{transmit}
use peerbus.Wire.Envelope.{encode, decode, Envelope, canonical, canonical_bytes}
use peerbus.Hmac.{ok, err, mismatch, sign_envelope, verify_envelope}
use peerbus.Fixtures.{sha256, syntax, digest, secret, hello}

-- A byte that is part of no rune, U+2028, and U+1F4E8.
written :
    (quote (255 ∷ []) ≡ 34 ∷ 92 ∷ text "ufffd\"")
    × (quote (226 ∷ 128 ∷ 168 ∷ []) ≡ 34 ∷ 92 ∷ text "u2028\"")
    × (quote (240 ∷ 159 ∷ 147 ∷ 168 ∷ []) ≡ 34 ∷ 240 ∷ 159 ∷ 147 ∷ 168 ∷ 34 ∷ [])
unfolding quote
written = (refl, refl, refl)

-- What is read of the first two.
read_back :
    (reread (255 ∷ 97 ∷ []) ≡ 239 ∷ 191 ∷ 189 ∷ 97 ∷ [])
    × (reread (226 ∷ 128 ∷ 168 ∷ []) ≡ 226 ∷ 128 ∷ 168 ∷ [])
unfolding reread
read_back = (refl, refl)

spaced : Envelope
spaced = record hello { body = text "{ }" }

unfoldable pub signed : Envelope
signed = record hello { hmac = Hex.encode (digest (canonical_bytes hello)) }

pub verifies : verify_envelope sha256 syntax secret signed ≡ ok tt
unfolding signed verify_envelope canonical canonical_bytes print quote compact after Hex.encode
    Hex.decode digit Text-discrete
verifies = refl

-- A sender whose name is no UTF-8: the send is signed, and refused at the recipient.
unfoldable garbled : Envelope
garbled =
    let e : Envelope = record hello { from = 255 ∷ [] } in
    record e { hmac = Hex.encode (digest (canonical_bytes e)) }

garbled_signed : sign_envelope sha256 syntax secret (record hello { from = 255 ∷ [] }) ≡ ok garbled
unfolding garbled sign_envelope canonical compact
garbled_signed = refl

garbled_refused :
    (r : Envelope) × (decode (transmit (encode garbled)) ≡ some r)
    × (verify_envelope sha256 syntax secret r ≡ err mismatch)
unfolding garbled transmit encode decode verify_envelope canonical canonical_bytes print quote
    compact after Hex.encode Hex.decode digit Text-discrete peerbus.Wire.Fields.string_field
    peerbus.Wire.Fields.raw_field peerbus.Prelude.Strings.fold_name reread
garbled_refused = (record garbled { from = 239 ∷ 191 ∷ 189 ∷ []; body = text "{}" }, refl, refl)
