-- ===== src/Wire/Socket.antt =====
-- internal/wire/codec.go, with the read limits of internal/broker/server.go and
-- internal/adapter/client.go: what of a frame that one end writes the other end reads.
use peerbus.Prelude.{
  ℕ, ◌≡◌, ◌<◌, ◌/◌, ◌%◌, Text, Bool, true, [], ◌∷◌, leb, length, refl, arith, All, some, none,
  Option, if◌then◌else◌,
}
use peerbus.Prelude.Hex
use peerbus.Prelude.Hex.{digit, IsByte}
use peerbus.Wire.Json.{Json, Items, Members, null, str, raw, arr, obj, nil, cons, end, member}
use peerbus.Wire.Print.{print}
use peerbus.Wire.Runes.{reread, runes, runes_from, rune_at, bytes, start, IsUtf8}
use peerbus.Wire.Envelope.{Envelope, encode, body_value, max_frame_bytes, protocol_version}
use peerbus.Wire.Control.{Deliver, encode_deliver, control_deliver}
use peerbus.Wire.Unquote.{HasUtf8}

unfoldable mutual
  -- What encoding/json parses of a value that it printed: strings lose what is no UTF-8.
  pub transmit : Json → Json
  transmit null = null
  transmit (str s) = str (reread s)
  transmit (raw t) = raw t
  transmit (arr xs) = arr (transmit_items xs)
  transmit (obj ms) = obj (transmit_members ms)

  transmit_items : Items → Items
  transmit_items nil = nil
  transmit_items (cons x xs) = cons (transmit x) (transmit_items xs)

  transmit_members : Members → Members
  transmit_members end = end
  transmit_members (member k v ms) = member (reread k) (transmit v) (transmit_members ms)

-- SetReadLimit: the frame is no longer than a read may be.
unfoldable pub fits : Json → Bool
unfolding print
fits j = leb (length (print j)) max_frame_bytes

-- What a read gives of a frame that was written; `none` is an error of the read.
unfoldable pub arrives : Json → Option (Option Json)
unfolding fits transmit
arrives j = if fits j then some (some (transmit j)) else none

runes_from-ascii : (s : Text) → All (λ c. c < 128) s → bytes (runes_from start s) ≡ s
unfolding runes_from rune_at bytes
runes_from-ascii [] h = refl
runes_from-ascii (c ∷ s) h = ground (arith, h.0, runes_from-ascii s h.1)

ascii-IsUtf8 : (s : Text) → All (λ c. c < 128) s → IsUtf8 s
unfolding reread runes
ascii-IsUtf8 = runes_from-ascii

digit-ascii : (n : ℕ) → n < 16 → digit n < 128
unfolding digit
digit-ascii n h = ground arith

hex-ascii : (bs : Text) → All IsByte bs → All (λ c. c < 128) (Hex.encode bs)
unfolding Hex.encode
hex-ascii [] h = tt
hex-ascii (b ∷ bs) h = (
  digit-ascii (b / 16) (omega (arith, h.0)),
  (digit-ascii (b % 16) (omega arith), hex-ascii bs h.1),
)

-- A string of hex digits is valid UTF-8.
pub hex-IsUtf8 : (bs : Text) → All IsByte bs → IsUtf8 (Hex.encode bs)
hex-IsUtf8 bs h = ascii-IsUtf8 (Hex.encode bs) (hex-ascii bs h)

transmit-body_value : (b : Text) → transmit (body_value b) ≡ body_value b
unfolding transmit
transmit-body_value [] = refl
transmit-body_value (c ∷ s) = refl

-- An envelope of valid UTF-8 passes the wire as it is.
pub transmit-encode : (e : Envelope) → HasUtf8 e → IsUtf8 e.hmac → transmit (encode e) ≡ encode e
unfolding transmit encode reread
transmit-encode e u h =
    rw
      (
        u.protocol_version,
        u.id,
        u.from,
        u.to,
        u.ts,
        u.source,
        u.kind,
        h,
        transmit-body_value e.body,
      )
      refl

pub transmit-encode_deliver :
    (d : Deliver)
    → d.protocol_version ≡ protocol_version
    → d.kind ≡ control_deliver
    → IsUtf8 d.delivery_key
    → HasUtf8 d.envelope
    → IsUtf8 d.envelope.hmac
    → transmit (encode_deliver d) ≡ encode_deliver d
unfolding transmit encode_deliver reread
transmit-encode_deliver d p k key u h = rw (p, k, key, transmit-encode d.envelope u h) refl

-- A frame that fits is read as it was written, if transmission does not change it.
pub arrives-fits : (j : Json) → fits j ≡ true → transmit j ≡ j → arrives j ≡ some (some j)
unfolding arrives
arrives-fits j f t = rw (f, t) refl
