-- ===== src/Hmac.antt =====
-- internal/hmac/hmac.go: signing and verifying over the canonical form.
pub mod Integrity
use peerbus.Prelude.{
  ℕ, ◌≡◌, Text, same, is_empty, Bool, true, false, Option, none, some, All, length, ltb,
  if◌then◌else◌,
}
use peerbus.Prelude.Hex.{encode, decode, IsByte}
use peerbus.Wire.Envelope.{Envelope, Syntax, canonical}

-- crypto/hmac over SHA-256, of which the code uses that a MAC is a string of 32 bytes.
pub record Sha256 : Type 0 where
  pub mac : Text → Text → Text
  pub length-mac : (k x : Text) → length (mac k x) ≡ 32
  pub bytes : (k x : Text) → All IsByte (mac k x)

abbrev pub min_secret_len : ℕ
min_secret_len = 32

pub data Error : Type 0 where
  short_secret missing_hmac bad_hmac_hex mismatch canonicalize : Error

pub data Result (A : Type 0) : Type 0 where
  ok : A → Result A
  err : Error → Result A

infixl 5 ◌>>=◌ ◌>>◌
abbrev pub ◌>>=◌ : {A B : Type 0} → Result A → (A → Result B) → Result B
ok a >>= f = f a
err e >>= f = err e

abbrev pub ◌>>◌ : {A B : Type 0} → Result A → Result B → Result B
m >> k = m >>= λ _. k

abbrev or_fail : {A : Type 0} → Option A → Error → Result A
or_fail none e = err e
or_fail (some a) e = ok a

abbrev check : Bool → Error → Result (Unit {0})
check true e = ok tt
check false e = err e

unfoldable pub check_secret : Text → Result (Unit {0})
check_secret secret = if ltb (length secret) min_secret_len then err short_secret else ok tt

module _ (h : Sha256) (j : Syntax) where
  unfoldable pub sign : Text → Envelope → Result Text
  unfolding check_secret
  sign secret env = do
    check_secret secret
    canon ← or_fail (canonical j env) canonicalize
    ok (encode (h.mac secret canon))

  unfoldable pub verify : Text → Envelope → Result (Unit {0})
  unfolding check_secret
  verify secret env = do
    check_secret secret
    check (if is_empty env.hmac then false else true) missing_hmac
    want ← or_fail (decode env.hmac) bad_hmac_hex
    canon ← or_fail (canonical j env) canonicalize
    check (same (h.mac secret canon) want) mismatch

  unfoldable pub sign_envelope : Text → Envelope → Result Envelope
  unfolding sign
  sign_envelope secret env = do sig ← sign secret env; ok (record env { hmac = sig })

  unfoldable pub verify_envelope : Text → Envelope → Result (Unit {0})
  unfolding verify
  verify_envelope = verify
