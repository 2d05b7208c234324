-- ===== src/Prelude/Hex.antt =====
-- Go's encoding/hex.
use peerbus.Prelude.Tests.{ltb, leb, if◌then◌else◌}
use peerbus.Prelude.Bytes.{Text}
use peerbus.Prelude.Lists.{All, length}
use Prim.Native.Nat.{ℕ, ◌+◌, ◌-◌, ◌*◌, ◌/◌, ◌%◌, ◌<◌}
use mathlib.Core.Path.{◌≡◌, refl}
use mathlib.Core.Bool.{◌&&◌}
use mathlib.Core.List.{[], ◌∷◌}
use mathlib.Core.Option.{Option, none, some}
use native.Mathlib.Omega.{arith}

unfoldable pub digit : ℕ → ℕ
digit n = if ltb n 10 then n + 48 else n + 87

unfoldable pub undigit : ℕ → Option ℕ
undigit c =
    if leb 48 c && leb c 57
    then some (c - 48)
    else if leb 97 c && leb c 102
    then some (c - 87)
    else if leb 65 c && leb c 70
    then some (c - 55)
    else none

-- hex.EncodeToString
unfoldable pub encode : Text → Text
unfolding digit
encode [] = []
encode (b ∷ bs) = digit (b / 16) ∷ digit (b % 16) ∷ encode bs

abbrev join : Option ℕ → Option ℕ → Option Text → Option Text
join (some h) (some l) (some bs) = some ((h * 16 + l) ∷ bs)
join _ _ _ = none

-- hex.DecodeString; `none` is an odd length or a byte that is no hex digit.
unfoldable pub decode : Text → Option Text
unfolding undigit
decode [] = some []
decode (h ∷ []) = none
decode (h ∷ l ∷ cs) = join (undigit h) (undigit l) (decode cs)

undigit-digit : (n : ℕ) → n < 16 → undigit (digit n) ≡ some n
unfolding digit undigit
undigit-digit n h = ground arith

abbrev pub IsByte : ℕ → Type 0
IsByte b = b < 256

pub decode-encode : (bs : Text) → All IsByte bs → decode (encode bs) ≡ some bs
unfolding encode decode
decode-encode [] h = refl
decode-encode (b ∷ bs) h = ground (
  arith,
  undigit-digit (b / 16) (omega arith),
  undigit-digit (b % 16) (omega arith),
  decode-encode bs h.1,
)

pub length-encode : (bs : Text) → length (encode bs) ≡ 2 * length bs
unfolding encode
length-encode [] = refl
length-encode (b ∷ bs) = omega (arith, length-encode bs)
