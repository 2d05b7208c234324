-- ===== src/Wire/Runes.antt =====
-- The UTF-8 of a string, as encoding/json takes it apart (unicode/utf8) and puts it together again.
use peerbus.Prelude.{
  ℕ, ◌≡◌, Text, Bool, ◌&&◌, zero, suc, List, leb, [], ◌∷◌, ◌++◌, ltb, ◌==◌, if◌then◌else◌,
}

-- What a string is made of, in one number: a byte of a valid rune, U+2028, U+2029, or a byte that is
-- part of no rune.
abbrev pub line_separator : ℕ
line_separator = 256

abbrev pub paragraph_separator : ℕ
paragraph_separator = 257

abbrev pub replaced : ℕ
replaced = 258

-- How many bytes of the rune at hand are to be copied, or to be left out.
pub data Mode : Type 0 where
  start : Mode
  copy skip : ℕ → Mode

abbrev byte_at : ℕ → Text → ℕ
byte_at k [] = 0
byte_at zero (c ∷ s) = c
byte_at (suc k) (c ∷ s) = byte_at k s

abbrev between : ℕ → ℕ → ℕ → Bool
between l h c = leb l c && leb c h

abbrev is_continuation : ℕ → Bool
is_continuation = between 128 191

-- The second byte of a rune of three or four bytes: no overlong form, no surrogate, and nothing
-- above U+10FFFF.
abbrev is_second : ℕ → ℕ → Bool
is_second c d =
    if c == 224
    then between 160 191 d
    else if c == 237
    then between 128 159 d
    else if c == 240
    then between 144 191 d
    else if c == 244
    then between 128 143 d
    else is_continuation d

-- utf8.DecodeRuneInString on `c ∷ s`.
unfoldable pub rune_at : ℕ → Text → ℕ × Mode
rune_at c s =
    let d = byte_at 0 s in
    if ltb c 128
    then (c, start)
    else if between 194 223 c && is_continuation d
    then (c, copy 0)
    else if c == 226 && (d == 128 && byte_at 1 s == 168)
    then (line_separator, skip 1)
    else if c == 226 && (d == 128 && byte_at 1 s == 169)
    then (paragraph_separator, skip 1)
    else if between 224 239 c && (is_second c d && is_continuation (byte_at 1 s))
    then (c, copy 1)
    else if between 240 244 c
        && (is_second c d && (is_continuation (byte_at 1 s) && is_continuation (byte_at 2 s)))
    then (c, copy 2)
    else (replaced, start)

unfoldable pub runes_from : Mode → Text → List ℕ
runes_from m [] = []
runes_from (copy zero) (c ∷ s) = c ∷ runes_from start s
runes_from (copy (suc k)) (c ∷ s) = c ∷ runes_from (copy k) s
runes_from (skip zero) (c ∷ s) = runes_from start s
runes_from (skip (suc k)) (c ∷ s) = runes_from (skip k) s
runes_from start (c ∷ s) = (rune_at c s).0 ∷ runes_from (rune_at c s).1 s

unfoldable pub runes : Text → List ℕ
unfolding runes_from rune_at
runes s = runes_from start s

abbrev bytes_of : ℕ → Text
bytes_of c =
    if c == line_separator
    then 226 ∷ 128 ∷ 168 ∷ []
    else if c == paragraph_separator
    then 226 ∷ 128 ∷ 169 ∷ []
    else if c == replaced
    then 239 ∷ 191 ∷ 189 ∷ []
    else c ∷ []

unfoldable pub bytes : List ℕ → Text
bytes [] = []
bytes (c ∷ cs) = bytes_of c ++ bytes cs

-- What encoding/json reads of a string that it wrote: each byte that is part of no rune is replaced
-- by U+FFFD.
unfoldable pub reread : Text → Text
unfolding runes bytes
reread s = bytes (runes s)

-- Valid UTF-8: nothing is replaced.
abbrev pub IsUtf8 : Text → Type 0
IsUtf8 s = reread s ≡ s
