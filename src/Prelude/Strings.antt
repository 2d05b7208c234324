-- ===== src/Prelude/Strings.antt =====
-- Go's strings and strconv, as far as the code uses them. White space is that of ASCII.
use Prim.Native.Nat.{ℕ, ◌+◌, ◌-◌, ◌*◌, ◌^◌}
use mathlib.Core.Bool.{Bool, ◌&&◌, ◌||◌}
use mathlib.Core.Option.{Option, none, some}
use mathlib.Core.List.{List, [], ◌∷◌, map}
use peerbus.Prelude.Tests.{ltb, leb, ◌==◌, if◌then◌else◌}
use peerbus.Prelude.Bytes.{Text, is_empty}

-- The ASCII letters are folded.
unfoldable pub fold_name : Text → Text
fold_name = map (λ c. if leb 65 c && leb c 90 then c + 32 else c)

abbrev put_first : ℕ → List Text → List Text
put_first c [] = (c ∷ []) ∷ []
put_first c (t ∷ ts) = (c ∷ t) ∷ ts

-- strings.Split(s, ",")
unfoldable pub split : Text → List Text
split [] = [] ∷ []
split (c ∷ s) = let rest = split s in if c == 44 then [] ∷ rest else put_first c rest

abbrev pub is_space : ℕ → Bool
is_space c = c == 32 || (leb 9 c && leb c 13)

abbrev pub is_line_end : ℕ → Bool
is_line_end c = c == 10 || c == 13

-- strings.TrimLeft and strings.TrimRight, of the characters of a class.
module _ (p : ℕ → Bool) where
  unfoldable pub trim_left : Text → Text
  trim_left [] = []
  trim_left (c ∷ s) = let rest = trim_left s in if p c then rest else c ∷ s

  unfoldable pub trim_right : Text → Text
  trim_right [] = []
  trim_right (c ∷ s) = let rest = trim_right s in if is_empty rest && p c then [] else c ∷ rest

-- strings.TrimSpace
unfoldable pub trim_space : Text → Text
trim_space s = trim_right is_space (trim_left is_space s)

abbrev cons_left : ℕ → Option (Text × Text) → Option (Text × Text)
cons_left c none = none
cons_left c (some (k, v)) = some (c ∷ k, v)

-- strings.Cut(s, sep) at a byte: what stands before and behind its first occurrence.
unfoldable pub cut : ℕ → Text → Option (Text × Text)
cut sep [] = none
cut sep (c ∷ s) = let rest = cut sep s in if c == sep then some ([], s) else cons_left c rest

abbrev pub is_digit : ℕ → Bool
is_digit c = leb 48 c && leb c 57

unfoldable pub digits_from : ℕ → Text → Option ℕ
digits_from acc [] = some acc
digits_from acc (c ∷ s) =
    let rest = digits_from (acc * 10 + (c - 48)) s in if is_digit c then rest else none

unfoldable pub digits : Text → Option ℕ
unfolding digits_from
digits [] = none
digits (c ∷ s) = digits_from 0 (c ∷ s)

-- An int is not negative, or is `negative`.
pub data Number : Type 0 where
  natural : ℕ → Number
  negative : Number

-- The range of int64.
at_most : Option ℕ → Option Number
at_most none = none
at_most (some n) = if ltb n (2 ^ 63) then some (natural n) else none

below_zero : Option ℕ → Option Number
below_zero none = none
below_zero (some n) =
    if n == 0 then some (natural 0) else if leb n (2 ^ 63) then some negative else none

-- strconv.Atoi; `none` is its error.
unfoldable pub atoi : Text → Option Number
unfolding digits at_most below_zero
atoi [] = none
atoi (c ∷ s) =
    if c == b'-'
    then below_zero (digits s)
    else if c == b'+'
    then at_most (digits s)
    else at_most (digits (c ∷ s))
