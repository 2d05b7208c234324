-- ===== src/Prelude/Bytes.antt =====
-- Go strings: sequences of bytes, with their comparison and order.
use Prim.Native.Nat.{ℕ}
use Prim.Native.Char.{code}
use Prim.Native.String.{String}
use mathlib.Core.Path.{◌≡◌, refl}
use mathlib.Core.Logic.{◌⊎◌, inl, inr}
use mathlib.Core.Bool.{Bool, true, false}
use mathlib.Core.List.{List, [], ◌∷◌}
use native.Mathlib.Omega.{arith}
use native.Mathlib.Decide.{ℕ_discrete}
use peerbus.Prelude.Tests.{ltb, ◌==◌, if◌then◌else◌}

abbrev pub Text : Type 0
Text = List ℕ

-- An ASCII literal.
abbrev pub text : String → Text
text String.[] = []
text (String.◌∷◌ c s) = code c ∷ text s

unfoldable pub Text-discrete : Discrete Text
unfolding ℕ_discrete
Text-discrete = hlevel ℕ_discrete

-- Go's `==` on strings.
abbrev pub same : Text → Text → Bool
same a b = elim (Text-discrete a b) [ yes _ ↦ true | no _ ↦ false ]

abbrev pub is_empty : Text → Bool
is_empty [] = true
is_empty (c ∷ s) = false

pub same_refl : (a : Text) → same a a ≡ true
same_refl a = ground arith

-- The byte order of Go's `sort.Strings` and of SQLite's BINARY collation.
unfoldable pub text_le : Text → Text → Bool
text_le [] b = true
text_le (x ∷ a) [] = false
text_le (x ∷ a) (y ∷ b) =
    let rest = text_le a b in if ltb x y then true else if x == y then rest else false

pub text_le_refl : (a : Text) → text_le a a ≡ true
unfolding text_le
text_le_refl [] = refl
text_le_refl (x ∷ a) = ground (arith, text_le_refl a)

pub text_le_total : (a b : Text) → (text_le a b ≡ true) ⊎ (text_le b a ≡ true)
unfolding text_le
text_le_total [] b = inl refl
text_le_total (x ∷ a) [] = inr refl
text_le_total (x ∷ a) (y ∷ b) = ground (arith, text_le_total a b)

pub text_le_trans : (a b c : Text) → text_le a b ≡ true → text_le b c ≡ true → text_le a c ≡ true
unfolding text_le
text_le_trans [] b c p q = refl
text_le_trans (x ∷ a) [] c p q = ground arith
text_le_trans (x ∷ a) (y ∷ b) [] p q = ground arith
text_le_trans (x ∷ a) (y ∷ b) (z ∷ c) p q = ground (arith, text_le_trans a b c)

pub text_le_antisym : (a b : Text) → text_le a b ≡ true → text_le b a ≡ true → a ≡ b
unfolding text_le
text_le_antisym [] [] p q = refl
text_le_antisym [] (y ∷ b) p q = ground arith
text_le_antisym (x ∷ a) [] p q = ground arith
text_le_antisym (x ∷ a) (y ∷ b) p q = ground (arith, text_le_antisym a b)

same_literals : same (text "ack") (text "peers") ≡ false
unfolding Text-discrete
same_literals = refl
