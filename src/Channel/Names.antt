-- ===== src/Channel/Names.antt =====
-- internal/channel/channel.go: the names that a session takes where it is given none.
use native.Mathlib.Nat.{mod-lt}
use peerbus.Prelude.{
  ℕ, zero, suc, ◌+◌, ◌*◌, ◌%◌, ◌<◌, ◌≡◌, inl, inr, Text, text, Bool, true, ◌||◌, ◌&&◌, List, [],
  ◌∷◌, ◌++◌, Option, none, some, leb, length, All, In, arith, refl, ap, ◌∙◌,
}
use peerbus.Prelude.Strings.{is_digit}
use peerbus.Wire.Fields.{◌>>=◌}
use peerbus.Channel.Words.Adjectives.{name_adjectives}
use peerbus.Channel.Words.Nouns.{name_nouns}

abbrev pub name_suffix_alphabet : Text
name_suffix_alphabet = text "0123456789abcdefghijklmnopqrstuvwxyz"

abbrev pub name_suffix_len : ℕ
name_suffix_len = 3

-- An index of a slice; `none` is out of range.
unfoldable pub nth : {A : Type 0} → ℕ → List A → Option A
nth i [] = none
nth zero (x ∷ xs) = some x
nth (suc i) (x ∷ xs) = nth i xs

-- The unsigned number of little-endian bytes.
unfoldable pub little_endian : Text → ℕ
little_endian [] = 0
little_endian (b ∷ bs) = b + 256 * little_endian bs

-- With 8 random bytes. There is no entry where there are no words.
unfoldable pub pick_word : Text → List Text → Option Text
unfolding nth little_endian
pick_word bytes [] = none
pick_word bytes (w ∷ words) = nth (little_endian bytes % length (w ∷ words)) (w ∷ words)

-- With a random byte for each character.
unfoldable pub random_suffix : Text → Option Text
unfolding nth
random_suffix [] = some []
random_suffix (b ∷ bs) = do
  c ← nth (b % length name_suffix_alphabet) name_suffix_alphabet
  out ← random_suffix bs
  some (c ∷ out)

-- The random bytes of a name.
pub record Draw : Type 0 where
  pub adjective : Text
  pub noun : Text
  pub suffix : Text

abbrev pub joined : Text → Text → Text → Text
joined adj noun suffix = adj ++ (45 ∷ (noun ++ (45 ∷ suffix)))

unfoldable pub generate_name : Draw → Option Text
unfolding pick_word random_suffix
generate_name d = do
  adj ← pick_word d.adjective name_adjectives
  noun ← pick_word d.noun name_nouns
  suffix ← random_suffix d.suffix
  some (joined adj noun suffix)

-- `override` is PEERBUS_NAME.
unfoldable pub unique_name : Text → Draw → Option Text
unfolding generate_name
unique_name [] d = generate_name d
unique_name (c ∷ override) d = some (c ∷ override)

-- A lowercase letter or a digit.
abbrev pub is_base36 : ℕ → Bool
is_base36 c = is_digit c || (leb 97 c && leb c 122)

abbrev pub IsPlain : Text → Type 0
IsPlain = All (λ c. is_base36 c ≡ true)

plain : Text → Bool
plain [] = true
plain (c ∷ s) = is_base36 c && plain s

all_plain : List Text → Bool
unfolding plain
all_plain [] = true
all_plain (w ∷ ws) = plain w && all_plain ws

plain-IsPlain : (t : Text) → plain t ≡ true → IsPlain t
unfolding plain
plain-IsPlain [] h = tt
plain-IsPlain (c ∷ t) h = (ground arith, plain-IsPlain t (ground arith))

In-plain : (w : Text) (ws : List Text) → In w ws → all_plain ws ≡ true → plain w ≡ true
unfolding all_plain
In-plain w [] i h = absurd i
In-plain w (x ∷ ws) (inl e) h = ground arith
In-plain w (x ∷ ws) (inr i) h = ground (arith, In-plain w ws i)

adjectives-plain : all_plain name_adjectives ≡ true
unfolding all_plain name_adjectives
adjectives-plain = refl

nouns-plain : all_plain name_nouns ≡ true
unfolding all_plain name_nouns
nouns-plain = refl

nth-In :
    {A : Type 0} (i : ℕ) (xs : List A) → i < length xs → (x : A) × (nth i xs ≡ some x) × In x xs
unfolding nth
nth-In i [] h = ground arith
nth-In zero (x ∷ xs) h = (x, refl, inl refl)
nth-In (suc i) (x ∷ xs) h = let (y, e, m) = nth-In i xs (ground arith) in (y, e, inr m)

pick_word-In :
    (bytes w : Text) (words : List Text)
    → (x : Text) × (pick_word bytes (w ∷ words) ≡ some x) × In x (w ∷ words)
unfolding pick_word
pick_word-In bytes w words =
    nth-In (little_endian bytes % length (w ∷ words)) (w ∷ words)
      (mod-lt (little_endian bytes) (omega arith))

In-IsPlain : (c : ℕ) (t : Text) → In c t → IsPlain t → is_base36 c ≡ true
In-IsPlain c [] i h = absurd i
In-IsPlain c (d ∷ t) (inl e) h = ap is_base36 e ∙ h.0
In-IsPlain c (d ∷ t) (inr i) h = In-IsPlain c t i h.1

alphabet-plain : (c : ℕ) → In c name_suffix_alphabet → is_base36 c ≡ true
unfolding plain
alphabet-plain c i = In-IsPlain c name_suffix_alphabet i (plain-IsPlain name_suffix_alphabet refl)

random_suffix-IsPlain :
    (bytes : Text)
    → (s : Text) × (random_suffix bytes ≡ some s) × IsPlain s × (length s ≡ length bytes)
unfolding random_suffix
random_suffix-IsPlain [] = ([], refl, tt, refl)
random_suffix-IsPlain (b ∷ bs) =
    let (s, e, p, l) = random_suffix-IsPlain bs in
    let (c, f, i) = nth-In (b % 36) name_suffix_alphabet (omega arith) in
    (c ∷ s, rw (f, e) refl, (alphabet-plain c i, p), ap suc l)

-- A name of an adjective, a noun and a suffix of three characters, without a hyphen in any.
pub record IsFriendly (name : Text) : Type 0 where
  pub adjective : Text
  pub noun : Text
  pub suffix : Text
  pub shape : name ≡ joined adjective noun suffix
  pub known_adjective : In adjective name_adjectives
  pub known_noun : In noun name_nouns
  pub plain_adjective : IsPlain adjective
  pub plain_noun : IsPlain noun
  pub plain_suffix : IsPlain suffix
  pub suffix_len : length suffix ≡ name_suffix_len

pick_adjective :
    (bytes : Text) → (x : Text) × (pick_word bytes name_adjectives ≡ some x) × In x name_adjectives
unfolding name_adjectives
pick_adjective bytes = pick_word-In bytes _ _

pick_noun : (bytes : Text) → (x : Text) × (pick_word bytes name_nouns ≡ some x) × In x name_nouns
unfolding name_nouns
pick_noun bytes = pick_word-In bytes _ _

-- If PEERBUS_NAME is not set, whatever the random bytes are, with three for the suffix, a name is made
-- without a panic, of an adjective and a noun of the lists and three characters, all lowercase letters
-- and digits, joined by hyphens.
pub unique_name-IsFriendly :
    (d : Draw)
    → length d.suffix ≡ name_suffix_len
    → (name : Text) × (unique_name [] d ≡ some name) × IsFriendly name
unfolding unique_name
unique_name-IsFriendly d l =
    let (adj, e, i) = pick_adjective d.adjective in
    let (noun, f, k) = pick_noun d.noun in
    let (suffix, g, p, n) = random_suffix-IsPlain d.suffix in
    (
      joined adj noun suffix,
      rw (e, f, g, unique_name) refl,
      record {
        adjective = adj;
        noun = noun;
        suffix = suffix;
        shape = refl;
        known_adjective = i;
        known_noun = k;
        plain_adjective = plain-IsPlain adj (In-plain adj name_adjectives i adjectives-plain);
        plain_noun = plain-IsPlain noun (In-plain noun name_nouns k nouns-plain);
        plain_suffix = p;
        suffix_len = n ∙ l;
      },
    )
