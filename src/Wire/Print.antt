-- ===== src/Wire/Print.antt =====
-- What json.Marshal writes: strings with Go's escapes (HTML characters included), objects in the
-- order of their members, and raw messages compacted.
use peerbus.Prelude.{
  ℕ, ◌/◌, ◌%◌, ◌≡◌, Text, text, Bool, true, false, ◌||◌, List, [], ◌∷◌, ◌++◌, arith, ltb, ◌==◌,
  refl, ap, ◌∙◌, ◌⊎◌, inl, inr, Bool-cases, if◌then◌else◌,
}
use peerbus.Wire.Runes.{line_separator, paragraph_separator, replaced, runes}
use peerbus.Prelude.Hex.{digit}
use peerbus.Wire.Json.{Json, Items, Members, null, str, raw, arr, obj, nil, cons, end, member}

-- '<', '>' and '&'
abbrev pub is_html : ℕ → Bool
is_html c = c == 60 || (c == 62 || c == 38)

-- \u00XX
unfoldable pub unicode : ℕ → Text
unfolding digit
unicode c = 92 ∷ 117 ∷ 48 ∷ 48 ∷ digit (c / 16) ∷ digit (c % 16) ∷ []

unfoldable pub escape_byte : ℕ → Text
escape_byte c =
    if c == 34
    then 92 ∷ 34 ∷ []
    else if c == 92
    then 92 ∷ 92 ∷ []
    else if c == 8
    then 92 ∷ b'b' ∷ []
    else if c == 12
    then 92 ∷ b'f' ∷ []
    else if c == 10
    then 92 ∷ b'n' ∷ []
    else if c == 13
    then 92 ∷ b'r' ∷ []
    else if c == 9
    then 92 ∷ b't' ∷ []
    else if ltb c 32 || is_html c
    then unicode c
    else c ∷ []

unfoldable pub escape : ℕ → Text
unfolding escape_byte
escape c =
    if c == line_separator
    then 92 ∷ text "u2028"
    else if c == paragraph_separator
    then 92 ∷ text "u2029"
    else if c == replaced
    then 92 ∷ text "ufffd"
    else escape_byte c

unfoldable pub quote_rest : List ℕ → Text
unfolding escape unicode
quote_rest [] = 34 ∷ []
quote_rest (c ∷ s) = escape c ++ quote_rest s

unfoldable pub quote : Text → Text
unfolding quote_rest runes
quote s = 34 ∷ quote_rest (runes s)

-- Where `compact` stands: outside strings, in one, or behind a backslash in one.
pub data Place : Type 0 where
  outside inside escaped : Place

abbrev pub is_space : ℕ → Bool
is_space c = c == 32 || (c == 9 || (c == 10 || c == 13))

unfoldable pub after : Place → ℕ → Place
after outside c = if c == 34 then inside else outside
after inside c = if c == 34 then outside else if c == 92 then escaped else inside
after escaped c = inside

abbrev pub is_dropped : Place → ℕ → Bool
is_dropped outside c = is_space c
is_dropped inside c = false
is_dropped escaped c = false

-- appendCompact: insignificant space is dropped, and HTML characters are escaped.
unfoldable pub compact_from : Place → Text → Text
compact_from p [] = []
compact_from p (c ∷ s) =
    let rest = compact_from (after p c) s in
    if is_dropped p c then rest else if is_html c then unicode c ++ rest else c ∷ rest

unfoldable pub compact : Text → Text
unfolding compact_from
compact = compact_from outside

unfoldable mutual
  pub print : Json → Text
  print null = text "null"
  print (str s) = quote s
  print (raw t) = compact t
  print (arr xs) = b'[' ∷ print_items xs
  print (obj ms) = b'{' ∷ print_members ms

  pub print_items : Items → Text
  print_items nil = b']' ∷ []
  print_items (cons x nil) = print x ++ b']' ∷ []
  print_items (cons x (cons y xs)) = print x ++ (b',' ∷ print_items (cons y xs))

  pub print_members : Members → Text
  print_members end = b'}' ∷ []
  print_members (member k v end) = quote k ++ (b':' ∷ (print v ++ b'}' ∷ []))
  print_members (member k v (member j w ms)) =
      quote k ++ (b':' ∷ (print v ++ (b',' ∷ print_members (member j w ms))))

after_dropped : (p : Place) (c : ℕ) → is_dropped p c ≡ true → after p c ≡ p
unfolding after
after_dropped outside c h = ground arith
after_dropped inside c h = cc
after_dropped escaped c h = cc

html_cases : (c : ℕ) → is_html c ≡ true → (c ≡ 60) ⊎ ((c ≡ 62) ⊎ (c ≡ 38))
html_cases c h = ground arith

-- An escaped HTML character passes through, and leaves the place where the character would.
Passes : (p : Place) (c : ℕ) (t : Text) → Type 0
Passes p c t = compact_from p (unicode c ++ t) ≡ unicode c ++ compact_from (after p c) t

unicode-Passes_60 : (p : Place) (t : Text) → Passes p 60 t
unfolding Passes compact_from after unicode
unicode-Passes_60 outside t = refl
unicode-Passes_60 inside t = refl
unicode-Passes_60 escaped t = refl

unicode-Passes_62 : (p : Place) (t : Text) → Passes p 62 t
unfolding Passes compact_from after unicode
unicode-Passes_62 outside t = refl
unicode-Passes_62 inside t = refl
unicode-Passes_62 escaped t = refl

unicode-Passes_38 : (p : Place) (t : Text) → Passes p 38 t
unfolding Passes compact_from after unicode
unicode-Passes_38 outside t = refl
unicode-Passes_38 inside t = refl
unicode-Passes_38 escaped t = refl

unicode_passes :
    (p : Place) (c : ℕ) (t : Text)
    → is_html c ≡ true
    → compact_from p (unicode c ++ t) ≡ unicode c ++ compact_from (after p c) t
unfolding Passes
unicode_passes p c t h = elim (html_cases c h) [
  | inl e ↦ rw e (unicode-Passes_60 p t)
  | inr (inl e) ↦ rw e (unicode-Passes_62 p t)
  | inr (inr e) ↦ rw e (unicode-Passes_38 p t)
]

module _ (p : Place) (c : ℕ) (s : Text) where
  compact_from-dropped : is_dropped p c ≡ true → compact_from p (c ∷ s) ≡ compact_from p s
  unfolding compact_from
  compact_from-dropped d =
      let e : compact_from p (c ∷ s) ≡ compact_from (after p c) s = rw d in
      e ∙ ap (λ q. compact_from q s) (after_dropped p c d)

  compact_from-html :
      is_dropped p c ≡ false
      → is_html c ≡ true
      → compact_from p (c ∷ s) ≡ unicode c ++ compact_from (after p c) s
  unfolding compact_from
  compact_from-html d h = rw (d, h)

  compact_from-plain :
      is_dropped p c ≡ false
      → is_html c ≡ false
      → compact_from p (c ∷ s) ≡ c ∷ compact_from (after p c) s
  unfolding compact_from
  compact_from-plain d h = rw (d, h)

compact_from_idem_step :
    (p : Place) (c : ℕ) (s : Text)
    → compact_from p (compact_from p s) ≡ compact_from p s
    → compact_from (after p c) (compact_from (after p c) s) ≡ compact_from (after p c) s
    → compact_from p (compact_from p (c ∷ s)) ≡ compact_from p (c ∷ s)
compact_from_idem_step p c s same_place moved = elim (Bool-cases (is_dropped p c)) [
  | inl dropped ↦ rw (compact_from-dropped p c s dropped) same_place
  | inr kept ↦ elim (Bool-cases (is_html c)) [
    | inl html ↦
        rw (compact_from-html p c s kept html)
          (unicode_passes p c (compact_from (after p c) s) html ∙ ap (◌++◌ (unicode c)) moved)
    | inr plain ↦
        rw (compact_from-plain p c s kept plain)
          (compact_from-plain p c (compact_from (after p c) s) kept plain ∙ ap (◌∷◌ c) moved)
  ]
]

-- Compaction of a compact text changes nothing, wherever it starts.
compact_from_idem : (p : Place) (t : Text) → compact_from p (compact_from p t) ≡ compact_from p t
unfolding compact_from
compact_from_idem p [] = refl
compact_from_idem p (c ∷ s) =
    compact_from_idem_step p c s (compact_from_idem p s) (compact_from_idem (after p c) s)

pub compact_idem : (t : Text) → compact (compact t) ≡ compact t
unfolding compact
compact_idem t = compact_from_idem outside t
