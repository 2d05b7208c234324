-- ===== src/Command/Flags.antt =====
-- Go's flag package, as far as cmd/peerbus uses it: the flags stand before the first argument that is
-- none.
use peerbus.Prelude.{
  ◌≡◌, Text, text, same, Bool, true, false, ◌||◌, List, [], ◌∷◌, Option, none, some, refl, ◌==◌,
  if◌then◌else◌,
}
use peerbus.Prelude.Strings.{cut}

pub data Kind : Type 0 where
  boolean valued : Kind

-- The flags that are defined, and the values that were set, the first one first.
abbrev pub Formal : Type 0
Formal = List (Text × Kind)

abbrev pub Settings : Type 0
Settings = List (Text × Text)

-- The settings and the arguments that are left; `none` is an error, or a call for help.
abbrev pub Parsed : Type 0
Parsed = Option (Settings × List Text)

-- What an argument is taken for.
pub data Step : Type 0 where
  stop end bad : Step
  set : Text → Text → Step
  want : Text → Step

-- strconv.ParseBool
unfoldable pub parse_bool : Text → Option Bool
parse_bool v =
    if same v (text "1")
      || same v (text "t")
      || same v (text "T")
      || same v (text "TRUE")
      || same v (text "true")
      || same v (text "True")
    then some true
    else if same v (text "0")
        || same v (text "f")
        || same v (text "F")
        || same v (text "FALSE")
        || same v (text "false")
        || same v (text "False")
    then some false
    else none

checked : Text → Text → Option Bool → Step
checked name v none = bad
checked name v (some b) = set name v

module _ (formal : Formal) where
  kind_of : Formal → Text → Option Kind
  kind_of [] name = none
  kind_of ((n, k) ∷ fs) name = let rest = kind_of fs name in if same n name then some k else rest

  -- A flag with its value behind `=`, or without one.
  assigned : Option Kind → Text → Option Text → Step
  unfolding checked
  assigned none name v = bad
  assigned (some boolean) name none = set name (text "true")
  assigned (some boolean) name (some v) = checked name v (parse_bool v)
  assigned (some valued) name none = want name
  assigned (some valued) name (some v) = set name v

  at_equals : Option (Text × Text) → Text → Step
  unfolding assigned kind_of
  at_equals none name = assigned (kind_of formal name) name none
  at_equals (some (name, v)) all = assigned (kind_of formal name) name (some v)

  named : Text → Step
  unfolding at_equals
  named [] = bad
  named (c ∷ s) = if c == b'-' || c == b'=' then bad else at_equals (cut 61 (c ∷ s)) (c ∷ s)

  double : Text → Step
  unfolding named
  double [] = end
  double (c ∷ s) = named (c ∷ s)

  unfoldable pub step : Text → Step
  unfolding named double
  step [] = stop
  step (c ∷ []) = stop
  step (c ∷ d ∷ s) = if c == b'-' then if d == b'-' then double s else named (d ∷ s) else stop

  add : Text → Text → Parsed → Parsed
  add name v none = none
  add name v (some (settings, rest)) = some ((name, v) ∷ settings, rest)

  -- `tail` follows the argument and gives `more`; `skip` is the first of it, with what follows that
  -- gives.
  next : Step → List Text → List Text → Parsed → Option (Text × Parsed) → Parsed
  unfolding add
  next stop all tail more skip = some ([], all)
  next end all tail more skip = some ([], tail)
  next bad all tail more skip = none
  next (set name v) all tail more skip = add name v more
  next (want name) all tail more none = none
  next (want name) all tail more (some (v, rest)) = add name v rest

  unfoldable pub parse : List Text → Parsed
  unfolding next
  parse [] = some ([], [])
  parse (s ∷ []) = next (step s) (s ∷ []) [] (some ([], [])) none
  parse (s ∷ v ∷ args) =
      next (step s) (s ∷ v ∷ args) (v ∷ args) (parse (v ∷ args)) (some (v, parse args))

  -- The first argument that is no flag ends the flags.
  pub parse-stop :
      (s : Text) (args : List Text) → step s ≡ stop → parse (s ∷ args) ≡ some ([], s ∷ args)
  unfolding parse
  parse-stop s [] e = rw (e, parse) refl
  parse-stop s (v ∷ args) e = rw (e, parse) refl

-- The value of a flag, which is the one that was set last.
unfoldable pub value : Text → Text → Settings → Text
value name old [] = old
value name old ((n, v) ∷ rest) = value name (if same n name then v else old) rest

unfoldable pub is_set : Text → Settings → Bool
is_set name settings = elim (parse_bool (value name (text "false") settings)) [
  | none ↦ false
  | some b ↦ b
]
