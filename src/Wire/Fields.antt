-- ===== src/Wire/Fields.antt =====
-- How json.Unmarshal fills the fields of a struct from an object: keys match without regard to
-- (ASCII) case, the members are taken in order so that a later one wins, null leaves a string as it
-- is, and a value of another type is an error (`none`).
use peerbus.Prelude.{◌≡◌, Text, same, List, [], ◌∷◌, Option, none, some, arith, refl, if◌then◌else◌}
use peerbus.Prelude.Strings.{fold_name}
use peerbus.Wire.Json.{Json, Items, Members, null, str, arr, nil, cons, end, member}
use peerbus.Wire.Print.{print}

infixl 5 ◌>>=◌
abbrev pub ◌>>=◌ : {A B : Type 0} → Option A → (A → Option B) → Option B
none >>= f = none
some a >>= f = f a

unfoldable pub set_string : Text → Json → Option Text
set_string old null = some old
set_string old (str t) = some t
set_string old _ = none

unfoldable pub string_field : Text → Text → Members → Option Text
unfolding set_string
string_field k old end = some old
string_field k old (member j v ms) =
    if same (fold_name j) k
    then (set_string old v >>= λ new. string_field k new ms)
    else string_field k old ms

-- json.RawMessage takes any value as it stands.
unfoldable pub raw_field : Text → Text → Members → Text
raw_field k old end = old
raw_field k old (member j v ms) = raw_field k (if same (fold_name j) k then print v else old) ms

-- An element of a []string.
unfoldable pub strings : Items → Option (List Text)
unfolding set_string
strings nil = some []
strings (cons x xs) = set_string [] x >>= λ t. strings xs >>= λ ts. some (t ∷ ts)

unfoldable pub set_strings : Json → Option (List Text)
unfolding strings
set_strings null = some []
set_strings (arr xs) = strings xs
set_strings _ = none

unfoldable pub strings_field : Text → List Text → Members → Option (List Text)
unfolding set_strings
strings_field k old end = some old
strings_field k old (member j v ms) =
    if same (fold_name j) k
    then (set_strings v >>= λ new. strings_field k new ms)
    else strings_field k old ms

-- json.Marshal of a []string.
unfoldable pub items : List Text → Items
items [] = nil
items (t ∷ ts) = cons (str t) (items ts)

pub strings-items : (ts : List Text) → strings (items ts) ≡ some ts
unfolding strings items
strings-items [] = refl
strings-items (t ∷ ts) = ground (arith, strings-items ts)
