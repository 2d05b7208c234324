-- ===== src/Broker/Registry.antt =====
-- internal/broker/registry.go: which connection holds which peer name, and under which token.
pub mod Laws
use peerbus.Prelude.{
  ℕ, ◌≡◌, ◌≢◌, ◌⊎◌, inl, inr, Text, same, text_le, text_le_total, Bool, true, false, ◌&&◌, List, [],
  ◌∷◌, map, Option, none, some, arith, refl, In, ◌==◌, if◌then◌else◌,
}

pub record Binding : Type 0 where
  pub name : Text
  pub token : Text
  pub conn : ℕ

-- The map from names, as a list with one entry for a name.
abbrev pub Registry : Type 0
Registry = List Binding

unfoldable pub find : Text → Registry → Option Binding
find n [] = none
find n (b ∷ bs) = if same b.name n then some b else find n bs

-- r.peers[name] = binding
unfoldable pub put : Binding → Registry → Registry
put b [] = b ∷ []
put b (x ∷ xs) = if same x.name b.name then b ∷ xs else x ∷ put b xs

-- delete(r.peers, name)
unfoldable pub delete : Text → Registry → Registry
delete n [] = []
delete n (b ∷ bs) = let rest = delete n bs in if same b.name n then rest else b ∷ rest

-- `taken_over` names the connection that the registry closes.
pub data Bound : Type 0 where
  fresh name_claimed : Bound
  taken_over : ℕ → Bound

bind_over : Option Binding → Binding → Registry → Bound × Registry
bind_over none b r = (fresh, put b r)
bind_over (some existing) b r =
    if same existing.token b.token then (taken_over existing.conn, put b r) else (name_claimed, r)

unfoldable pub bind : Binding → Registry → Bound × Registry
unfolding bind_over
bind b r = bind_over (find b.name r) b r

unfoldable pub remove : Text → ℕ → Registry → Registry
remove n c r = elim (find n r) [ none ↦ r | some b ↦ if b.conn == c then delete n r else r ]

unfoldable pub get : Text → Registry → Option ℕ
get n r = elim (find n r) [ none ↦ none | some b ↦ some b.conn ]

-- sort.Strings
unfoldable pub insert_name : Text → List Text → List Text
insert_name n [] = n ∷ []
insert_name n (x ∷ xs) = let rest = insert_name n xs in if text_le n x then n ∷ x ∷ xs else x ∷ rest

unfoldable pub sort_names : List Text → List Text
unfolding insert_name
sort_names [] = []
sort_names (n ∷ ns) = insert_name n (sort_names ns)

unfoldable pub names : Registry → List Text
unfolding sort_names
names r = sort_names (map (λ b. b.name) r)
