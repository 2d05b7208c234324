-- ===== src/Broker/Registry/Laws.antt =====
-- internal/broker/registry.go: how binding and removing change what a name is bound to.
use peerbus.Prelude.{
  ℕ, ◌≡◌, ◌≢◌, ◌⊎◌, inl, inr, Text, same, Text-discrete, text_le, text_le_total, true, List, [],
  ◌∷◌, map, none, some, arith, refl, In, ◌==◌, if◌then◌else◌, Option-cases,
}
use peerbus.Broker.Registry.{
  Binding, Registry, find, put, delete, Bound, fresh, name_claimed, taken_over, bind, remove,
  insert_name, sort_names, names,
}

find-name : (n : Text) (r : Registry) (b : Binding) → find n r ≡ some b → b.name ≡ n
unfolding find
find-name n [] b e = cc
find-name n (x ∷ r) b e = ground (arith, find-name n r b)

pub find-put :
    (b : Binding) (n : Text) (r : Registry)
    → find n (put b r) ≡ (if same b.name n then some b else find n r)
unfolding find put
find-put b n [] = refl
find-put b n (x ∷ r) = ground (arith, find-put b n r)

find-delete :
    (m n : Text) (r : Registry) → find n (delete m r) ≡ (if same m n then none else find n r)
unfolding find delete
find-delete m n [] = ground arith
find-delete m n (x ∷ r) = ground (arith, find-delete m n r)

-- What `bind` answers, and what the name is bound to afterwards.
abbrev pub Binds : Binding → Registry → Bound × Registry → Type 0
Binds b r (o, r') =
    ((find b.name r ≡ none) × (o ≡ fresh) × (find b.name r' ≡ some b))
    ⊎ (((x : Binding) × (find b.name r ≡ some x)
          × (x.token ≡ b.token)
          × (o ≡ taken_over x.conn)
          × (find b.name r' ≡ some b))
        ⊎ ((x : Binding) × (find b.name r ≡ some x)
            × (x.token ≢ b.token)
            × (o ≡ name_claimed)
            × (r' ≡ r)))

-- A free name is bound. A name under the same token is taken over, and the connection that held it
-- is the one to close. Under another token the claim is refused, and the registry stays as it was.
pub bind_cases : (b : Binding) (r : Registry) → Binds b r (bind b r)
unfolding bind
bind_cases b r = elim (Option-cases (find b.name r)) [
  | inl free ↦ inl (free, ground arith, ground (arith, find-put b b.name r))
  | inr (x, held) ↦ elim (Text-discrete x.token b.token) [
    | yes p ↦ inr (inl (x, held, p, ground arith, ground (arith, find-put b b.name r)))
    | no p ↦ inr (inr (x, held, p, ground arith, ground arith))
  ]
]

-- Binding one name leaves every other name as it was.
pub bind_ne : (b : Binding) (n : Text) (r : Registry) → b.name ≢ n → find n (bind b r).1 ≡ find n r
unfolding bind
bind_ne b n r h = ground (arith, find-put b n r)

-- A stale connection cannot evict the live one: a name is unbound exactly if the connection holds
-- it, and no other name is touched.
pub find-remove :
    (m n : Text) (c : ℕ) (r : Registry)
    → find n (remove m c r) ≡ (
        if same m n
        then elim (find n r) [ none ↦ none | some b ↦ if b.conn == c then none else some b ]
        else find n r)
unfolding remove
find-remove m n c r = ground (arith, find-delete m n r)

-- Names occur once.
abbrev pub IsUnique : Registry → Type 0
IsUnique [] = Unit
IsUnique (b ∷ bs) = (find b.name bs ≡ none) × IsUnique bs

put-IsUnique : (b : Binding) (r : Registry) → IsUnique r → IsUnique (put b r)
unfolding put find
put-IsUnique b [] u = (refl, tt)
put-IsUnique b (x ∷ r) u = ground (arith, find-put b x.name r, put-IsUnique b r)

delete-IsUnique : (n : Text) (r : Registry) → IsUnique r → IsUnique (delete n r)
unfolding delete
delete-IsUnique n [] u = tt
delete-IsUnique n (x ∷ r) u = ground (arith, find-delete n x.name r, delete-IsUnique n r)

pub bind-IsUnique : (b : Binding) (r : Registry) → IsUnique r → IsUnique (bind b r).1
unfolding bind
bind-IsUnique b r u = ground (arith, put-IsUnique b r u)

pub remove-IsUnique : (n : Text) (c : ℕ) (r : Registry) → IsUnique r → IsUnique (remove n c r)
unfolding remove
remove-IsUnique n c r u = ground (arith, delete-IsUnique n r u)

In-insert_name : (a n : Text) (xs : List Text) → In a (n ∷ xs) → In a (insert_name n xs)
unfolding insert_name
In-insert_name a n [] h = h
In-insert_name a n (x ∷ xs) h = ground (arith, In-insert_name a n xs)

insert_name-In : (a n : Text) (xs : List Text) → In a (insert_name n xs) → In a (n ∷ xs)
unfolding insert_name
insert_name-In a n [] h = h
insert_name-In a n (x ∷ xs) h = ground (arith, insert_name-In a n xs)

In-names : (n : Text) (r : Registry) (b : Binding) → find n r ≡ some b → In n (names r)
unfolding find names
In-names n [] b e = cc
In-names n (x ∷ r) b e =
    In-insert_name n x.name (sort_names (map (λ b. b.name) r)) (ground (arith, In-names n r b))

names-In : (n : Text) (r : Registry) → In n (names r) → find n r ≢ none
unfolding find names
names-In n [] h = absurd h
names-In n (x ∷ r) h =
    ground (arith, insert_name-In n x.name (sort_names (map (λ b. b.name) r)) h, names-In n r)

abbrev pub IsSorted : List Text → Type 0
IsSorted [] = Unit
IsSorted (x ∷ []) = Unit
IsSorted (x ∷ y ∷ xs) = (text_le x y ≡ true) × IsSorted (y ∷ xs)

insert_name-IsSorted : (n : Text) (xs : List Text) → IsSorted xs → IsSorted (insert_name n xs)
unfolding insert_name
insert_name-IsSorted n [] h = tt
insert_name-IsSorted n (x ∷ []) h = ground (arith, text_le_total n x)
insert_name-IsSorted n (x ∷ y ∷ xs) h =
    ground (arith, text_le_total n x, text_le_total n y, insert_name-IsSorted n (y ∷ xs) h.1)

sort_names-IsSorted : (xs : List Text) → IsSorted (sort_names xs)
unfolding sort_names
sort_names-IsSorted [] = tt
sort_names-IsSorted (x ∷ xs) = insert_name-IsSorted x (sort_names xs) (sort_names-IsSorted xs)

-- The list of peers is sorted, and names exactly the bound ones.
pub names_exact :
    (r : Registry)
    → IsSorted (names r)
      × ((n : Text) → (In n (names r) → find n r ≢ none) × (find n r ≢ none → In n (names r)))
names_exact r = (names_sorted, λ n. (names-In n r, bound n))
  where
    names_sorted : IsSorted (names r)
    names_sorted = unfold names in sort_names-IsSorted (map (λ b. b.name) r)

    bound : (n : Text) → find n r ≢ none → In n (names r)
    bound n h = elim (Option-cases (find n r)) [
      | inl e ↦ absurd (h e)
      | inr (b, e) ↦ In-names n r b e
    ]
