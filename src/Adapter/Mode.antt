-- ===== src/Adapter/Mode.antt =====
-- internal/adapter/mode.go: the registry of the adapter modes. The list holds the keys of the map once
-- each, in no order that the code uses.
use peerbus.Prelude.{
  ◌≡◌, ◌⊎◌, inl, inr, ◌↔◌, Text, same, text_le, true, false, List, [], ◌∷◌, Option, none, some,
  if◌then◌else◌, arith, refl, In, Bool-cases, Option-cases,
}

pub data Resolved (C : Type 0) : Type 0 where
  constructor : C → Resolved C
  unknown : Text → List Text → Resolved C

insert : Text → List Text → List Text
insert x [] = x ∷ []
insert x (y ∷ ys) = let rest = insert x ys in if text_le x y then x ∷ y ∷ ys else y ∷ rest

-- sort.Strings
unfoldable pub sort : List Text → List Text
unfolding insert
sort [] = []
sort (x ∷ xs) = insert x (sort xs)

module _ {C : Type 0} where
  abbrev pub keys : List (Text × C) → List Text
  keys [] = []
  keys ((n, c) ∷ reg) = n ∷ keys reg

  -- modeReg[name] = ctor
  unfoldable pub register : Text → C → List (Text × C) → List (Text × C)
  register name ctor [] = (name, ctor) ∷ []
  register name ctor ((n, c) ∷ reg) =
      let rest = register name ctor reg in if same n name then (name, ctor) ∷ reg else (n, c) ∷ rest

  unfoldable pub unregister_mode : Text → List (Text × C) → List (Text × C)
  unregister_mode name [] = []
  unregister_mode name ((n, c) ∷ reg) =
      let rest = unregister_mode name reg in if same n name then reg else (n, c) ∷ rest

  unfoldable pub lookup : Text → List (Text × C) → Option C
  lookup name [] = none
  lookup name ((n, c) ∷ reg) = let rest = lookup name reg in if same n name then some c else rest

  unfoldable pub modes : List (Text × C) → List Text
  modes reg = sort (keys reg)

  found : Text → List Text → Option C → Resolved C
  found name known none = unknown name known
  found name known (some c) = constructor c

  unfoldable pub resolve : Text → List (Text × C) → Resolved C
  unfolding found
  resolve name reg = found name (modes reg) (lookup name reg)

  lookup-register :
      (name n : Text) (ctor : C) (reg : List (Text × C))
      → lookup n (register name ctor reg) ≡ (if same name n then some ctor else lookup n reg)
  unfolding lookup register
  lookup-register name n ctor [] = refl
  lookup-register name n ctor ((m, c) ∷ reg) = ground (arith, lookup-register name n ctor reg)

insert-In : (n x : Text) (xs : List Text) → In n (insert x xs) ↔ ((n ≡ x) ⊎ In n xs)
unfolding insert
insert-In n x [] = ground arith
insert-In n x (y ∷ ys) = ground (arith, insert-In n x ys)

sort-In : (n : Text) (xs : List Text) → In n (sort xs) ↔ In n xs
unfolding sort
sort-In n [] = ground arith
sort-In n (x ∷ xs) = ground (arith, sort-In n xs, insert-In n x (sort xs))

module _ {C : Type 0} (n : Text) where
  lookup-keys : (reg : List (Text × C)) (c : C) → lookup n reg ≡ some c → In n (keys reg)
  unfolding lookup
  lookup-keys [] c e = ground arith
  lookup-keys ((m, d) ∷ reg) c e = ground (arith, lookup-keys reg c)

  keys-lookup : (reg : List (Text × C)) → In n (keys reg) → (c : C) × (lookup n reg ≡ some c)
  unfolding lookup
  keys-lookup [] i = absurd i
  keys-lookup ((m, d) ∷ reg) (inl p) = (d, ground (arith, p))
  keys-lookup ((m, d) ∷ reg) (inr i) = elim (Bool-cases (same m n)) [
    | inl e ↦ (d, ground arith)
    | inr e ↦ let (c, q) = keys-lookup reg i in (c, ground (arith, q))
  ]

  keys-register :
      (name : Text) (ctor : C) (reg : List (Text × C))
      → same name n ≡ false
      → In n (keys (register name ctor reg)) ↔ In n (keys reg)
  unfolding register
  keys-register name ctor [] e = ground arith
  keys-register name ctor ((m, c) ∷ reg) e = ground (arith, keys-register name ctor reg e)

  resolved : (reg : List (Text × C)) (c : C) → resolve n reg ≡ constructor c → lookup n reg ≡ some c
  unfolding resolve
  resolved reg c e = elim (Option-cases (lookup n reg)) [
    | inl h ↦ ground arith
    | inr (d, h) ↦ ground arith
  ]

  -- A name resolves to a constructor exactly when it is one of the names that `modes` lists.
  pub resolve_exact :
      (reg : List (Text × C)) → ((c : C) × (resolve n reg ≡ constructor c)) ↔ In n (modes reg)
  unfolding modes
  resolve_exact reg = (
    λ (c, e). (sort-In n (keys reg)).1 (lookup-keys reg c (resolved reg c e)),
    λ i.
        let (c, q) = keys-lookup reg ((sort-In n (keys reg)).0 i) in
        (c, unfold resolve in ground (arith, q)),
  )

  unresolved :
      (reg : List (Text × C)) (m : Text) (known : List Text)
      → resolve n reg ≡ unknown m known
      → (m ≡ n) × (lookup n reg ≡ none)
  unfolding resolve
  unresolved reg m known e = elim (Option-cases (lookup n reg)) [
    | inl h ↦ ground arith
    | inr (d, h) ↦ ground arith
  ]

  -- The error for an unknown mode names it, and it is not listed.
  pub resolve-unknown :
      (reg : List (Text × C)) (m : Text) (known : List Text)
      → resolve n reg ≡ unknown m known
      → (m ≡ n) × ¬ In n (modes reg)
  unfolding modes
  resolve-unknown reg m known e =
      let (p, q) = unresolved reg m known e in
      (
        p,
        λ i.
            let (c, found) = keys-lookup reg ((sort-In n (keys reg)).0 i) in
            ground (arith, q, found),
      )

  -- After a registration the name resolves to the new constructor, whatever it was registered for
  -- before, and any other name is listed as before.
  pub resolve-register :
      (name : Text) (ctor : C) (reg : List (Text × C))
      → (same name n ≡ true → resolve n (register name ctor reg) ≡ constructor ctor)
        × (same name n ≡ false → In n (modes (register name ctor reg)) ↔ In n (modes reg))
  resolve-register name ctor reg = (
    λ e. unfold resolve in ground (arith, lookup-register name n ctor reg),
    λ e.
        unfold modes in
        (
          λ i.
              (sort-In n (keys reg)).1 (
                (keys-register name ctor reg e).0
                  ((sort-In n (keys (register name ctor reg))).0 i)),
          λ i.
              (sort-In n (keys (register name ctor reg))).1
                ((keys-register name ctor reg e).1 ((sort-In n (keys reg)).0 i)),
        ),
  )
