-- ===== src/Mcp/Guarded.antt =====
-- internal/mcp/tools.go: which calls reach the bus, and which tools are offered.
use peerbus.Prelude.{
  ◌≡◌, ◌≢◌, Text, same, is_empty, Bool, true, false, List, [], ◌∷◌, ◌++◌, Option, none, some, arith,
  refl, In, inl, inr, Bool-cases, ◌⊎◌,
}
use peerbus.Wire.Json.{Json, Items, str, obj, nil, cons, member}
use peerbus.Wire.Print.{print}
use peerbus.Mcp.Rpc.{Decoder}
use peerbus.Mcp.Tools.{
  Bus, Answer, done, failed, Outcome, result, bad_arguments, failure, unknown_tool, call_tool,
  tools, Arguments, send_arguments, broadcast_arguments, bus_send, bus_broadcast, bus_peers,
  bus_drain, send_to, send_body, broadcast_body, shape,
}

same→eq : (a b : Text) → same a b ≡ true → a ≡ b
same→eq a b h = ground arith

-- A call that is refused leaves the bus alone.
abbrev pub Untouched : {S : Type 0} → S → Outcome × S → Type 0
Untouched s (bad_arguments e, s') = s' ≡ s
Untouched s (unknown_tool, s') = s' ≡ s
Untouched s (result v, s') = Unit
Untouched s (failure e, s') = Unit

module _ (j : Decoder) (b : Bus) where
  shape-Untouched :
      {A : Type 0} (f : A → Json) (s : b.State) (r : Answer A × b.State)
      → Untouched s (shape j b f r)
  unfolding shape
  shape-Untouched f s (done a, s') = tt
  shape-Untouched f s (failed e, s') = tt

  send_body-Untouched :
      (to : Text) (o : Option Json) (s : b.State) → Untouched s (send_body j b to o s)
  unfolding send_body
  send_body-Untouched to none s = refl
  send_body-Untouched to (some body) s = shape-Untouched _ s _

  send_to-Untouched :
      (args : Option Json) (o : Option Arguments) (s : b.State) → Untouched s (send_to j b args o s)
  unfolding send_to
  send_to-Untouched args none s = refl
  send_to-Untouched args (some a) s = elim (Bool-cases (is_empty a.to)) [
    | inl e ↦ rw (e, send_to) refl
    | inr e ↦ rw (e, send_to) (send_body-Untouched a.to a.body s)
  ]

  broadcast_body-Untouched :
      (args : Option Json) (o : Option (Option Json)) (s : b.State)
      → Untouched s (broadcast_body j b args o s)
  unfolding broadcast_body
  broadcast_body-Untouched args none s = refl
  broadcast_body-Untouched args (some none) s = refl
  broadcast_body-Untouched args (some (some body)) s = shape-Untouched _ s _

  -- A call that is refused for its arguments or its name never reaches the bus.
  pub call_tool-Untouched :
      (name : Text) (args : Option Json) (s : b.State) → Untouched s (call_tool j b name args s)
  unfolding call_tool
  call_tool-Untouched name args s = elim (Bool-cases (same name bus_send)) [
    | inl e ↦ rw (e, call_tool) (send_to-Untouched args (send_arguments args) s)
    | inr e ↦ elim (Bool-cases (same name bus_broadcast)) [
      | inl f ↦ rw (e, f, call_tool) (broadcast_body-Untouched args (broadcast_arguments args) s)
      | inr f ↦ elim (Bool-cases (same name bus_peers)) [
        | inl g ↦ rw (e, f, g, call_tool) (shape-Untouched _ s _)
        | inr g ↦ elim (Bool-cases (same name bus_drain)) [
          | inl h ↦ rw (e, f, g, h, call_tool) (shape-Untouched _ s _)
          | inr h ↦ rw (e, f, g, h, call_tool) refl
        ]
      ]
    ]
  ]

-- The names in a list of tools.
name_of : Json → List Text
name_of (obj (member d e (member i f (member n (str name) ms)))) = name ∷ []
name_of _ = []

listed : Items → List Text
unfolding name_of
listed nil = []
listed (cons x xs) = name_of x ++ listed xs

-- The names that `tools/list` offers.
unfoldable pub offered : Bool → List Text
unfolding listed tools
offered hide_drain = listed (tools hide_drain)

offered-eq : offered false ≡ bus_send ∷ bus_broadcast ∷ bus_peers ∷ bus_drain ∷ []
unfolding offered tools
offered-eq = refl

offered_hidden : offered true ≡ bus_send ∷ bus_broadcast ∷ bus_peers ∷ []
unfolding offered tools
offered_hidden = refl

module _ (j : Decoder) (b : Bus) where
  abbrev IsKnown : Outcome → Type 0
  IsKnown unknown_tool = ⊥
  IsKnown (result v) = Unit
  IsKnown (bad_arguments e) = Unit
  IsKnown (failure e) = Unit

  shape-IsKnown : {A : Type 0} (f : A → Json) (r : Answer A × b.State) → IsKnown (shape j b f r).0
  unfolding shape
  shape-IsKnown f (done a, s') = tt
  shape-IsKnown f (failed e, s') = tt

  send_to-IsKnown :
      (args : Option Json) (o : Option Arguments) (s : b.State) → IsKnown (send_to j b args o s).0
  unfolding send_to send_body
  send_to-IsKnown args none s = tt
  send_to-IsKnown args (some a) s = elim (Bool-cases (is_empty a.to)) [
    | inl e ↦ rw (e, send_to) tt
    | inr e ↦ rw (e, send_to) (body a.to a.body s)
  ]
    where
      body : (to : Text) (o : Option Json) (s : b.State) → IsKnown (send_body j b to o s).0
      body to none s = tt
      body to (some v) s = shape-IsKnown _ (b.send to (print v) s)

  broadcast_body-IsKnown :
      (args : Option Json) (o : Option (Option Json)) (s : b.State)
      → IsKnown (broadcast_body j b args o s).0
  unfolding broadcast_body
  broadcast_body-IsKnown args none s = tt
  broadcast_body-IsKnown args (some none) s = tt
  broadcast_body-IsKnown args (some (some body)) s = shape-IsKnown _ _

  -- A call is answered as one of an unknown tool exactly if its name is none of the four tools.
  call_tool-IsKnown :
      (name : Text) (args : Option Json) (s : b.State)
      → (IsKnown (call_tool j b name args s).0 × In name (offered false))
        ⊎ (((call_tool j b name args s).0 ≡ unknown_tool) × (In name (offered false) → ⊥))
  unfolding call_tool
  call_tool-IsKnown name args s = elim (Bool-cases (same name bus_send)) [
    | inl e ↦ inl (
      rw (e, call_tool) (send_to-IsKnown args (send_arguments args) s),
      rw offered-eq (inl (same→eq _ _ e)),
    )
    | inr e ↦ elim (Bool-cases (same name bus_broadcast)) [
      | inl f ↦ inl (
        rw (e, f, call_tool) (broadcast_body-IsKnown args (broadcast_arguments args) s),
        rw offered-eq (inr (inl (same→eq _ _ f))),
      )
      | inr f ↦ elim (Bool-cases (same name bus_peers)) [
        | inl g ↦ inl (
          rw (e, f, g, call_tool) (shape-IsKnown _ _),
          rw offered-eq (inr (inr (inl (same→eq _ _ g)))),
        )
        | inr g ↦ elim (Bool-cases (same name bus_drain)) [
          | inl h ↦ inl (
            rw (e, f, g, h, call_tool) (shape-IsKnown _ _),
            rw offered-eq (inr (inr (inr (inl (same→eq _ _ h))))),
          )
          | inr h ↦ inr (rw (e, f, g, h, call_tool) refl, rw offered-eq (none_of e f g h))
        ]
      ]
    ]
  ]
    where
      none_of :
          same name bus_send ≡ false
          → same name bus_broadcast ≡ false
          → same name bus_peers ≡ false
          → same name bus_drain ≡ false
          → In name (bus_send ∷ bus_broadcast ∷ bus_peers ∷ bus_drain ∷ [])
          → ⊥
      none_of e f g h i = ground arith

  -- Whatever the options, a tool that is offered is served, and one that is served is among the four
  -- that are offered without options.
  pub offered_served :
      (hide_drain : Bool) (name : Text) (args : Option Json) (s : b.State)
      → (In name (offered hide_drain) → (call_tool j b name args s).0 ≢ unknown_tool)
        × ((call_tool j b name args s).0 ≢ unknown_tool → In name (offered false))
  offered_served hide name args s = elim (call_tool-IsKnown name args s) [
    | inl (k, i) ↦ (λ o e. rw e at k, λ n. i)
    | inr (u, n) ↦ (λ o e. n (among hide o), λ known. absurd (known u))
  ]
    where
      among : (hide : Bool) → In name (offered hide) → In name (offered false)
      among false o = o
      among true o =
          let o' : In name (bus_send ∷ bus_broadcast ∷ bus_peers ∷ []) = rw offered_hidden at o in
          rw offered-eq (ground arith)
