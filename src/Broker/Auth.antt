-- ===== src/Broker/Auth.antt =====
-- internal/broker/auth.go: static bearer tokens.
use peerbus.Prelude.{
  ◌≡◌, ◌↔◌, Text, same, is_empty, Bool, true, false, List, [], ◌∷◌, arith, refl, In, ◌⊎◌, ◌≢◌,
  if◌then◌else◌,
}

pub record Authenticator : Type 0 where
  pub tokens : List Text

-- The loop compares every token, and remembers a match.
unfoldable pub any_match : Bool → Text → List Text → Bool
any_match found tok [] = found
any_match found tok (t ∷ ts) = any_match (if same t tok then true else found) tok ts

unfoldable pub valid : Authenticator → Text → Bool
valid a tok = if is_empty tok then false else any_match false tok a.tokens

any_match-In :
    (found : Bool) (tok : Text) (ts : List Text)
    → any_match found tok ts ≡ true
    → (found ≡ true) ⊎ In tok ts
unfolding any_match
any_match-In found tok [] h = ground arith
any_match-In found tok (t ∷ ts) h =
    ground (arith, any_match-In true tok ts, any_match-In found tok ts)

In-any_match :
    (found : Bool) (tok : Text) (ts : List Text)
    → (found ≡ true) ⊎ In tok ts
    → any_match found tok ts ≡ true
unfolding any_match
In-any_match found tok [] h = ground arith
In-any_match found tok (t ∷ ts) h =
    ground (arith, In-any_match true tok ts, In-any_match found tok ts)

-- A token is accepted exactly when it is not empty and one of the configured ones.
pub valid_exact :
    (a : Authenticator) (tok : Text) → (valid a tok ≡ true) ↔ ((tok ≢ []) × In tok a.tokens)
unfolding valid
valid_exact a [] = (λ h. cc, λ h. absurd (h.0 refl))
valid_exact a (c ∷ tok) = (
  λ h. (λ e. cc, ground (arith, any_match-In false (c ∷ tok) a.tokens h)),
  λ h. In-any_match false (c ∷ tok) a.tokens (ground arith),
)
