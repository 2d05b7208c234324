-- ===== src/Audit/Evidence.antt =====
-- internal/audit/audit.go: two chains with one last hash.
use peerbus.Prelude.{
  ℕ, suc, ◌≡◌, ◌≢◌, ◌⊎◌, inl, inr, Text, Text-discrete, List, [], ◌∷◌, ◌++◌, arith, refl, ap, sym,
  ◌∙◌, length, In,
}
use peerbus.Prelude.Hex.{decode-encode, length-encode}
use peerbus.Audit.{Blake3, genesis_prev_hash, chain_hash}
use peerbus.Audit.Chain.{Chained}
use peerbus.Store.Schema.{AuditRow}

-- Rows that agree in what the chain covers.
abbrev pub SameLog : List AuditRow → List AuditRow → Type 0
SameLog [] [] = Unit
SameLog [] (y ∷ ys) = ⊥
SameLog (x ∷ xs) [] = ⊥
SameLog (x ∷ xs) (y ∷ ys) =
    (x.seq ≡ y.seq) × (x.prev_hash ≡ y.prev_hash) × (x.event ≡ y.event) × SameLog xs ys

pub append-injective : (a b c e : Text) → length a ≡ length b → a ++ c ≡ b ++ e → (a ≡ b) × (c ≡ e)
append-injective [] [] c e l p = (refl, p)
append-injective [] (y ∷ b) c e l p = absurd (omega arith)
append-injective (x ∷ a) [] c e l p = absurd (omega arith)
append-injective (x ∷ a) (y ∷ b) c e l p =
    let t : a ++ c ≡ b ++ e = cc in let (q, r) = append-injective a b c e (omega arith) t in (cc, r)

-- The bytes that a row's hash is taken of.
abbrev pub preimage : AuditRow → Text
preimage r = r.prev_hash ++ r.event

module _ (h : Blake3) where
  -- A row of one log and a row of the other whose hashes are of different bytes and are one digest.
  abbrev pub Collision : List AuditRow → List AuditRow → Type 0
  Collision xs ys =
      (x : AuditRow) × (y : AuditRow) × In x xs
      × In y ys
      × (preimage x ≢ preimage y)
      × (h.sum256 (preimage x) ≡ h.sum256 (preimage y))

  later_Collision :
      (x y : AuditRow) (xs ys : List AuditRow) → Collision xs ys → Collision (x ∷ xs) (y ∷ ys)
  later_Collision x y xs ys (a, b, i, j, ne, eq) = (a, b, inr i, inr j, ne, eq)

  links :
      (x y : AuditRow) (xs ys : List AuditRow)
      → length x.prev_hash ≡ length y.prev_hash
      → chain_hash h x.prev_hash x.event ≡ chain_hash h y.prev_hash y.event
      → ((x.prev_hash ≡ y.prev_hash) × (x.event ≡ y.event)) ⊎ Collision (x ∷ xs) (y ∷ ys)
  unfolding chain_hash
  links x y xs ys l c = elim (Text-discrete (preimage x) (preimage y)) [
    | yes p ↦ inl (append-injective x.prev_hash y.prev_hash x.event y.event l p)
    | no p ↦ inr (
      x,
      y,
      inl refl,
      inl refl,
      p,
      ground (
        arith,
        decode-encode (h.sum256 (preimage x)) (h.bytes (preimage x)),
        decode-encode (h.sum256 (preimage y)) (h.bytes (preimage y)),
      ),
    )
  ]

  length-chain_hash : (p e : Text) → length (chain_hash h p e) ≡ 64
  unfolding chain_hash
  length-chain_hash p e = omega (arith, length-encode (h.sum256 (p ++ e)), h.length-sum256 (p ++ e))

  abbrev pub last_hash : Text → List AuditRow → Text
  last_hash want [] = want
  last_hash want (r ∷ rs) = last_hash r.hash rs

  logs_agree :
      (i : ℕ) (v w : Text) (xs ys : List AuditRow)
      → length v ≡ 64
      → length w ≡ 64
      → Chained h i v xs
      → Chained h i w ys
      → length xs ≡ length ys
      → last_hash v xs ≡ last_hash w ys
      → ((v ≡ w) × SameLog xs ys) ⊎ Collision xs ys
  logs_agree i v w [] [] a b c d l e = inl (e, tt)
  logs_agree i v w [] (y ∷ ys) a b c d l e = absurd (omega arith)
  logs_agree i v w (x ∷ xs) [] a b c d l e = absurd (omega arith)
  logs_agree i v w (x ∷ xs) (y ∷ ys) a b c d l e =
      elim (logs_agree (suc i) x.hash y.hash xs ys
        (ap length c.2 ∙ length-chain_hash x.prev_hash x.event)
        (ap length d.2 ∙ length-chain_hash y.prev_hash y.event) c.3 d.3 (omega arith) e) [
          | inr collision ↦ inr (later_Collision x y xs ys collision)
          | inl (hashes, rest) ↦
              elim (links x y xs ys (ap length c.1 ∙ a ∙ sym (ap length d.1 ∙ b))
                (sym c.2 ∙ hashes ∙ d.2)) [
                  | inr collision ↦ inr collision
                  | inl (p, q) ↦ inl (sym c.1 ∙ p ∙ d.1, (c.0 ∙ sym d.0, p, q, rest))
                ]
        ]

  -- Two chains of one length that end in one hash hold the same numbers, links and events, or a row
  -- of the one and a row of the other exhibit a collision: different bytes with one digest.
  pub chain_tamper_evident :
      (xs ys : List AuditRow)
      → Chained h 0 (genesis_prev_hash h) xs
      → Chained h 0 (genesis_prev_hash h) ys
      → length xs ≡ length ys
      → last_hash (genesis_prev_hash h) xs ≡ last_hash (genesis_prev_hash h) ys
      → SameLog xs ys ⊎ Collision xs ys
  unfolding genesis_prev_hash
  chain_tamper_evident xs ys c d l e =
      let g : length (genesis_prev_hash h) ≡ 64 =
        omega (arith, length-encode (h.sum256 []), h.length-sum256 []) in
      elim (logs_agree 0 (genesis_prev_hash h) (genesis_prev_hash h) xs ys g g c d l e) [
        | inl (_, logs) ↦ inl logs
        | inr collision ↦ inr collision
      ]
