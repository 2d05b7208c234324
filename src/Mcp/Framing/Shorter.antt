-- ===== src/Mcp/Framing/Shorter.antt =====
-- internal/mcp/server.go: how much of stdin a read leaves.
use mathlib.Core.Path.{subst}
use peerbus.Prelude.{
  ℕ, zero, suc, ◌+◌, ◌≤◌, ◌<◌, ◌≡◌, ◌⊎◌, inl, inr, Text, is_empty, [], ◌∷◌, Option, none, some,
  arith, refl, length, ◌==◌, Bool-cases, Option-cases,
}
use peerbus.Prelude.Strings.{Number, natural, negative, is_line_end}
use peerbus.Mcp.Framing.{
  Read, got, failed, eof, read_line, trim_line, take_bytes, read_body, read_headers,
  read_content_length_framed, read_message, header,
}
use peerbus.Mcp.Framing

-- What a read of a part leaves is shorter by `k` at least.
abbrev Splits : ℕ → ℕ → Option (Text × Text) → Type 0
Splits k n none = Unit
Splits k n (some (line, rest)) = k + length rest ≤ n

abbrev Shortens : {A : Type 0} → ℕ → ℕ → Read A → Type 0
Shortens k n (failed e) = Unit
Shortens k n (got a rest) = k + length rest ≤ n

read_line-Splits : (s : Text) → Splits 1 (length s) (read_line s)
unfolding read_line
read_line-Splits [] = tt
read_line-Splits (c ∷ s) = ground (arith, read_line-Splits s)

take_bytes-Splits : (n : ℕ) (s : Text) → Splits n (length s) (take_bytes n s)
unfolding take_bytes
take_bytes-Splits zero s = ground arith
take_bytes-Splits (suc n) [] = tt
take_bytes-Splits (suc n) (c ∷ s) = ground (arith, take_bytes-Splits n s)

Splits-some :
    (k n : ℕ) (o : Option (Text × Text)) (line rest : Text)
    → Splits k n o
    → o ≡ some (line, rest)
    → k + length rest ≤ n
Splits-some k n none line rest h e = ground arith
Splits-some k n (some (line', rest')) line rest h e = ground arith

read_line-shorter :
    (s line rest : Text) → read_line s ≡ some (line, rest) → 1 + length rest ≤ length s
read_line-shorter s line rest e =
    Splits-some 1 (length s) (read_line s) line rest (read_line-Splits s) e

Shortens-le : {A : Type 0} (k n m : ℕ) (r : Read A) → Shortens k n r → n ≤ m → Shortens k m r
Shortens-le k n m (failed e) h l = tt
Shortens-le k n m (got a rest) h l = ground arith

Shortens-lt : {A : Type 0} (n m : ℕ) (r : Read A) → Shortens 0 n r → n < m → Shortens 1 m r
Shortens-lt n m (failed e) h l = tt
Shortens-lt n m (got a rest) h l = ground arith

read_headers-Shortens :
    (fuel : ℕ) (len : Number) (s : Text) → Shortens 1 (length s) (read_headers fuel len s)
unfolding read_headers
read_headers-Shortens zero len s = tt
read_headers-Shortens (suc fuel) len s = elim (Option-cases (read_line s)) [
  | inl e ↦ rw (e, read_headers) tt
  | inr ((line, rest), e) ↦
      let l = read_line-shorter s line rest e in
      elim (Bool-cases (is_empty (trim_line line))) [
        | inl f ↦ rw (e, f, read_headers) l
        | inr f ↦ elim (Option-cases (header (trim_line line) len)) [
          | inl h ↦ rw (e, f, h, read_headers) tt
          | inr (len', h) ↦
              let r = read_headers fuel len' rest in
              let m : length rest ≤ length s = ground arith in
              rw (e, f, h, read_headers)
                (Shortens-le 1 (length rest) (length s) r (read_headers-Shortens fuel len' rest) m)
        ]
      ]
]

-- The fuel of `read_headers` is enough: any more gives the same.
pub read_headers-enough :
    (f g : ℕ) (len : Number) (s : Text)
    → length s < f
    → length s < g
    → read_headers f len s ≡ read_headers g len s
unfolding read_headers
read_headers-enough zero g len s u v = ground arith
read_headers-enough (suc f) zero len s u v = ground arith
read_headers-enough (suc f) (suc g) len s u v = elim (Option-cases (read_line s)) [
  | inl e ↦ rw (e, read_headers) refl
  | inr ((line, rest), e) ↦
      let l = read_line-shorter s line rest e in
      elim (Bool-cases (is_empty (trim_line line))) [
        | inl t ↦ rw (e, t, read_headers) refl
        | inr t ↦ elim (Option-cases (header (trim_line line) len)) [
          | inl h ↦ rw (e, t, h, read_headers) refl
          | inr (len', h) ↦
              let x : length rest < f = ground arith in
              let y : length rest < g = ground arith in
              rw (e, t, h, read_headers) (read_headers-enough f g len' rest x y)
        ]
      ]
]

take_bytes-le :
    (n : ℕ) (s body rest : Text) → take_bytes n s ≡ some (body, rest) → 0 + length rest ≤ length s
take_bytes-le n s body rest e =
    let h = Splits-some n (length s) (take_bytes n s) body rest (take_bytes-Splits n s) e in
    ground arith

read_body-natural : (n : ℕ) (s : Text) → Shortens 0 (length s) (read_body (natural n) s)
unfolding read_body
read_body-natural n [] = elim (Option-cases (take_bytes n [])) [
  | inl e ↦ rw (e, read_body) tt
  | inr ((body, rest), e) ↦ rw (e, read_body) (take_bytes-le n [] body rest e)
]
read_body-natural n (c ∷ s) = elim (Option-cases (take_bytes n (c ∷ s))) [
  | inl e ↦ rw (e, read_body) tt
  | inr ((body, rest), e) ↦ rw (e, read_body) (take_bytes-le n (c ∷ s) body rest e)
]

read_body-Shortens : (len : Number) (s : Text) → Shortens 0 (length s) (read_body len s)
read_body-Shortens negative s = unfold read_body in tt
read_body-Shortens (natural n) s = read_body-natural n s

pub read_cases :
    {A : Type 0} (r : Read A)
    → ((e : Framing.Error) × (r ≡ failed e)) ⊎ ((a : A) × (rest : Text) × (r ≡ got a rest))
read_cases (failed e) = inl (e, refl)
read_cases (got a rest) = inr (a, rest, refl)

pub Shortens-got :
    {A : Type 0} (k n : ℕ) (r : Read A) (a : A) (rest : Text)
    → Shortens k n r
    → r ≡ got a rest
    → k + length rest ≤ n
Shortens-got k n r a rest h e = subst (Shortens k n) e h

read_content_length_framed-Shortens :
    (s : Text) → Shortens 1 (length s) (read_content_length_framed s)
unfolding read_content_length_framed
read_content_length_framed-Shortens s =
    elim (read_cases (read_headers (suc (length s)) negative s)) [
      | inl (e, h) ↦ rw (h, read_content_length_framed) tt
      | inr (len, rest, h) ↦
          let l =
            Shortens-got 1 (length s) (read_headers (suc (length s)) negative s) len rest
              (read_headers-Shortens (suc (length s)) negative s) h in
          let le : length rest < length s = ground arith in
          rw (h, read_content_length_framed)
            (Shortens-lt (length rest) (length s) (read_body len rest) (read_body-Shortens len rest)
              le)
    ]

pub read_message-Shortens : (s : Text) → Shortens 1 (length s) (read_message s)
unfolding read_message
read_message-Shortens [] = tt
read_message-Shortens (c ∷ s) = elim (Bool-cases (is_line_end c)) [
  | inl e ↦
      rw (e, read_message)
        (Shortens-le 1 (length s) (suc (length s)) (read_message s) (read_message-Shortens s)
          (ground arith))
  | inr e ↦ elim (Bool-cases (c == b'C')) [
    | inl f ↦ rw (e, f, read_message) (read_content_length_framed-Shortens (c ∷ s))
    | inr f ↦ elim (Option-cases (read_line (c ∷ s))) [
      | inl l ↦ rw (e, f, l, read_message) (ground arith)
      | inr ((line, rest), l) ↦ rw (e, f, l, read_message) (read_line-shorter (c ∷ s) line rest l)
    ]
  ]
]
