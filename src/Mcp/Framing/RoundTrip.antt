-- ===== src/Mcp/Framing/RoundTrip.antt =====
-- internal/mcp/server.go: what is framed on stdin is read back, in both framings.
use peerbus.Prelude.{
  ℕ, suc, ◌≡◌, Text, text, same, Text-discrete, is_empty, true, false, [], ◌∷◌, ◌++◌, some, arith,
  refl, ap, ◌∙◌, All, length, ◌==◌,
}
use peerbus.Prelude.Strings.{
  Number, natural, negative, fold_name, trim_left, trim_right, trim_space, is_space, is_line_end,
  is_digit, cut, atoi,
}
use peerbus.Mcp.Framing.{
  got, read_line, trim_line, take_bytes, read_body, header, read_headers,
  read_content_length_framed, read_message,
}

-- No character ends a line.
abbrev pub Unbroken : Text → Type 0
Unbroken = All (λ c. is_line_end c ≡ false)

-- A text that can stand on a line of its own: it has a first byte, which is not that of a header.
abbrev pub IsLine : Text → Type 0
IsLine [] = ⊥
IsLine (c ∷ s) = ((c == b'C') ≡ false) × Unbroken (c ∷ s)

read_line-append :
    (m rest : Text) → Unbroken m → read_line (m ++ (10 ∷ rest)) ≡ some (m ++ (10 ∷ []), rest)
unfolding read_line
read_line-append [] rest u = refl
read_line-append (c ∷ m) rest u = ground (arith, read_line-append m rest u.1)

-- As on a line that ends with CR and LF.
read_line-crlf :
    (m rest : Text)
    → Unbroken m
    → read_line (m ++ (13 ∷ 10 ∷ rest)) ≡ some (m ++ (13 ∷ 10 ∷ []), rest)
unfolding read_line
read_line-crlf [] rest u = refl
read_line-crlf (c ∷ m) rest u = ground (arith, read_line-crlf m rest u.1)

trim_right-Unbroken : (m e : Text) → Unbroken m → trim_line e ≡ [] → trim_line (m ++ e) ≡ m
unfolding trim_right
trim_right-Unbroken [] e u h = h
trim_right-Unbroken (c ∷ m) e u h = ground (arith, trim_right-Unbroken m e u.1 h)

read_message-line-cons :
    (c : ℕ) (m rest : Text)
    → IsLine (c ∷ m)
    → read_message ((c ∷ m) ++ (10 ∷ rest)) ≡ got (c ∷ m) rest
unfolding read_message trim_right
read_message-line-cons c m rest (h, u) =
    ground (arith, read_line-append (c ∷ m) rest u, trim_right-Unbroken (c ∷ m) (10 ∷ []) u refl)

-- A JSON text without line ends, on a line of its own, is the next message.
pub read_message-line : (m rest : Text) → IsLine m → read_message (m ++ (10 ∷ rest)) ≡ got m rest
read_message-line [] rest h = absurd h
read_message-line (c ∷ m) rest h = read_message-line-cons c m rest h

take_bytes-append : (body rest : Text) → take_bytes (length body) (body ++ rest) ≡ some (body, rest)
unfolding take_bytes
take_bytes-append [] rest = refl
take_bytes-append (c ∷ body) rest = ground (arith, take_bytes-append body rest)

-- Digits, and no sign.
abbrev pub IsDecimal : Text → Type 0
IsDecimal = All (λ c. is_digit c ≡ true)

IsDecimal-Unbroken : (ds : Text) → IsDecimal ds → Unbroken ds
IsDecimal-Unbroken [] h = tt
IsDecimal-Unbroken (c ∷ ds) h = (ground arith, IsDecimal-Unbroken ds h.1)

trim_right-digits : (ds : Text) → IsDecimal ds → trim_right is_space ds ≡ ds
unfolding trim_right
trim_right-digits [] h = refl
trim_right-digits (c ∷ ds) h = ground (arith, trim_right-digits ds h.1)

trim_space-digits : (ds : Text) → IsDecimal ds → trim_space (32 ∷ ds) ≡ ds
unfolding trim_space trim_left
trim_space-digits [] h = unfold trim_right in refl
trim_space-digits (c ∷ ds) h = ground (arith, trim_right-digits (c ∷ ds) h)

header_name : same (fold_name (trim_space (text "Content-Length"))) (text "content-length") ≡ true
unfolding trim_space trim_left trim_right fold_name Text-discrete
header_name = refl

header-length :
    (ds : Text) (old : Number) → IsDecimal ds → header (text "Content-Length: " ++ ds) old ≡ atoi ds
unfolding header cut
header-length ds old h = rw (header_name, trim_space-digits ds h)

Unbroken-append : (m n : Text) → Unbroken m → Unbroken n → Unbroken (m ++ n)
Unbroken-append [] n u v = v
Unbroken-append (c ∷ m) n u v = (u.0, Unbroken-append m n u.1 v)

content_length : Text
content_length = text "Content-Length: "

content_length-Unbroken : Unbroken content_length
unfolding content_length
content_length-Unbroken = ground arith

-- A header line that sets the length.
read_headers-line :
    (fuel n : ℕ) (line rest : Text) (old : Number)
    → Unbroken line
    → is_empty line ≡ false
    → header line old ≡ some (natural n)
    → read_headers (suc fuel) old (line ++ (13 ∷ 10 ∷ rest)) ≡ read_headers fuel (natural n) rest
unfolding read_headers
read_headers-line fuel n line rest old u e h =
    let r = read_line-crlf line rest u in
    let t : trim_line (line ++ (13 ∷ 10 ∷ [])) ≡ line =
      trim_right-Unbroken line (13 ∷ 10 ∷ []) u (unfold trim_right in refl) in
    let full : is_empty (trim_line (line ++ (13 ∷ 10 ∷ []))) ≡ false = ap is_empty t ∙ e in
    let set : header (trim_line (line ++ (13 ∷ 10 ∷ []))) old ≡ some (natural n) =
      ap (λ x. header x old) t ∙ h in
    rw (r, read_headers, full, set)

-- The empty line ends the headers.
read_headers-end :
    (fuel : ℕ) (rest : Text) (len : Number)
    → read_headers (suc fuel) len (13 ∷ 10 ∷ rest) ≡ got len rest
unfolding read_headers read_line trim_right
read_headers-end fuel rest len = refl

framed : Text → Text → Text → Text
framed ds body rest = (content_length ++ ds) ++ (13 ∷ 10 ∷ 13 ∷ 10 ∷ (body ++ rest))

-- All of it but the first byte.
framed_rest : Text → Text → Text → Text
framed_rest ds body rest = (text "ontent-Length: " ++ ds) ++ (13 ∷ 10 ∷ 13 ∷ 10 ∷ (body ++ rest))

read_body-framed :
    (body rest : Text) → read_body (natural (length body)) (body ++ rest) ≡ got body rest
unfolding read_body
read_body-framed body rest = ground (arith, take_bytes-append body rest)

read_framed :
    (k : ℕ) (ds body rest : Text)
    → IsDecimal ds
    → atoi ds ≡ some (natural (length body))
    → read_headers (suc (suc k)) negative (framed ds body rest)
      ≡ got (natural (length body)) (body ++ rest)
unfolding framed
read_framed k ds body rest d a =
    read_headers-line (suc k) (length body) (content_length ++ ds) (13 ∷ 10 ∷ (body ++ rest))
      negative (Unbroken-append content_length ds content_length-Unbroken (IsDecimal-Unbroken ds d))
      (unfold content_length in refl) (unfold content_length in (header-length ds negative d ∙ a))
    ∙ read_headers-end k (body ++ rest) (natural (length body))

-- A message behind a Content-Length header that gives its length is the next message, whatever
-- bytes it has.
pub read_message-framed :
    (ds body rest : Text)
    → IsDecimal ds
    → atoi ds ≡ some (natural (length body))
    → read_message (text "Content-Length: " ++ (ds ++ (13 ∷ 10 ∷ 13 ∷ 10 ∷ (body ++ rest))))
      ≡ got body rest
unfolding read_message read_content_length_framed
read_message-framed ds body rest d a =
    let read : read_headers (suc (length (framed ds body rest))) negative (framed ds body rest)
        ≡ got (natural (length body)) (body ++ rest) =
      unfold framed framed_rest content_length in
      read_framed (length (framed_rest ds body rest)) ds body rest d a in
    let whole : read_content_length_framed (framed ds body rest) ≡ got body rest =
      rw read (read_body-framed body rest) in
    unfold framed content_length in whole
