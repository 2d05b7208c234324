-- ===== src/Mcp/Framing.antt =====
-- internal/mcp/server.go: the frames of stdin, one JSON text to a line or behind a Content-Length.
pub mod RoundTrip
pub mod Shorter
use peerbus.Prelude.{
  ℕ, zero, suc, ◌+◌, ◌≤◌, ◌<◌, ◌≡◌, ◌⊎◌, inl, inr, Text, text, same, is_empty, Bool, true, false,
  ◌||◌, List, [], ◌∷◌, ◌++◌, Option, none, some, arith, refl, length, ltb, ◌==◌, if◌then◌else◌,
  Option-cases, Bool-cases,
}
use peerbus.Prelude.Strings.{
  Number, natural, negative, fold_name, trim_right, trim_space, is_line_end, cut, atoi,
}

-- Why a read fails. `eof` is io.EOF, `unexpected_eof` that of a body that is cut off,
-- and `panicked` is no error but a panic, which ends the process.
pub data Error : Type 0 where
  eof unexpected_eof bad_length missing_length panicked : Error

-- A read of stdin: what was read, and what is left.
pub data Read (A : Type 0) : Type 0 where
  got : A → Text → Read A
  failed : Error → Read A

-- ReadBytes('\n') and ReadString('\n'): the line with its end, and what follows; `none` where the
-- input ends first.
abbrev cons_line : ℕ → Option (Text × Text) → Option (Text × Text)
cons_line c none = none
cons_line c (some (line, rest)) = some (c ∷ line, rest)

unfoldable pub read_line : Text → Option (Text × Text)
read_line [] = none
read_line (c ∷ s) = let rest = read_line s in if c == 10 then some (c ∷ [], s) else cons_line c rest

abbrev pub trim_line : Text → Text
trim_line = trim_right is_line_end

-- io.ReadFull into a buffer of `n` bytes.
abbrev cons_body : ℕ → Option (Text × Text) → Option (Text × Text)
cons_body c none = none
cons_body c (some (body, rest)) = some (c ∷ body, rest)

unfoldable pub take_bytes : ℕ → Text → Option (Text × Text)
take_bytes zero s = some ([], s)
take_bytes (suc n) [] = none
take_bytes (suc n) (c ∷ s) = cons_body c (take_bytes n s)

-- The most bytes that `make` allocates on a 64-bit machine.
abbrev max_alloc : ℕ
max_alloc = 281474976710656

cut_off : ℕ → Text → Error
cut_off n s = if ltb max_alloc n then panicked else if is_empty s then eof else unexpected_eof

-- A buffer of more bytes than `make` allocates is a panic, whatever the input is; an input that is as
-- long is out of reach.
full : ℕ → Option (Text × Text) → Text → Read Text
unfolding cut_off
full n (some (body, rest)) s = got body rest
full n none s = failed (cut_off n s)

unfoldable pub read_body : Number → Text → Read Text
unfolding full
read_body negative s = failed missing_length
read_body (natural n) s = full n (take_bytes n s) s

-- What a header line does to the length that is known so far; `none` is a bad number.
header_value : Option (Text × Text) → Number → Option Number
header_value none old = some old
header_value (some (k, v)) old =
    if same (fold_name (trim_space k)) (text "content-length")
    then atoi (trim_space v)
    else some old

unfoldable pub header : Text → Number → Option Number
unfolding header_value
header line old = header_value (cut 58 line) old

-- The loop over the header lines, on fuel for the lines. A length is negative until it is set.
unfoldable pub read_headers : ℕ → Number → Text → Read Number
read_headers zero len s = failed eof
read_headers (suc fuel) len s = elim (read_line s) [
  | none ↦ failed eof
  | some (line, rest) ↦ elim (is_empty (trim_line line)) [
    | true ↦ got len rest
    | false ↦ elim (header (trim_line line) len) [
      | none ↦ failed bad_length
      | some len' ↦ read_headers fuel len' rest
    ]
  ]
]

with_body : Read Number → Read Text
with_body (failed e) = failed e
with_body (got len s) = read_body len s

unfoldable pub read_content_length_framed : Text → Read Text
unfolding with_body
read_content_length_framed s = with_body (read_headers (suc (length s)) negative s)

-- A line is read to its end, or to the end of the input.
to_line : Option (Text × Text) → Text → Read Text
to_line none s = got (trim_line s) []
to_line (some (line, rest)) s = got (trim_line line) rest

unfoldable pub read_message : Text → Read Text
unfolding to_line
read_message [] = failed eof
read_message (c ∷ s) =
    let rest = read_message s in
    if is_line_end c
    then rest
    else if c == b'C'
    then read_content_length_framed (c ∷ s)
    else to_line (read_line (c ∷ s)) (c ∷ s)
