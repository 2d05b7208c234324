-- ===== src/Mcp/Loop.antt =====
-- internal/mcp/server.go: the read loop, from the first message of stdin to its end.
use mathlib.Core.List.{append_assoc}
use peerbus.Prelude.{
  ℕ, zero, suc, ◌<◌, ◌≡◌, inl, inr, Text, text, List, [], ◌∷◌, ◌++◌, Option, none, some, arith,
  refl, ap, ◌∙◌, All, length,
}
use peerbus.Prelude.Strings.{natural, atoi}
use peerbus.Mcp.Framing.{got, failed, eof, read_message}
use peerbus.Mcp.Framing
use peerbus.Mcp.Framing.RoundTrip.{IsLine, IsDecimal, read_message-line, read_message-framed}
use peerbus.Mcp.Framing.Shorter.{read_cases, Shortens-got, read_message-Shortens}
use peerbus.Mcp.Rpc.{Decoder}
use peerbus.Mcp.Tools.{Bus}
use peerbus.Mcp.Server.{Server, dispatch, serve}

-- What the loop does with a message.
unfoldable pub deliver : (j : Decoder) (b : Bus) → Text → Server b.State → Server b.State
deliver j b [] s = s
deliver j b (c ∷ m) s = dispatch j b (c ∷ m) s

module _ (j : Decoder) (b : Bus) where
  serve-got :
      (fuel : ℕ) (input m rest : Text) (s : Server b.State)
      → read_message input ≡ got m rest
      → serve j b (suc fuel) input s ≡ serve j b fuel rest (deliver j b m s)
  unfolding serve deliver
  serve-got fuel input [] rest s e = rw (e, serve) refl
  serve-got fuel input (c ∷ m) rest s e = rw (e, serve) refl

  -- The loop ends on every input: one turn for each byte of it, and one more, is enough fuel.
  pub serve-total :
      (fuel : ℕ) (input : Text) (s : Server b.State)
      → length input < fuel
      → (r : Option Framing.Error × Server b.State) × (serve j b fuel input s ≡ some r)
  unfolding serve
  serve-total zero input s l = ground arith
  serve-total (suc fuel) input s l = elim (read_cases (read_message input)) [
    | inl (eof, e) ↦ rw (e, serve) (_, refl)
    | inl (Framing.panicked, e) ↦ rw (e, serve) (_, refl)
    | inl (Framing.unexpected_eof, e) ↦ rw (e, serve) (_, refl)
    | inl (Framing.bad_length, e) ↦ rw (e, serve) (_, refl)
    | inl (Framing.missing_length, e) ↦ rw (e, serve) (_, refl)
    | inr (m, rest, e) ↦
        let h =
          Shortens-got 1 (length input) (read_message input) m rest (read_message-Shortens input)
            e in
        let l' : length rest < fuel = ground arith in
        rw (serve-got fuel input m rest s e) (serve-total fuel rest (deliver j b m s) l')
  ]

-- What a host writes for a message: the message on a line, or behind its length.
pub data Framed : Type 0 where
  line : Text → Framed
  counted : Text → Text → Framed

unfoldable pub encode : Framed → Text
encode (line m) = m ++ 10 ∷ []
encode (counted ds m) = text "Content-Length: " ++ (ds ++ (13 ∷ 10 ∷ 13 ∷ 10 ∷ m))

abbrev pub message : Framed → Text
message (line m) = m
message (counted ds m) = m

abbrev pub IsFramed : Framed → Type 0
IsFramed (line m) = IsLine m
IsFramed (counted ds m) = IsDecimal ds × (atoi ds ≡ some (natural (length m)))

unfoldable pub stream : List Framed → Text
stream [] = []
stream (f ∷ fs) = encode f ++ stream fs

read_message-encode :
    (f : Framed) (rest : Text) → IsFramed f → read_message (encode f ++ rest) ≡ got (message f) rest
unfolding encode
read_message-encode (line m) rest h =
    rw (append_assoc m (10 ∷ []) rest) (read_message-line m rest h)
read_message-encode (counted ds m) rest (d, a) =
    ap read_message (
      append_assoc (text "Content-Length: ") (ds ++ (13 ∷ 10 ∷ 13 ∷ 10 ∷ m)) rest
      ∙ ap (λ x. text "Content-Length: " ++ x) (append_assoc ds (13 ∷ 10 ∷ 13 ∷ 10 ∷ m) rest))
    ∙ read_message-framed ds m rest d a

module _ (j : Decoder) (b : Bus) where
  unfoldable pub deliver_all : List Framed → Server b.State → Server b.State
  deliver_all [] s = s
  deliver_all (f ∷ fs) s = deliver_all fs (deliver j b (message f) s)

  -- Of a stream of framed messages, each on a line of its own or behind its length, the loop dispatches
  -- every message once, in order, and ends without an error, with as much fuel as there are messages
  -- and one more.
  pub serve-stream :
      (fs : List Framed) (s : Server b.State)
      → All IsFramed fs
      → serve j b (suc (length fs)) (stream fs) s ≡ some (none, deliver_all fs s)
  unfolding deliver_all stream
  serve-stream [] s h = unfold serve in unfold read_message in refl
  serve-stream (f ∷ fs) s (h, hs) =
      serve-got j b (suc (length fs)) (encode f ++ stream fs) (message f) (stream fs) s
        (read_message-encode f (stream fs) h)
      ∙ serve-stream fs (deliver j b (message f) s) hs
