-- ===== src/Adapter/Client/Await.antt =====
-- internal/adapter/client.go: `Peers`, which reads the socket itself.
use mathlib.Core.List.{append_assoc, append-nil}
use peerbus.Prelude.{
  ◌≡◌, Text, same, same_refl, Text-discrete, All, map, refl, ap, ◌∙◌, false, List, [], ◌∷◌, ◌++◌,
  Option, none, some, if◌then◌else◌,
}
use peerbus.Wire.Control.{
  Frame, Peers, Deliver, control_peers, control_deliver, control_type_of, decode_peers,
  decode_deliver,
}
use peerbus.Adapter.Client.{
  World, Client, Error, Read, failed, claimed, binary, frame, read_failed, peers_decode,
  request_peers,
}

-- The names, the deliveries that came before them, and an error.
pub record Reply : Type 0 where
  pub names : List Text
  pub strays : List Deliver
  pub error : Option Error

keep_stray : Option Deliver → List Deliver → List Deliver
keep_stray none strays = strays
keep_stray (some d) strays = strays ++ d ∷ []

named : Option Peers → List Deliver → Reply
named none strays = record { names = []; strays = strays; error = some peers_decode }
named (some p) strays = record { names = p.names; strays = strays; error = none }

-- The reads, until the reply; those that are left come back.
unfoldable pub await_peers : List Read → List Deliver → Reply × List Read
unfolding keep_stray named
await_peers [] strays = (record { names = []; strays = strays; error = some read_failed }, [])
await_peers (failed ∷ rs) strays =
    (record { names = []; strays = strays; error = some read_failed }, rs)
await_peers (claimed ∷ rs) strays =
    (record { names = []; strays = strays; error = some read_failed }, rs)
await_peers (binary ∷ rs) strays = await_peers rs strays
await_peers (frame f ∷ rs) strays = elim (control_type_of f) [
  | none ↦ await_peers rs strays
  | some ct ↦
      let kept = await_peers rs (keep_stray (decode_deliver f) strays) in
      let skipped = await_peers rs strays in
      if same ct control_peers
      then (named (decode_peers f) strays, rs)
      else if same ct control_deliver
      then kept
      else skipped
]

asked : Option Error × Client → List Read → Reply × List Read × Client
unfolding await_peers
asked (some e, c) rs = (record { names = []; strays = []; error = some e }, rs, c)
asked (none, c) rs = let (r, rest) = await_peers rs [] in (r, rest, c)

-- The request fails as that of `request_peers` does.
unfoldable pub peers : World → List Read → Client → Reply × List Read × Client
unfolding asked
peers w rs c = asked (request_peers w c) rs

-- A frame that is read as a delivery.
abbrev IsDeliver : Frame × Deliver → Type 0
IsDeliver (f, d) = (control_type_of f ≡ some control_deliver) × (decode_deliver f ≡ some d)

abbrev pub before : List (Frame × Deliver) → List Read → List Read
before [] rs = rs
before ((f, d) ∷ ds) rs = frame f ∷ before ds rs

is_peers : same control_deliver control_peers ≡ false
unfolding Text-discrete
is_peers = refl

-- The deliveries that come before the reply are kept, all and in order, and what follows it is left.
pub await_peers_keeps :
    (ds : List (Frame × Deliver)) (g : Frame) (p : Peers) (rs : List Read) (strays : List Deliver)
    → All IsDeliver ds
    → control_type_of g ≡ some control_peers
    → decode_peers g ≡ some p
    → await_peers (before ds (frame g ∷ rs)) strays
      ≡ (record { names = p.names; strays = strays ++ map (λ x. x.1) ds; error = none }, rs)
unfolding await_peers
await_peers_keeps [] g p rs strays h t e =
    rw (t, same_refl control_peers, e, await_peers, append-nil strays) refl
await_peers_keeps ((f, d) ∷ ds) g p rs strays ((a, b), h) t e =
    rw (a, is_peers, same_refl control_deliver, b, await_peers)
      (await_peers_keeps ds g p rs (strays ++ d ∷ []) h t e
        ∙ ap (λ x. (record { names = p.names; strays = x; error = none }, rs))
            (append_assoc strays (d ∷ []) (map (λ x. x.1) ds)))
