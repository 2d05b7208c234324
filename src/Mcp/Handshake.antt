-- ===== src/Mcp/Handshake.antt =====
-- internal/mcp/server.go: the handshake of the host, and the channel that waits for it.
use peerbus.Prelude.{
  ◌≡◌, ◌⊎◌, inl, inr, Bool, true, false, List, [], ◌∷◌, Option, none, some, arith, refl, ap, sym,
  ◌∙◌, if◌then◌else◌, Option-cases,
}

-- `channel` says of the channel that was allocated whether it is closed; `done` that initializedOnce has
-- run; `panicked` that a closed channel was closed.
pub record Gate : Type 0 where
  pub initialized : Bool
  pub channel : Option Bool
  pub done : Bool
  pub panicked : Bool

abbrev pub new_gate : Gate
new_gate = record { initialized = false; channel = none; done = false; panicked = false }

-- close(s.initializedCh)
close : Bool → Gate → Gate
close true g = record g { panicked = true }
close false g = record g { channel = some true }

close_allocated : Option Bool → Gate → Gate
unfolding close
close_allocated none g = g
close_allocated (some closed) g = close closed g

unfoldable pub signal_initialized : Gate → Gate
unfolding close_allocated
signal_initialized g = if g.done then g else close_allocated g.channel (record g { done = true })

-- Initialized: the channel, allocated if there is none, and then closed if the host has initialized.
allocated : Option Bool → Gate → Gate
allocated none g = record g { channel = some g.initialized }
allocated (some closed) g = g

unfoldable pub ask : Gate → Gate
unfolding allocated
ask g = allocated g.channel g

-- The message of the host sets the flag, and then signals.
unfoldable pub set_initialized : Gate → Gate
set_initialized g = record g { initialized = true }

-- A message of the host in one step, and a call of Initialized.
pub data Event : Type 0 where
  message asked : Event

unfoldable pub run_events : List Event → Gate → Gate
unfolding set_initialized signal_initialized ask
run_events [] g = g
run_events (message ∷ es) g = run_events es (signal_initialized (set_initialized g))
run_events (asked ∷ es) g = run_events es (ask g)

-- No panic, and a channel that was handed out is closed exactly if the host has initialized.
abbrev pub IsSound : Gate → Type 0
IsSound g =
    (g.panicked ≡ false)
    × (g.done ≡ g.initialized)
    × ((g.channel ≡ none) ⊎ (g.channel ≡ some g.initialized))

fields-IsSound :
    (i d p : Bool) (c : Option Bool)
    → IsSound (record { initialized = i; channel = c; done = d; panicked = p })
    → IsSound (
        signal_initialized
          (set_initialized (record { initialized = i; channel = c; done = d; panicked = p })))
unfolding signal_initialized set_initialized
fields-IsSound i true p none s = (s.0, refl, inl refl)
fields-IsSound i true p (some c) (q, r, inl e) = ground arith
fields-IsSound i true p (some c) (q, r, inr e) =
    (q, refl, inr (e ∙ ap (λ (b : Bool). some b) (sym r)))
fields-IsSound i false p none s = (s.0, refl, inl refl)
fields-IsSound i false p (some true) (q, r, inl e) = ground arith
fields-IsSound i false p (some true) (q, r, inr e) = ground arith
fields-IsSound i false p (some false) s = (s.0, refl, inr refl)

message-IsSound : (g : Gate) → IsSound g → IsSound (signal_initialized (set_initialized g))
message-IsSound g s = fields-IsSound g.initialized g.done g.panicked g.channel s

ask-IsSound : (g : Gate) → IsSound g → IsSound (ask g)
unfolding ask
ask-IsSound g s = elim (Option-cases g.channel) [
  | inl e ↦ ground (arith, e, s)
  | inr (c, e) ↦ ground (arith, e, s)
]

-- From a sound state, if no call of `ask` falls into the handling of a message, the state stays sound
-- after any number of both in any order: nothing panics, and a channel that was handed out is closed
-- exactly if the host has initialized.
pub run_events-IsSound : (es : List Event) (g : Gate) → IsSound g → IsSound (run_events es g)
unfolding run_events
run_events-IsSound [] g s = s
run_events-IsSound (message ∷ es) g s =
    run_events-IsSound es (signal_initialized (set_initialized g)) (message-IsSound g s)
run_events-IsSound (asked ∷ es) g s = run_events-IsSound es (ask g) (ask-IsSound g s)

-- A call of `ask` that allocates the channel between the flag and the signal leads to a panic.
ask_between :
    (g : Gate)
    → g.channel ≡ none
    → g.done ≡ false
    → (signal_initialized (ask (set_initialized g))).panicked ≡ true
unfolding signal_initialized ask set_initialized
ask_between g e f = rw (e, f) refl
