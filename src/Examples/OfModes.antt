-- ===== src/Examples/OfModes.antt =====
-- The modes of internal/adapter, and the names of internal/channel, at concrete inputs.
use peerbus.Prelude.{
  ◌≤◌, ◌≡◌, refl, arith, Text, text, Text-discrete, length, List, [], ◌∷◌, ◌++◌, some, true,
}
use peerbus.Adapter.Dedupe.{contains, new_dedupe}
use peerbus.Adapter.Client.{Read, claimed, frame}
use peerbus.Wire.Envelope.{protocol_version}
use peerbus.Wire.Control.{encode_peers, control_peers}
use peerbus.Adapter.Generic.{new_generic_bus}
use peerbus.Adapter.Generic.Queue.{
  Event, connects, drops, arrives, sends, lists_peers, drains, Among, firsts, run_events,
  drained_once,
}
use peerbus.Adapter.Cc.{Network}
use peerbus.Channel.Names.{Draw, unique_name, IsFriendly, unique_name-IsFriendly}
use peerbus.Fixtures.{host, client_world, client_config, deliver_hello, alice}

-- The reply of the broker to a registration.
welcome : Read
welcome = frame (
    some (
      encode_peers
        (record { protocol_version = protocol_version; kind = control_peers; names = [] })))

-- The same delivery on two connections, around a drain and other calls.
events : List Event
events =
    connects true welcome
    ∷ arrives deliver_hello
    ∷ sends alice (text "{}")
    ∷ lists_peers
    ∷ drains
    ∷ drops
    ∷ connects true welcome
    ∷ arrives deliver_hello
    ∷ sends alice (text "{}")
    ∷ drains
    ∷ []

-- The first event publishes a client.
connects-published :
    (run_events client_world host
      (connects true welcome ∷ [])
      (new_generic_bus client_config 2)).1.rc.published
    ≡ true
unfolding welcome run_events peerbus.Adapter.Generic.redialled peerbus.Adapter.Client.connect
    peerbus.Adapter.Client.new_client new_generic_bus peerbus.Adapter.Generic.new_resuming
    peerbus.Wire.Control.control_type_of encode_peers peerbus.Wire.Fields.string_field Text-discrete
    peerbus.Prelude.Strings.fold_name
connects-published = refl

one_id : length (text "m1" ∷ []) ≤ (new_dedupe 2).max
unfolding new_dedupe
one_id = ground arith

events-Among : Among (text "m1" ∷ []) events
unfolding events contains Text-discrete
events-Among = (refl, (refl, tt))

drained_once_example :
    (run_events client_world host events (new_generic_bus client_config 2)).0
      ++ (run_events client_world host events (new_generic_bus client_config 2)).1.pending
    ≡ firsts [] events
drained_once_example =
    drained_once client_world host (text "m1" ∷ []) client_config 2 events one_id events-Among

draw : Draw
draw = record { adjective = 1 ∷ []; noun = 2 ∷ []; suffix = 3 ∷ 40 ∷ 255 ∷ [] }

three : length draw.suffix ≡ 3
unfolding draw
three = refl

unique_name-IsFriendly_example : (n : Text) × (unique_name [] draw ≡ some n) × IsFriendly n
unique_name-IsFriendly_example = unique_name-IsFriendly draw three

-- Every name is refused.
refusing : Network
refusing = record { dialled = λ i. true; first_read = λ i. claimed; draw = λ i. draw }
