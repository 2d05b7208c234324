-- ===== src/Examples/OfBroker.antt =====
-- internal/broker at concrete inputs.
use peerbus.Prelude.{
  ◌≡◌, ◌≢◌, refl, arith, text, Text-discrete, true, false, [], ◌∷◌, none, some, In, inl,
}
use peerbus.Wire.Envelope.{encode, received, check_version}
use peerbus.Wire.Transit.{decode-encode}
use peerbus.Wire.Control.{Register, encode_register, decode_register-encode}
use peerbus.Broker.Auth.{valid, any_match}
use peerbus.Broker.Registry.{Registry, bind, find, names}
use peerbus.Broker.Registry.Laws.{Binds, bind_cases}
use peerbus.Broker.State.{Server, new_conn}
use peerbus.Broker.Router.{deliver_frame, route_frame, route_broadcast}
use peerbus.Broker.Server.{frame, handshake, refusal}
use peerbus.Broker.Redelivery.{IsQuiet}
use peerbus.Broker.Admission.{Admits, hijack_refused, handshake-Admits}
use peerbus.Broker.Provenance.{Adds}
use peerbus.Broker.Provenance.Broadcast.{IsCopy, route_broadcast_copies}
use peerbus.Broker.Provenance.Sender.{IsFrom, route_frame_sender}
use peerbus.Broker.Reconnect.{IsClaimable, handshake_redelivers}
use peerbus.Fixtures.{world, auth, token, bob, alice, store, hello, hello_message, register_bob}

register_alice : Register
register_alice = record register_bob { name = alice }

-- A broker after a restart: the store has a message to bob, and nobody is connected.
restarted : Server
restarted = record {
  auth = auth;
  registry = [];
  store = store;
  audited = true;
  conns = λ c. new_conn;
  writes = 0;
}

world-IsQuiet : IsQuiet world
world-IsQuiet = record { driver = λ n. refl; network = λ n. refl }

passes : refusal restarted register_bob ≡ none
unfolding restarted refusal check_version valid any_match Text-discrete
passes = refl

claimable : IsClaimable register_bob 0 restarted.registry
unfolding restarted find
claimable b e = absurd (cc e)

stored_hello : In hello_message restarted.store.tables.messages
unfolding restarted
stored_hello = inl refl

live : (restarted.conns 0).closed ≡ false
unfolding restarted
live = refl

open_store : restarted.store.closed ≡ false
unfolding restarted
open_store = refl

handshake_redelivers_example :
    let (r, s') = handshake world 0 (frame (some (encode_register register_bob))) restarted in
    (r ≡ some bob) × In (deliver_frame (text "m1") (received hello)) (s'.conns 0).sent
handshake_redelivers_example =
    handshake_redelivers world world-IsQuiet 0 register_bob (some (encode_register register_bob))
      restarted hello_message (received hello) (decode_register-encode register_bob) passes
      claimable live open_store stored_hello refl refl (decode-encode hello)

held : Registry
held = record { name = bob; token = token; conn = 3 } ∷ []

bind_cases_example :
    Binds
      (record { name = bob; token = text "u"; conn = 4 })
      held
      (bind (record { name = bob; token = text "u"; conn = 4 }) held)
bind_cases_example = bind_cases (record { name = bob; token = text "u"; conn = 4 }) held

-- Another token holds the name of bob.
occupied : Server
occupied = record restarted { registry = record { name = bob; token = text "u"; conn = 3 } ∷ [] }

occupied-find :
    find register_bob.name occupied.registry
    ≡ some (record { name = bob; token = text "u"; conn = 3 })
unfolding occupied find Text-discrete
occupied-find = refl

other_token : text "u" ≢ token
other_token e = ground arith

hijack_refused_example :
    ((handshake world 0 (frame (some (encode_register register_bob))) occupied).0 ≡ none)
    × ((handshake world 0 (frame (some (encode_register register_bob))) occupied).1.registry
        ≡ occupied.registry)
hijack_refused_example =
    hijack_refused world 0 (some (encode_register register_bob)) register_bob
      (record { name = bob; token = text "u"; conn = 3 }) occupied
      (decode_register-encode register_bob) occupied-find other_token

bob_admitted :
    (handshake world 0 (frame (some (encode_register register_bob))) restarted).0 ≡ some bob
bob_admitted =
    (handshake_redelivers world world-IsQuiet 0 register_bob (some (encode_register register_bob))
      restarted hello_message (received hello) (decode_register-encode register_bob) passes
      claimable live open_store stored_hello refl refl (decode-encode hello)).0

handshake-Admits_example :
    Admits world 0
      (frame (some (encode_register register_bob)))
      restarted
      bob
      (handshake world 0 (frame (some (encode_register register_bob))) restarted).1
handshake-Admits_example =
    handshake-Admits world 0 (frame (some (encode_register register_bob))) restarted bob
      bob_admitted

-- alice is connected, and known by her name.
talking : Server
talking = (handshake world 1 (frame (some (encode_register register_alice))) restarted).1

route_frame_sender_example :
    Adds
      (IsFrom (talking.conns 1).name)
      talking.store.tables.messages
      (route_frame world 1 (some (encode hello)) talking).store.tables.messages
route_frame_sender_example = route_frame_sender world 1 (some (encode hello)) talking

route_broadcast_copies_example :
    Adds
      (IsCopy alice hello (names talking.registry))
      talking.store.tables.messages
      (route_broadcast world alice hello talking).store.tables.messages
route_broadcast_copies_example = route_broadcast_copies world alice hello talking
