-- ===== src/Examples/OfCommand.antt =====
-- cmd/peerbus at concrete inputs.
use peerbus.Prelude.{◌≡◌, text, same, [], ◌∷◌, none, some, if◌then◌else◌}
use peerbus.Command.Broker.{Machine, cancelled, verify_store, broker_serve}
use peerbus.Command.AdapterRun.{Surroundings, with_modes, clean}
use peerbus.Command.Guards.{Holds, verify_store_code}
use peerbus.Command.Serving.{Serves, broker_serve-Serves}
use peerbus.Fixtures.{driver, blake3, store, token, secret, bob}

-- The file db holds a store, and no other does.
machine : Machine
machine = record {
  open_store = λ path. if same path (text "db") then some store else none;
  driver = driver;
  blake3 = blake3;
  env = record { listen_addr = []; tokens = token; hmac_secret = secret; db_path = [] };
  serves = λ cfg. cancelled;
}

surroundings : Surroundings
surroundings = record {
  url = text "ws://localhost";
  name = bob;
  token = token;
  hmac_secret = secret;
  registry = with_modes (λ cfg. clean) (λ cfg. clean) [];
}

verify_store_code_example :
    ((verify_store machine (text "db")).0 ≡ 0 → Holds machine (text "db") (λ X. X))
    × ((verify_store machine (text "db")).0 ≡ 1 → Holds machine (text "db") (λ X. ¬ X))
verify_store_code_example = verify_store_code machine (text "db")

broker_serve-Serves_example :
    Serves machine
      (text "--db" ∷ text "db" ∷ [])
      (broker_serve machine (text "--db" ∷ text "db" ∷ []))
broker_serve-Serves_example = broker_serve-Serves machine (text "--db" ∷ text "db" ∷ [])
