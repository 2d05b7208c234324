-- ===== src/Examples/OfConfig.antt =====
-- internal/broker/config.go at concrete inputs.
use peerbus.Prelude.{◌≡◌, refl, text, []}
use peerbus.Prelude.Strings.{split, trim_space, trim_left, trim_right}
use peerbus.Broker.Config.{
  Config, Env, IsUsable, ok, load_config, effective, checked, parse_tokens, nonempty,
  load_config-IsUsable,
}
use peerbus.Fixtures.{secret}

base : Config
base = record { listen_addr = []; tokens = []; hmac_secret = secret; db_path = text "bus.db" }

env : Env
env = record { listen_addr = []; tokens = text "a, b,"; hmac_secret = []; db_path = [] }

loads : load_config base env ≡ ok (effective base env)
unfolding base env load_config effective checked parse_tokens split trim_space trim_left trim_right
    nonempty
loads = refl

load_config-IsUsable_example :
    (effective base env ≡ effective base env) × IsUsable (effective base env)
load_config-IsUsable_example = load_config-IsUsable base (effective base env) env loads
