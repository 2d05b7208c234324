-- ===== src/Command/Broker.antt =====
-- cmd/peerbus/broker.go: the subcommands of the broker, with their exit codes.
use peerbus.Prelude.{
  ℕ, Text, text, same, Bool, false, List, [], ◌∷◌, Option, none, some, if◌then◌else◌,
}
use peerbus.Store.Handle.{Driver, Store, Result, ok, err}
use peerbus.Store.Handle
use peerbus.Audit.{Blake3, Break, verify}
use peerbus.Broker.Config.{Config, Env, load_config}
use peerbus.Broker.Config
use peerbus.Command.Flags.{Formal, Parsed, boolean, valued, parse, value, is_set}

-- How ListenAndServe ends.
pub data Served : Type 0 where
  closed cancelled broken_down : Served

-- The machine that the program runs on: its files, of which some open as a store, what the packages
-- below rely on, the environment, and how a server ends.
pub record Machine : Type 0 where
  pub open_store : Text → Option Store
  pub driver : Driver
  pub blake3 : Blake3
  pub env : Env
  pub serves : Config → Served

pub data BrokerReport : Type 0 where
  bad_flags usage version shut_down serve_failed : BrokerReport
  bad_config : Config.Error → BrokerReport
  no_store : Text → BrokerReport
  verify_failed : Handle.Error → BrokerReport
  chain_broken : Break → BrokerReport
  chain_ok : BrokerReport

abbrev pub default_db_path : Text
default_db_path = text "peerbus.db"

abbrev pub audit_flags : Formal
audit_flags = (text "db", valued) ∷ []

abbrev pub serve_flags : Formal
serve_flags = (text "version", boolean) ∷ (text "db", valued) ∷ []

abbrev pub is_verify : List Text → Bool
is_verify [] = false
is_verify (verb ∷ rest) = same verb (text "verify")

-- The config that the flags give is the base of what is loaded.
abbrev pub base_config : Text → Config
base_config path = record { listen_addr = []; tokens = []; hmac_secret = []; db_path = path }

module _ (m : Machine) where
  verified : Result (Option Break) → ℕ × BrokerReport
  verified (err e) = (2, verify_failed e)
  verified (ok (some b)) = (1, chain_broken b)
  verified (ok none) = (0, chain_ok)

  verify_opened : Text → Option Store → ℕ × BrokerReport
  unfolding verified
  verify_opened path none = (2, no_store path)
  verify_opened path (some st) = verified (verify m.blake3 m.driver st).0

  -- From the path on.
  unfoldable pub verify_store : Text → ℕ × BrokerReport
  unfolding verify_opened
  verify_store path = verify_opened path (m.open_store path)

  unfoldable pub audit_parsed : Parsed → ℕ × BrokerReport
  unfolding verify_store
  audit_parsed none = (2, bad_flags)
  audit_parsed (some (settings, rest)) =
      if is_verify rest
      then verify_store (value (text "db") default_db_path settings)
      else (2, usage)

  unfoldable pub audit_verify : List Text → ℕ × BrokerReport
  unfolding audit_parsed
  audit_verify args = audit_parsed (parse audit_flags args)

  unfoldable pub ended : Served → ℕ × BrokerReport
  ended closed = (0, shut_down)
  ended cancelled = (0, shut_down)
  ended broken_down = (2, serve_failed)

  serve_opened : Config → Option Store → ℕ × BrokerReport
  unfolding ended
  serve_opened cfg none = (2, no_store cfg.db_path)
  serve_opened cfg (some st) = ended (m.serves cfg)

  unfoldable pub serve_loaded : Config.Result → ℕ × BrokerReport
  unfolding serve_opened
  serve_loaded (Config.err e) = (2, bad_config e)
  serve_loaded (Config.ok cfg) = serve_opened cfg (m.open_store cfg.db_path)

  unfoldable pub serve_parsed : Parsed → ℕ × BrokerReport
  unfolding serve_loaded
  serve_parsed none = (2, bad_flags)
  serve_parsed (some (settings, rest)) =
      if is_set (text "version") settings
      then (0, version)
      else serve_loaded
          (load_config (base_config (value (text "db") default_db_path settings)) m.env)

  unfoldable pub broker_serve : List Text → ℕ × BrokerReport
  unfolding serve_parsed
  broker_serve args = serve_parsed (parse serve_flags args)
