-- ===== src/Command.antt =====
-- cmd/peerbus/main.go and internal/version: the program, which picks a subcommand.
pub mod Flags
pub mod Broker
pub mod AdapterRun
pub mod Guards
pub mod Serving
use peerbus.Prelude.{
  ℕ, Text, text, same, Bool, true, false, ◌||◌, List, [], ◌∷◌, ◌++◌, if◌then◌else◌,
}
use Broker.{Machine, BrokerReport, audit_verify, broker_serve}
use AdapterRun.{Surroundings, AdapterReport, adapter_run}

-- version.Version may be set when the program is built.
unfoldable pub version_string : Text → Text
version_string version = text "peerbus " ++ version

-- What a run of the program comes to, beside its exit code.
pub data Report : Type 0 where
  printed : Text → Report
  usage no_command : Report
  unknown_command : Text → Report
  of_broker : BrokerReport → Report
  of_adapter : AdapterReport → Report

abbrev pub is_version : Text → Bool
is_version a = same a (text "--version") || same a (text "-version")

abbrev pub is_help : Text → Bool
is_help a = same a (text "help") || same a (text "-h") || same a (text "--help")

module _ (version : Text) (m : Machine) (h : Surroundings) where
  unfoldable pub subcommand : Text → List Text → ℕ × Report
  subcommand name args =
      if same name (text "serve")
      then (let (code, r) = broker_serve m args in (code, of_broker r))
      else if same name (text "audit")
      then (let (code, r) = audit_verify m args in (code, of_broker r))
      else if same name (text "adapter")
      then (let (code, r) = adapter_run h args in (code, of_adapter r))
      else (2, unknown_command name)

  unfoldable pub dispatch : List Text → ℕ × Report
  unfolding subcommand
  dispatch [] = (2, no_command)
  dispatch (a ∷ args) =
      if is_version a
      then (0, printed (version_string version))
      else if is_help a
      then (0, usage)
      else subcommand a args
