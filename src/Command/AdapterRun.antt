-- ===== src/Command/AdapterRun.antt =====
-- cmd/peerbus/adapter.go: the adapter subcommand, its guards, and the run of a mode.
use peerbus.Prelude.{
  ℕ, Text, text, same, is_empty, ◌&&◌, List, [], ◌∷◌, Option, none, some, length, ltb,
  if◌then◌else◌,
}
use peerbus.Hmac.{min_secret_len}
use peerbus.Adapter.Mode.{Resolved, constructor, unknown, resolve, register}
use peerbus.Command.Flags.{Formal, Parsed, boolean, valued, parse, value, is_set}

-- adapter.ClientConfig
pub record ClientConfig : Type 0 where
  pub url : Text
  pub name : Text
  pub token : Text
  pub hmac_secret : Text

-- How the Run of a mode ends: without an error, with one, or with one after a signal.
pub data Ran : Type 0 where
  clean broken interrupted : Ran

-- A constructor gives the Run of its mode, or an error.
abbrev pub Constructor : Type 0
Constructor = ClientConfig → Option Ran

pub record Surroundings : Type 0 where
  pub url : Text
  pub name : Text
  pub token : Text
  pub hmac_secret : Text
  pub registry : List (Text × Constructor)

pub data AdapterReport : Type 0 where
  bad_flags version missing_mode missing_url missing_token short_secret missing_name : AdapterReport
  unknown_mode : Text → List Text → AdapterReport
  not_constructed : Text → AdapterReport
  ran : Text → ClientConfig → Ran → AdapterReport

abbrev pub adapter_flags : Formal
adapter_flags = (text "adapter", valued) ∷ (text "version", boolean) ∷ []

-- The inits of generic.go and cc.go, of which neither constructor fails.
unfoldable pub with_modes :
    (generic cc_ : ClientConfig → Ran) → List (Text × Constructor) → List (Text × Constructor)
with_modes generic cc_ reg =
    register (text "generic") (λ cfg. some (generic cfg))
      (register (text "cc") (λ cfg. some (cc_ cfg)) reg)

unfoldable pub env_client_config : Surroundings → ClientConfig
env_client_config h = record {
  url = h.url;
  name = h.name;
  token = h.token;
  hmac_secret = h.hmac_secret;
}

unfoldable pub run_code : Text → ClientConfig → Option Ran → ℕ × AdapterReport
run_code mode cfg none = (1, not_constructed mode)
run_code mode cfg (some broken) = (1, ran mode cfg broken)
run_code mode cfg (some clean) = (0, ran mode cfg clean)
run_code mode cfg (some interrupted) = (0, ran mode cfg interrupted)

-- The guards on the configuration, then the mode.
unfoldable pub run_mode : Text → Constructor → ClientConfig → ℕ × AdapterReport
unfolding run_code
run_mode mode ctor cfg =
    if is_empty cfg.url
    then (2, missing_url)
    else if is_empty cfg.token
    then (2, missing_token)
    else if ltb (length cfg.hmac_secret) min_secret_len
    then (2, short_secret)
    else if same mode (text "generic") && is_empty cfg.name
    then (2, missing_name)
    else run_code mode cfg (ctor cfg)

unfoldable pub run_resolved : Text → Resolved Constructor → ClientConfig → ℕ × AdapterReport
unfolding run_mode
run_resolved mode (unknown name known) cfg = (2, unknown_mode name known)
run_resolved mode (constructor ctor) cfg = run_mode mode ctor cfg

module _ (h : Surroundings) where
  unfoldable pub adapter_parsed : Parsed → ℕ × AdapterReport
  unfolding run_resolved
  adapter_parsed none = (2, bad_flags)
  adapter_parsed (some (settings, rest)) =
      let mode = value (text "adapter") [] settings in
      if is_set (text "version") settings
      then (0, version)
      else if is_empty mode
      then (2, missing_mode)
      else run_resolved mode (resolve mode h.registry) (env_client_config h)

  unfoldable pub adapter_run : List Text → ℕ × AdapterReport
  unfolding adapter_parsed
  adapter_run args = adapter_parsed (parse adapter_flags args)
