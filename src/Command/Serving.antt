-- ===== src/Command/Serving.antt =====
-- cmd/peerbus/broker.go: what the broker has when it starts to serve.
use peerbus.Prelude.{
  ℕ, ◌≡◌, ◌≢◌, inl, inr, Text, text, List, none, some, arith, refl, true, false, Bool-cases,
  Option-cases,
}
use peerbus.Store.Handle.{Store}
use peerbus.Broker.Config.{Config, Env, load_config, IsUsable, load_config-IsUsable}
use peerbus.Broker.Config
use peerbus.Command.Flags.{parse, value, is_set}
use peerbus.Command.Broker.{
  Machine, BrokerReport, Served, closed, cancelled, broken_down, bad_flags, usage, version,
  shut_down, serve_failed, bad_config, no_store, verify_failed, chain_broken, chain_ok,
  default_db_path, base_config, serve_flags, serve_loaded, serve_parsed, broker_serve, ended,
}

module _ (m : Machine) where
  -- The flags are fine and do not ask for the version, and the configuration is loaded so.
  abbrev pub Loads : List Text → Config.Result → Type 0
  Loads args r =
      (settings : List (Text × Text)) × (rest : List Text) × (parse serve_flags args
        ≡ some (settings, rest))
      × (is_set (text "version") settings ≡ false)
      × (load_config (base_config (value (text "db") default_db_path settings)) m.env ≡ r)

  -- The configuration that is loaded is usable, and its store opens.
  abbrev pub Starts : List Text → (Config → Type 0) → Type 0
  Starts args P =
      (cfg : Config) × Loads args (Config.ok cfg)
      × IsUsable cfg
      × ((st : Store) × (m.open_store cfg.db_path ≡ some st))
      × P cfg

  -- The exit code for what `serve` comes to, and why it came to that.
  abbrev pub Serves : List Text → ℕ × BrokerReport → Type 0
  Serves args (code, version) =
      (code ≡ 0)
      × ((settings : List (Text × Text)) × (rest : List Text) × (parse serve_flags args
            ≡ some (settings, rest))
          × (is_set (text "version") settings ≡ true))
  Serves args (code, shut_down) = (code ≡ 0) × Starts args (λ cfg. m.serves cfg ≢ broken_down)
  Serves args (code, serve_failed) = (code ≡ 2) × Starts args (λ cfg. m.serves cfg ≡ broken_down)
  Serves args (code, bad_flags) = (code ≡ 2) × (parse serve_flags args ≡ none)
  Serves args (code, bad_config e) = (code ≡ 2) × Loads args (Config.err e)
  Serves args (code, no_store path) =
      (code ≡ 2)
      × ((cfg : Config) × Loads args (Config.ok cfg)
          × (cfg.db_path ≡ path)
          × (m.open_store path ≡ none))
  Serves args (code, usage) = ⊥
  Serves args (code, verify_failed e) = ⊥
  Serves args (code, chain_broken b) = ⊥
  Serves args (code, chain_ok) = ⊥

  ended-Serves :
      (args : List Text) (cfg : Config) (st : Store) (e : Served)
      → Loads args (Config.ok cfg)
      → IsUsable cfg
      → m.open_store cfg.db_path ≡ some st
      → m.serves cfg ≡ e
      → Serves args (ended m e)
  unfolding ended
  ended-Serves args cfg st closed l u o e = (refl, (cfg, l, u, (st, o), λ x. ground arith))
  ended-Serves args cfg st cancelled l u o e = (refl, (cfg, l, u, (st, o), λ x. ground arith))
  ended-Serves args cfg st broken_down l u o e = (refl, (cfg, l, u, (st, o), e))

  serve_loaded-Serves :
      (args : List Text) (base : Config) (r : Config.Result)
      → load_config base m.env ≡ r
      → Loads args r
      → Serves args (serve_loaded m r)
  unfolding serve_loaded
  serve_loaded-Serves args base (Config.err x) e l = (refl, l)
  serve_loaded-Serves args base (Config.ok cfg) q l =
      elim (Option-cases (m.open_store cfg.db_path)) [
        | inl e ↦ rw (e, serve_loaded) (refl, (cfg, l, refl, e))
        | inr (st, e) ↦
            rw (e, serve_loaded)
              (ended-Serves args cfg st (m.serves cfg) l (load_config-IsUsable base cfg m.env q).1 e
                refl)
      ]

  -- The `serve` subcommand exits with 0 where it was asked for the version, or where the server ran,
  -- on a usable configuration whose store opened, and ended cleanly or by a signal. It exits with 2
  -- where that server failed, and where the flags do not parse, the configuration is refused, or its
  -- store does not open.
  pub broker_serve-Serves : (args : List Text) → Serves args (broker_serve m args)
  unfolding broker_serve serve_parsed
  broker_serve-Serves args = elim (Option-cases (parse serve_flags args)) [
    | inl e ↦ rw (e, broker_serve) (refl, e)
    | inr ((settings, rest), e) ↦
        let base = base_config (value (text "db") default_db_path settings) in
        elim (Bool-cases (is_set (text "version") settings)) [
          | inl v ↦ rw (e, v, broker_serve) (refl, (settings, rest, e, v))
          | inr v ↦
              rw (e, v, broker_serve)
                (serve_loaded-Serves args base (load_config base m.env) refl
                  (settings, rest, e, v, refl))
        ]
  ]
