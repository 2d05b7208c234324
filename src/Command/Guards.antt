-- ===== src/Command/Guards.antt =====
-- cmd/peerbus: what holds where a subcommand comes to its work, and what its exit code says.
use mathlib.Core.Path.{subst, ap₂}
use peerbus.Prelude.{
  ℕ, ◌≡◌, ◌≤◌, ◌⊎◌, inl, inr, Text, text, same, same_refl, Text-discrete, is_empty, true, false,
  ◌&&◌, List, [], ◌∷◌, Option, none, some, length, ltb, arith, refl, ap, ◌∙◌, Bool-cases,
  Option-cases, In,
}
use peerbus.Prelude.Strings.{cut}
use peerbus.Store.Handle
use peerbus.Store.Handle.{Store, Result, ok, err}
use peerbus.Store.Schema.{by_seq}
use peerbus.Audit.{genesis_prev_hash, verify}
use peerbus.Audit.Chain.{Chained, verify_exact}
use peerbus.Hmac.{min_secret_len}
use peerbus.Adapter.Mode.{
  Resolved, constructor, unknown, resolve, modes, resolve_exact, resolve-unknown,
}
use peerbus.Command.Flags.{Settings, parse, parse-stop, step, stop, want, value, is_set}
use peerbus.Command.Broker.{
  Machine, BrokerReport, default_db_path, audit_flags, verify_store, audit_parsed, audit_verify,
}
use peerbus.Command.AdapterRun.{
  Ran, clean, broken, interrupted, version, not_constructed, bad_flags, missing_mode, missing_url,
  missing_token, short_secret, missing_name, unknown_mode, run_code, ClientConfig, adapter_flags,
  Surroundings, AdapterReport, Constructor, ran, run_mode, run_resolved, adapter_parsed,
  adapter_run, env_client_config,
}
use peerbus.Command.{dispatch, subcommand, of_broker}

-- The table of the store at the path is a chain from genesis, or is not.
abbrev pub Holds : Machine → Text → (Type 0 → Type 0) → Type 0
Holds m path f =
    (st : Store) × (m.open_store path ≡ some st)
    × f (Chained m.blake3 0 (genesis_prev_hash m.blake3) (by_seq st.tables.audit))

Result-cases :
    {A : Type 0} (r : Result A) → ((e : Handle.Error) × (r ≡ err e)) ⊎ ((a : A) × (r ≡ ok a))
Result-cases (err e) = inl (e, refl)
Result-cases (ok a) = inr (a, refl)

module _ (m : Machine) (path : Text) where
  -- If the code of `audit verify` on a path is 0, the store there is a chain from genesis; if it is 1,
  -- it is none.
  pub verify_store_code :
      ((verify_store m path).0 ≡ 0 → Holds m path (λ X. X))
      × ((verify_store m path).0 ≡ 1 → Holds m path (λ X. ¬ X))
  unfolding verify_store
  verify_store_code = elim (Option-cases (m.open_store path)) [
    | inl e ↦ rw (e, verify_store) (λ c. ground arith, λ c. ground arith)
    | inr (st, e) ↦ elim (Result-cases (verify m.blake3 m.driver st).0) [
      | inl (x, f) ↦ rw (e, f, verify_store) (λ c. ground arith, λ c. ground arith)
      | inr (none, f) ↦
          rw (e, f, verify_store)
            (λ c. (st, refl, (verify_exact m.blake3 m.driver st none f).0 refl), λ c. ground arith)
      | inr (some b, f) ↦
          let x = verify_exact m.blake3 m.driver st (some b) f in
          rw (e, f, verify_store) (λ c. ground arith, λ c. (st, refl, λ k. ground (arith, x.1 k)))
    ]
  ]

step-verify : step audit_flags (text "verify") ≡ stop
unfolding step
step-verify = refl

step-db : step audit_flags (text "--db") ≡ want (text "db")
unfolding step cut Text-discrete
step-db = refl

parse-db :
    (path : Text) (args : List Text)
    → parse audit_flags (text "--db" ∷ path ∷ text "verify" ∷ args)
      ≡ some ((text "db", path) ∷ [], text "verify" ∷ args)
unfolding parse
parse-db path args =
    rw (step-db, parse-stop audit_flags (text "verify") args step-verify, parse) refl

audit_parsed-verify :
    (m : Machine) (settings : Settings) (args : List Text)
    → audit_parsed m (some (settings, text "verify" ∷ args))
      ≡ verify_store m (value (text "db") default_db_path settings)
unfolding audit_parsed Text-discrete
audit_parsed-verify m settings args = refl

module _ (m : Machine) (tag : Text) (h : Surroundings) where
  dispatch-audit :
      (args : List Text)
      → dispatch tag m h (text "audit" ∷ args)
        ≡ (let (code, r) = audit_verify m args in (code, of_broker r))
  unfolding dispatch subcommand Text-discrete
  dispatch-audit args = refl

  audit_verify-parse :
      (args rest : List Text) (settings : Settings)
      → parse audit_flags args ≡ some (settings, text "verify" ∷ rest)
      → dispatch tag m h (text "audit" ∷ args) ≡ (
          let (code, r) = verify_store m (value (text "db") default_db_path settings) in
          (code, of_broker r))
  unfolding audit_verify
  audit_verify-parse args rest settings e =
      dispatch-audit args
      ∙ ap (λ (o : ℕ × BrokerReport). (o.0, of_broker o.1))
          (ap (audit_parsed m) e ∙ audit_parsed-verify m settings rest)

  -- What the commands do with `--db`, not what the usage says of it: the path of the store is read from `--db` in front of the verb; behind the verb no argument has
  -- any effect, and the default path is verified.
  dispatch-audit_db :
      (path : Text) (args : List Text)
      → (dispatch tag m h (text "audit" ∷ text "--db" ∷ path ∷ text "verify" ∷ args)
          ≡ (let (code, r) = verify_store m path in (code, of_broker r)))
        × (dispatch tag m h (text "audit" ∷ text "verify" ∷ args)
            ≡ (let (code, r) = verify_store m default_db_path in (code, of_broker r)))
  unfolding value Text-discrete
  dispatch-audit_db path args = (
    audit_verify-parse (text "--db" ∷ path ∷ text "verify" ∷ args) args _ (parse-db path args),
    audit_verify-parse (text "verify" ∷ args) args []
        (parse-stop audit_flags (text "verify") args step-verify),
  )

-- What the adapter subcommand has checked when it runs a mode.
pub record Admitted (h : Surroundings) (mode : Text) (cfg : ClientConfig) : Type 0 where
  pub from_env : cfg ≡ env_client_config h
  pub known : In mode (modes h.registry)
  pub url : is_empty cfg.url ≡ false
  pub token : is_empty cfg.token ≡ false
  pub secret : 32 ≤ length cfg.hmac_secret
  pub named : mode ≡ text "generic" → is_empty cfg.name ≡ false

-- The exit code for what a run comes to, and what was checked before a mode ran.
abbrev pub Exits : Surroundings → ℕ × AdapterReport → Type 0
Exits h (code, version) = code ≡ 0
Exits h (code, ran mode cfg broken) = (code ≡ 1) × Admitted h mode cfg
Exits h (code, ran mode cfg clean) = (code ≡ 0) × Admitted h mode cfg
Exits h (code, ran mode cfg interrupted) = (code ≡ 0) × Admitted h mode cfg
Exits h (code, not_constructed mode) = code ≡ 1
Exits h (code, bad_flags) = code ≡ 2
Exits h (code, missing_mode) = code ≡ 2
Exits h (code, missing_url) = code ≡ 2
Exits h (code, missing_token) = code ≡ 2
Exits h (code, short_secret) = code ≡ 2
Exits h (code, missing_name) = code ≡ 2
Exits h (code, unknown_mode name known) = (code ≡ 2) × ¬ In name (modes h.registry)

generic-named :
    (mode name : Text)
    → (same mode (text "generic") && is_empty name) ≡ false
    → mode ≡ text "generic"
    → is_empty name ≡ false
generic-named mode name h e =
    let g : same mode (text "generic") ≡ true =
      ap (λ x. same x (text "generic")) e ∙ same_refl (text "generic") in
    elim (Bool-cases (is_empty name)) [
      | inl n ↦
          let t : (same mode (text "generic") && is_empty name) ≡ true = ap₂ (λ a b. a && b) g n in
          absurd (cc (t, h))
      | inr n ↦ n
    ]

module _ (h : Surroundings) (mode : Text) where
  run_code-Exits :
      (o : Option Ran)
      → Admitted h mode (env_client_config h)
      → Exits h (run_code mode (env_client_config h) o)
  unfolding run_code
  run_code-Exits none a = refl
  run_code-Exits (some clean) a = (refl, a)
  run_code-Exits (some broken) a = (refl, a)
  run_code-Exits (some interrupted) a = (refl, a)

  run_mode-Exits :
      (ctor : Constructor)
      → In mode (modes h.registry)
      → Exits h (run_mode mode ctor (env_client_config h))
  unfolding run_mode env_client_config
  run_mode-Exits ctor i = elim (Bool-cases (is_empty h.url)) [
    | inl u ↦ rw (u, run_mode) refl
    | inr u ↦ elim (Bool-cases (is_empty h.token)) [
      | inl t ↦ rw (u, t, run_mode) refl
      | inr t ↦ elim (Bool-cases (ltb (length h.hmac_secret) min_secret_len)) [
        | inl s ↦ rw (u, t, s, run_mode) refl
        | inr s ↦ elim (Bool-cases (same mode (text "generic") && is_empty h.name)) [
          | inl n ↦ rw (u, t, s, n, run_mode) refl
          | inr n ↦
              rw (u, t, s, n, run_mode)
                (run_code-Exits (ctor (env_client_config h)) (record {
                  from_env = refl;
                  known = i;
                  url = u;
                  token = t;
                  secret = ground arith;
                  named = generic-named mode h.name n;
                }))
        ]
      ]
    ]
  ]

  run_resolved-Exits :
      (o : Resolved Constructor)
      → resolve mode h.registry ≡ o
      → Exits h (run_resolved mode o (env_client_config h))
  unfolding run_resolved
  run_resolved-Exits (constructor ctor) e =
      run_mode-Exits ctor ((resolve_exact mode h.registry).0 (ctor, e))
  run_resolved-Exits (unknown name known) e = (
    refl,
    λ i.
        let (p, n) = resolve-unknown mode h.registry name known e in
        n (subst (λ x. In x (modes h.registry)) p i),
  )

module _ (h : Surroundings) where
  -- The adapter subcommand exits with 2 unless it prints the version or calls the constructor of a mode,
  -- and then with 1 exactly if that or the run fails without a signal; the mode is a registered one,
  -- on the configuration of the environment, with a URL, a token, a secret of at least 32 bytes, and
  -- for `generic` a name.
  pub adapter_run-Exits : (args : List Text) → Exits h (adapter_run h args)
  unfolding adapter_run adapter_parsed
  adapter_run-Exits args = elim (Option-cases (parse adapter_flags args)) [
    | inl e ↦ rw (e, adapter_run) refl
    | inr ((settings, rest), e) ↦
        let mode = value (text "adapter") [] settings in
        elim (Bool-cases (is_set (text "version") settings)) [
          | inl v ↦ rw (e, v, adapter_run) refl
          | inr v ↦ elim (Bool-cases (is_empty mode)) [
            | inl n ↦ rw (e, v, n, adapter_run) refl
            | inr n ↦
                rw (e, v, n, adapter_run) (run_resolved-Exits h mode (resolve mode h.registry) refl)
          ]
        ]
  ]
