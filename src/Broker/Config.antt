-- ===== src/Broker/Config.antt =====
-- internal/broker/config.go: the configuration, from a struct and the environment.
use peerbus.Prelude.{
  ◌≤◌, ◌≡◌, ◌≢◌, Text, text, is_empty, false, List, [], ◌∷◌, ◌++◌, map, arith, refl, sym, ap, ◌∙◌,
  All, length, ltb, ◌==◌, if◌then◌else◌,
}
use peerbus.Prelude.Strings.{split, is_space, trim_left, trim_right, trim_space}
use peerbus.Hmac.{min_secret_len}

pub record Config : Type 0 where
  pub listen_addr : Text
  pub tokens : List Text
  pub hmac_secret : Text
  pub db_path : Text

-- The variables of the environment; one that is not set is empty, as os.Getenv has it.
pub record Env : Type 0 where
  pub listen_addr : Text
  pub tokens : Text
  pub hmac_secret : Text
  pub db_path : Text

pub data Error : Type 0 where
  no_token short_secret : Error

pub data Result : Type 0 where
  ok : Config → Result
  err : Error → Result

abbrev pub default_listen_addr : Text
default_listen_addr = text "127.0.0.1:47821"

unfoldable pub nonempty : List Text → List Text
nonempty [] = []
nonempty (t ∷ ts) = let rest = nonempty ts in if is_empty t then rest else t ∷ rest

unfoldable pub parse_tokens : Text → List Text
parse_tokens s = nonempty (map trim_space (split s))

-- A variable that is set overrides the field.
abbrev pub override : Text → Text → Text
override [] old = old
override (c ∷ v) old = c ∷ v

unfoldable pub effective : Config → Env → Config
effective base env = record {
  listen_addr = override (override env.listen_addr base.listen_addr) default_listen_addr;
  tokens = if is_empty env.tokens then base.tokens else parse_tokens env.tokens;
  hmac_secret = override env.hmac_secret base.hmac_secret;
  db_path = override (override env.db_path base.db_path) (text "peerbus.db");
}

-- The errors, in the order of the code.
unfoldable pub checked : Config → Result
checked cfg =
    if length cfg.tokens == 0
    then err no_token
    else if ltb (length cfg.hmac_secret) min_secret_len
    then err short_secret
    else ok cfg

unfoldable pub load_config : Config → Env → Result
load_config base env = checked (effective base env)

-- A configuration under which the broker may start.
pub record IsUsable (cfg : Config) : Type 0 where
  pub tokens : cfg.tokens ≢ []
  pub secret : 32 ≤ length cfg.hmac_secret
  pub listen_addr : cfg.listen_addr ≢ []
  pub db_path : cfg.db_path ≢ []

override_default : (v d : Text) → d ≢ [] → override v d ≢ []
override_default [] d n = n
override_default (c ∷ v) d n = λ e. absurd (ground arith)

checked-eq :
    (c cfg : Config)
    → checked c ≡ ok cfg
    → (cfg ≡ c) × (length cfg.tokens ≢ 0) × (32 ≤ length cfg.hmac_secret)
unfolding checked
checked-eq c cfg e = (ground arith, some_token, ground arith)
  where
    some_token : length cfg.tokens ≢ 0
    some_token z = ground arith

effective-addr : (base : Config) (env : Env) → (effective base env).listen_addr ≢ []
unfolding effective
effective-addr base env =
    override_default (override env.listen_addr base.listen_addr) default_listen_addr
      (λ e. absurd (cc e))

effective-path : (base : Config) (env : Env) → (effective base env).db_path ≢ []
unfolding effective
effective-path base env =
    override_default (override env.db_path base.db_path) (text "peerbus.db") (λ e. absurd (cc e))

-- What is loaded without an error is the effective configuration, and has a token, a secret of at
-- least 32 bytes, an address and a path.
pub load_config-IsUsable :
    (base cfg : Config) (env : Env)
    → load_config base env ≡ ok cfg
    → (cfg ≡ effective base env) × IsUsable cfg
unfolding load_config
load_config-IsUsable base cfg env e =
    let (q, some_token, long) = checked-eq (effective base env) cfg e in
    (
      q,
      record {
        tokens = λ z. some_token (ap (λ (ts : List Text). length ts) z);
        secret = long;
        listen_addr = λ z. effective-addr base env (ap (λ (x : Config). x.listen_addr) (sym q) ∙ z);
        db_path = λ z. effective-path base env (ap (λ (x : Config). x.db_path) (sym q) ∙ z);
      },
    )

-- A token that survives the list: not empty, without a comma and without white space.
abbrev pub IsToken : Text → Type 0
IsToken t = (t ≢ []) × All (λ c. (is_space c ≡ false) × ((c == 44) ≡ false)) t

unfoldable pub join : List Text → Text
join [] = []
join (t ∷ []) = t
join (t ∷ u ∷ ts) = t ++ (44 ∷ join (u ∷ ts))

Plain : Text → Type 0
Plain t = All (λ c. (is_space c ≡ false) × ((c == 44) ≡ false)) t

split-one : (t : Text) → Plain t → split t ≡ t ∷ []
unfolding split Plain
split-one [] h = refl
split-one (c ∷ t) h = ground (arith, split-one t h.1)

split-append : (t s : Text) → Plain t → split (t ++ (44 ∷ s)) ≡ t ∷ split s
unfolding split Plain
split-append [] s h = refl
split-append (c ∷ t) s h = ground (arith, split-append t s h.1)

trim_left-id : (t : Text) → Plain t → trim_left is_space t ≡ t
unfolding trim_left Plain
trim_left-id [] h = refl
trim_left-id (c ∷ t) h = ground arith

trim_right-id : (t : Text) → Plain t → trim_right is_space t ≡ t
unfolding trim_right Plain
trim_right-id [] h = refl
trim_right-id (c ∷ t) h = ground (arith, trim_right-id t h.1)

trim_space-id : (t : Text) → Plain t → trim_space t ≡ t
unfolding trim_space
trim_space-id t h = ap (trim_right is_space) (trim_left-id t h) ∙ trim_right-id t h

cleaned :
    (t : Text) (ts us : List Text)
    → IsToken t
    → nonempty (map trim_space us) ≡ ts
    → nonempty (map trim_space (t ∷ us)) ≡ t ∷ ts
unfolding nonempty Plain
cleaned [] ts us h e = absurd (h.0 refl)
cleaned (c ∷ t) ts us h e = rw (trim_space-id (c ∷ t) h.1) (ap (λ x. (c ∷ t) ∷ x) e)

-- A list of tokens without commas and white space, joined by commas, is read back as it was.
pub parse_tokens-join :
    (t : Text) (ts : List Text) → IsToken t → All IsToken ts → parse_tokens (join (t ∷ ts)) ≡ t ∷ ts
unfolding parse_tokens join Plain
parse_tokens-join t [] h hs =
    ap (λ x. nonempty (map trim_space x)) (split-one t h.1)
    ∙ cleaned t [] [] h (unfold nonempty in refl)
parse_tokens-join t (u ∷ ts) h hs =
    ap (λ x. nonempty (map trim_space x)) (split-append t (join (u ∷ ts)) h.1)
    ∙ cleaned t (u ∷ ts) (split (join (u ∷ ts))) h (parse_tokens-join u ts hs.0 hs.1)
