-- ===== src/Config.antt =====
-- ol1n-vault/internal/config/config.go: `Load`. The environment is a function of a variable's name, and
-- the numbers of `ParseFloat` are a parameter.
pub mod Environment
pub mod Required
pub mod Concurrency
use ol1n_super_app.Base.{
  ℕ, ◌+◌, ◌-◌, ◌*◌, ◌^◌, ◌≡◌, refl, Bool, true, false, ◌||◌, ◌&&◌, Option, none, some, List, [],
  ◌∷◌, ◌++◌, ltb, leb, ◌==◌, if◌then◌else◌, Bytes, codes, same, map,
}
use ol1n_super_app.Base.Ints.{ℤ, pos, negsuc, int64}
use ol1n_super_app.Go.Strings.{is_nil}
use ol1n_super_app.Go.Numbers.{Scan, number, bad_syntax, out_of_range, scan}

-- `os.LookupEnv`
abbrev pub Env : Type 0
Env = Bytes → Option Bytes

-- What each of the four readers first asks: is the variable set, and not empty?
unfoldable pub lookup : Env → Bytes → Option Bytes
lookup env key = elim (env key) [ none ↦ none | some v ↦ if is_nil v then none else some v ]

abbrev pub or_else {ℓ} : {A : Type ℓ} → A → Option A → A
or_else fallback none = fallback
or_else fallback (some v) = v

abbrev pub then_read {ℓ} : {A : Type ℓ} → (Bytes → Option A) → Option Bytes → Option A
then_read read none = none
then_read read (some v) = read v

-- `strconv.Atoi`
abbrev pub negated : ℕ → ℤ
negated n = if n == 0 then pos 0 else negsuc (n - 1)

abbrev pub atoi_value : Bool → Scan → Option ℤ
atoi_value negative bad_syntax = none
atoi_value negative out_of_range = none
atoi_value true (number n) = if leb n (2 ^ 63) then some (negated n) else none
atoi_value false (number n) = if ltb n (2 ^ 63) then some (pos n) else none

unfoldable pub atoi_digits : Bool → Bytes → Option ℤ
atoi_digits negative [] = none
atoi_digits negative (c ∷ cs) = atoi_value negative (scan 10 (2 ^ 64 - 1) (c ∷ cs) 0)

unfoldable pub atoi : Bytes → Option ℤ
unfolding atoi_digits scan
atoi [] = none
atoi (c ∷ cs) =
    if c == b'-'
    then atoi_digits true cs
    else if c == b'+'
    then atoi_digits false cs
    else atoi_digits false (c ∷ cs)

-- `strings.ToLower`: no letter outside ASCII has one of the letters of the eight words as its small one.
abbrev to_lower_byte : ℕ → ℕ
to_lower_byte c = if leb b'A' c && leb c b'Z' then c + 32 else c

abbrev to_lower : Bytes → Bytes
to_lower s = map to_lower_byte s

unfoldable pub bool_word : Bytes → Option Bool
unfolding same
bool_word s =
    if same s (codes "true") || same s (codes "1") || same s (codes "yes") || same s (codes "on")
    then some true
    else if same s (codes "false")
        || same s (codes "0")
        || same s (codes "no")
        || same s (codes "off")
    then some false
    else none

unfoldable pub env_str : Env → Bytes → Bytes → Bytes
unfolding lookup
env_str env key fallback = or_else fallback (lookup env key)

unfoldable pub env_int : Env → Bytes → ℤ → ℤ
unfolding lookup atoi
env_int env key fallback = or_else fallback (then_read atoi (lookup env key))

unfoldable pub env_bool : Env → Bytes → Bool → Bool
unfolding lookup bool_word
env_bool env key fallback =
    or_else fallback (then_read (λ v. bool_word (to_lower v)) (lookup env key))

-- `time.Duration(n) * time.Hour`, in nanoseconds.
abbrev pub hour : ℕ
hour = 3600000000000

abbrev scaled : ℤ → ℤ
scaled (pos n) = pos (n * hour)
scaled (negsuc n) = negsuc ((n + 1) * hour - 1)

unfoldable pub hours : ℤ → ℤ
unfolding int64
hours n = int64 (scaled n)

pub record VaultConfig : Type 0 where
  pub port : ℤ
  pub public_base_url : Bytes
  pub db_path : Bytes
  pub nzb_dir : Bytes
  pub files_dir : Bytes
  pub tmp_dir : Bytes
  pub files_ttl : ℤ
  pub api_key : Bytes

pub record NntpConfig : Type 0 where
  pub host : Bytes
  pub port : ℤ
  pub tls : Bool
  pub user : Bytes
  pub pass : Bytes
  pub connections : ℤ
  pub newsgroup : Bytes

module _ {ℓ} {F : Type ℓ} where
  unfoldable pub env_float : (Bytes → Option F) → Env → Bytes → F → F
  unfolding lookup
  env_float parse_float env key fallback = or_else fallback (then_read parse_float (lookup env key))

pub record NowPaymentsConfig {ℓ} (F : Type ℓ) : Type ℓ where
  pub api_key : Bytes
  pub ipn_secret : Bytes
  pub api_base : Bytes
  pub success_url : Bytes
  pub cancel_url : Bytes
  pub price_usd : F

pub record PolygonConfig : Type 0 where
  pub rpc_url : Bytes
  pub private_key : Bytes

pub record Config {ℓ} (F : Type ℓ) : Type ℓ where
  pub vault : VaultConfig
  pub nntp : NntpConfig
  pub now_payments : NowPaymentsConfig F
  pub polygon : PolygonConfig

unfoldable pub vault_config : Env → VaultConfig
unfolding env_str env_int hours
vault_config env = record {
  port = env_int env (codes "VAULT_PORT") (pos 8090);
  public_base_url = env_str env (codes "VAULT_PUBLIC_BASE_URL") (codes "https://super.ol1n.com");
  db_path = env_str env (codes "VAULT_DB_PATH") (codes "/data/vault/vault.db");
  nzb_dir = env_str env (codes "VAULT_NZB_DIR") (codes "/data/vault/nzb");
  files_dir = env_str env (codes "VAULT_FILES_DIR") (codes "/data/vault/files");
  tmp_dir = env_str env (codes "VAULT_TMP_DIR") (codes "/data/vault/tmp");
  files_ttl = hours (env_int env (codes "VAULT_FILES_TTL_HOURS") (pos 24));
  api_key = env_str env (codes "VAULT_API_KEY") [];
}

unfoldable pub nntp_config : Env → NntpConfig
unfolding env_str env_int env_bool
nntp_config env = record {
  host = env_str env (codes "NNTP_HOST") [];
  port = env_int env (codes "NNTP_PORT") (pos 563);
  tls = env_bool env (codes "NNTP_TLS") true;
  user = env_str env (codes "NNTP_USER") [];
  pass = env_str env (codes "NNTP_PASS") [];
  connections = env_int env (codes "NNTP_CONNECTIONS") (pos 8);
  newsgroup = env_str env (codes "NNTP_NEWSGROUP") (codes "alt.binaries.test");
}

unfoldable pub polygon_config : Env → PolygonConfig
unfolding env_str
polygon_config env = record {
  rpc_url = env_str env (codes "POLYGON_RPC_URL") [];
  private_key = env_str env (codes "POLYGON_PRIVATE_KEY") [];
}

abbrev pub missing_if : Bool → Bytes → List Bytes → List Bytes
missing_if true name rest = name ∷ rest
missing_if false name rest = rest

-- `if err := cfg.Validate(); err != nil`
pub data Loaded {ℓ} (F : Type ℓ) : Type ℓ where
  loaded : Config F → Loaded F
  missing : List Bytes → Loaded F

module _ {ℓ} {F : Type ℓ} where
  unfoldable pub now_payments_config : (Bytes → Option F) → F → Env → NowPaymentsConfig F
  unfolding env_str env_float
  now_payments_config parse_float default_price env = record {
    api_key = env_str env (codes "NOWPAYMENTS_API_KEY") [];
    ipn_secret = env_str env (codes "NOWPAYMENTS_IPN_SECRET") [];
    api_base = env_str env (codes "NOWPAYMENTS_API_BASE") (codes "https://api.nowpayments.io/v1");
    success_url = env_str env (codes "NOWPAYMENTS_SUCCESS_URL") [];
    cancel_url = env_str env (codes "NOWPAYMENTS_CANCEL_URL") [];
    price_usd = env_float parse_float env (codes "UPLOAD_PRICE_USD") default_price;
  }

  unfoldable pub config_of : (Bytes → Option F) → F → Env → Config F
  unfolding vault_config nntp_config now_payments_config polygon_config
  config_of parse_float default_price env = record {
    vault = vault_config env;
    nntp = nntp_config env;
    now_payments = now_payments_config parse_float default_price env;
    polygon = polygon_config env;
  }

  -- `Validate`: the names of the missing variables.
  unfoldable pub validate : Config F → List Bytes
  validate c = missing_if (is_nil c.nntp.host) (codes "NNTP_HOST") (
      missing_if (is_nil c.nntp.user) (codes "NNTP_USER") (
        missing_if (is_nil c.nntp.pass) (codes "NNTP_PASS") (
          missing_if (is_nil c.now_payments.api_key) (codes "NOWPAYMENTS_API_KEY")
            (missing_if (is_nil c.now_payments.ipn_secret) (codes "NOWPAYMENTS_IPN_SECRET") []))))

  abbrev validated : Config F → List Bytes → Loaded F
  validated c [] = loaded c
  validated c (n ∷ ns) = missing (n ∷ ns)

  -- `Load`
  unfoldable pub load : (Bytes → Option F) → F → Env → Loaded F
  unfolding config_of validate
  load parse_float default_price env =
      validated (config_of parse_float default_price env)
        (validate (config_of parse_float default_price env))
