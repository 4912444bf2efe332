-- ===== src/Config.antt =====
-- internal/config/config.go: the types of a configuration and the functions that read one variable of the
-- environment, which is a function that gives the empty text for a variable that is not set. LoadConfig is in
-- Load, where parsing JSON and compiling expressions are parameters.
pub mod Load
pub mod Loading
mod Examples
use jproxy_go.Common.{
  ℕ, suc, ◌-◌, ◌*◌, ◌%◌, ◌^◌, Bool, true, false, ◌&&◌, ◌||◌, not, Option, none, some, List, [], ◌∷◌,
  ℤ, sub_ℕ, pos, negsuc, ltb, leb, ◌==◌, if◌then◌else◌, Text, codes, text_eq, to_lower, is_empty,
  trim_space, mem, utf8_length, atoi, trim_slashes, Result, or_fail, ok,
}
use jproxy_go.Format.{Config, SonarrConfig}
use jproxy_go.Format.Validation.{FormatError}
use jproxy_go.Format as Format

abbrev pub Environment : Type 0
Environment = Text → Text

-- AuthConfig
pub record AuthConfig : Type 0 where
  pub login_enabled : Bool
  pub jwt_secret : Text
  pub token_expires_minutes : ℤ

-- DatabaseConfig
pub record DatabaseConfig : Type 0 where
  pub enabled : Bool
  pub path : Text

-- RadarrFormattingConfig and SonarrFormattingConfig
pub record Formatting (C : Type 0) : Type 0 where
  pub enabled : Bool
  pub config : C

-- Config; durations are in nanoseconds.
pub record AppConfig : Type 0 where
  pub addr : Text
  pub jackett_url : Text
  pub prowlarr_url : Text
  pub min_count : ℤ
  pub indexer_result_cache_ttl : ℤ
  pub result_cache_max_entries : ℤ
  pub offset_cache_ttl : ℤ
  pub offset_cache_max_entries : ℤ
  pub http_timeout : ℤ
  pub database : DatabaseConfig
  pub radarr_formatting : Formatting Config
  pub sonarr_formatting : Formatting SonarrConfig
  pub auth : AuthConfig
  pub rename_files : Bool

pub data ConfigError : Type 0 where
  bad_bool : Text → ConfigError
  minutes_not_positive : ConfigError
  jwt_secret_invalid : ConfigError
  database_path_required : ConfigError
  format_required : Text → ConfigError
  bad_json : Text → ConfigError
  bad_format : FormatError → ConfigError

-- The zero values of the two formatter configurations.
abbrev pub no_config : Config
no_config = record { format = []; clean_title_regex = []; rules = []; titles = [] }

abbrev pub no_sonarr_config : SonarrConfig
no_sonarr_config = record { format = []; clean_title_regex = []; rules = []; titles = [] }

-- The value of a sum or product of 64 bits, as Go wraps it.
unfoldable pub wrap_int64 : ℤ → ℤ
wrap_int64 (pos n) =
    if ltb (n % 2 ^ 64) (2 ^ 63) then pos (n % 2 ^ 64) else sub_ℕ (n % 2 ^ 64) (2 ^ 64)
wrap_int64 (negsuc n) =
    if ltb (n % 2 ^ 64) (2 ^ 63) then negsuc (n % 2 ^ 64) else pos (2 ^ 64 - 1 - n % 2 ^ 64)

-- time.Duration(n) * unit
unfoldable pub duration : ℤ → ℕ → ℤ
duration (pos n) unit = wrap_int64 (pos (n * unit))
duration (negsuc n) unit = wrap_int64 (sub_ℕ 0 (suc n * unit))

-- env
unfoldable pub env : Environment → Text → Text → Text
env getenv key default = let v = trim_space (getenv key) in if is_empty v then default else v

-- envInt
unfoldable pub env_int : Environment → Text → ℤ → ℤ
env_int getenv key default =
    let v = trim_space (getenv key) in
    if is_empty v then default else elim (atoi v) [ none ↦ default | some n ↦ n ]

-- strconv.ParseBool
unfoldable pub parse_bool : Text → Option Bool
parse_bool v =
    if text_eq v (codes "1")
      || text_eq v (codes "t")
      || text_eq v (codes "T")
      || text_eq v (codes "TRUE")
      || text_eq v (codes "true")
      || text_eq v (codes "True")
    then some true
    else if text_eq v (codes "0")
        || text_eq v (codes "f")
        || text_eq v (codes "F")
        || text_eq v (codes "FALSE")
        || text_eq v (codes "false")
        || text_eq v (codes "False")
    then some false
    else none

-- envBool
unfoldable pub env_bool : Environment → Text → Bool → Result ConfigError Bool
env_bool getenv key default =
    let v = trim_space (getenv key) in
    if is_empty v then ok default else or_fail (parse_bool v) (bad_bool key)

-- trimRightSlash
unfoldable pub trim_right_slash : Text → Text
trim_right_slash s = trim_slashes s

unfoldable pub all_are : ℕ → Text → Bool
all_are c [] = true
all_are c (d ∷ s) = c == d && all_are c s

-- strings.Trim(secret, secret[:1]) == ""; a first byte that is no whole rune stands for U+FFFD.
unfoldable pub is_one_character : Text → Bool
is_one_character [] = true
is_one_character (c ∷ s) = all_are (if ltb c 128 then c else 0xFFFD) (c ∷ s)

abbrev pub default_secrets : List Text
default_secrets =
    codes "change-me"
    ∷ codes "changeme"
    ∷ codes "secret"
    ∷ codes "jwt-secret"
    ∷ codes "your-32-byte-secret-key-here"
    ∷ []

-- validJWTSecret
unfoldable pub valid_jwt_secret : Text → Bool
valid_jwt_secret secret =
    leb 32 (utf8_length secret)
    && not (is_one_character secret)
    && not (mem (to_lower (trim_space secret)) default_secrets)

-- The parts of the configuration that do not depend on one another's errors.
unfoldable pub base_config : Environment → AuthConfig → Bool → AppConfig
base_config getenv auth rename_files = record {
  addr = env getenv (codes "ADDR") (codes ":8117");
  jackett_url = trim_right_slash (env getenv (codes "JACKETT_URL") (codes "http://127.0.0.1:9117"));
  prowlarr_url =
      trim_right_slash (env getenv (codes "PROWLARR_URL") (codes "http://127.0.0.1:9696"));
  min_count = env_int getenv (codes "MIN_COUNT") (pos 6);
  indexer_result_cache_ttl =
      duration (env_int getenv (codes "INDEXER_RESULT_CACHE_EXPIRES") (pos 15)) 60000000000;
  result_cache_max_entries = env_int getenv (codes "RESULT_CACHE_MAX_ENTRIES") (pos 1000);
  offset_cache_ttl = duration (env_int getenv (codes "CACHE_EXPIRES") (pos 4320)) 60000000000;
  offset_cache_max_entries = env_int getenv (codes "OFFSET_CACHE_MAX_ENTRIES") (pos 1000);
  http_timeout = duration (env_int getenv (codes "HTTP_TIMEOUT_SECONDS") (pos 60)) 1000000000;
  database = record { enabled = false; path = [] };
  radarr_formatting = record { enabled = false; config = no_config };
  sonarr_formatting = record { enabled = false; config = no_sonarr_config };
  auth = auth;
  rename_files = rename_files;
}

abbrev pub auth_of : Environment → Bool → AuthConfig
auth_of getenv login_enabled = record {
  login_enabled = login_enabled;
  jwt_secret = trim_space (getenv (codes "JPROXY_JWT_SECRET"));
  token_expires_minutes = env_int getenv (codes "JPROXY_TOKEN_EXPIRES_MINUTES") (pos 60);
}
