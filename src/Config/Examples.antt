-- ===== src/Config/Examples.antt =====
-- A configuration with the login and one formatter on.
use jproxy_go.Common.{
  ◌≡◌, refl, true, false, Option, none, some, List, [], ◌∷◌, pos, if◌then◌else◌, Text, codes,
  text_eq, to_lower, is_space, trim_space, mem, starts_with, index, contains, utf8_length, ok,
}
use jproxy_go.Format.Validation.{validate_rules, validate_config}
use jproxy_go.Config.Load.{
  load_radarr_format_config, radarr_formatting_of, sonarr_formatting_of, without_database,
  load_config,
}
use jproxy_go.Config.{
  Environment, AppConfig, no_config, env, env_int, parse_bool, env_bool, all_are, is_one_character,
  valid_jwt_secret, base_config, auth_of,
}
use jproxy_go.Config.Loading.{IsSound, load_config-IsSound}

abbrev variables : List (Text × Text)
variables =
    (codes "JPROXY_LOGIN_ENABLED", codes " true ")
    ∷ (codes "JPROXY_JWT_SECRET", codes "0123456789abcdef0123456789abcdef")
    ∷ (codes "JPROXY_RADARR_FORMAT_ENABLED", codes "1")
    ∷ (codes "JPROXY_RADARR_FORMAT", codes "{title} {year}")
    ∷ (codes "MIN_COUNT", codes "x")
    ∷ []

abbrev value_in : List (Text × Text) → Text → Text
value_in [] key = []
value_in ((k, v) ∷ rest) key = let later = value_in rest key in if text_eq k key then v else later

abbrev settings : Environment
settings = value_in variables

abbrev parse_empty : {A : Type 0} → Text → Option (List A)
parse_empty s = if text_eq s (codes "[]") then some [] else none

abbrev loaded : AppConfig
loaded = record (base_config settings (auth_of settings true) true) {
  radarr_formatting = record {
    enabled = true;
    config = record no_config { format = codes "{title} {year}" };
  };
}

login_on : env_bool settings (codes "JPROXY_LOGIN_ENABLED") false ≡ ok true
unfolding env_bool text_eq trim_space is_space parse_bool
login_on = refl

radarr_on : env_bool settings (codes "JPROXY_RADARR_FORMAT_ENABLED") false ≡ ok true
unfolding env_bool text_eq trim_space is_space parse_bool
radarr_on = refl

unset_is_default :
    (env_bool settings (codes "JPROXY_SONARR_FORMAT_ENABLED") false ≡ ok false)
    × (env_bool settings (codes "JPROXY_DB_ENABLED") false ≡ ok false)
    × (env_bool settings (codes "RENAME_FILE") true ≡ ok true)
unfolding env_bool text_eq trim_space is_space parse_bool
unset_is_default = (refl, refl, refl)

secret_valid : valid_jwt_secret (auth_of settings true).jwt_secret ≡ true
unfolding valid_jwt_secret text_eq trim_space is_space utf8_length is_one_character all_are mem
    to_lower
secret_valid = refl

an_hour : (auth_of settings true).token_expires_minutes ≡ pos 60
unfolding env_int text_eq trim_space is_space
an_hour = refl

formatting :
    load_radarr_format_config parse_empty parse_empty parse_empty (λ s. true) settings
    ≡ ok loaded.radarr_formatting.config
unfolding load_radarr_format_config text_eq trim_space is_space env validate_config validate_rules
    contains index starts_with
formatting = refl

loading : load_config parse_empty parse_empty parse_empty (λ s. true) settings ≡ ok loaded
unfolding load_config without_database radarr_formatting_of sonarr_formatting_of base_config
loading =
    rw
      (
        login_on, an_hour, secret_valid, radarr_on, unset_is_default.0, unset_is_default.1,
        unset_is_default.2, formatting,
      )
      refl

load_config-IsSound_example : IsSound parse_empty parse_empty parse_empty (λ s. true) loaded
load_config-IsSound_example =
    load_config-IsSound parse_empty parse_empty parse_empty (λ s. true) settings loaded loading
