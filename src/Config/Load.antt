-- ===== src/Config/Load.antt =====
-- internal/config/config.go: LoadConfig and the configurations of the formatters that it loads.
use jproxy_go.Common.{
  Bool, true, false, ◌||◌, not, Option, List, ltb_ℤ, pos, if◌then◌else◌, Text, codes, is_empty,
  trim_space, Result, ◌>>=◌, or_fail, check, ok, err,
}
use jproxy_go.Format.{Rule, Title, Config, SonarrTitle, SonarrConfig}
use jproxy_go.Format.Validation.{FormatError, validate_config, validate_sonarr_config}
use jproxy_go.Config.{
  Environment, Formatting, AppConfig, ConfigError, no_config, no_sonarr_config, env, env_bool,
  valid_jwt_secret, base_config, auth_of, minutes_not_positive, jwt_secret_invalid,
  database_path_required, format_required, bad_json, bad_format,
}

-- fmt.Errorf of the error of a validation
abbrev pub format_result : {A : Type 0} → Result FormatError (Unit {0}) → A → Result ConfigError A
format_result (ok _) a = ok a
format_result (err e) a = err (bad_format e)

module _ (parse_rules : Text → Option (List Rule)) (parse_titles : Text → Option (List Title))
    (parse_sonarr_titles : Text → Option (List SonarrTitle)) (compiles : Text → Bool) where
  -- loadRadarrFormatConfig
  unfoldable pub load_radarr_format_config : Environment → Result ConfigError Config
  load_radarr_format_config getenv = do
    let text = trim_space (getenv (codes "JPROXY_RADARR_FORMAT"))
    _ ← check (not (is_empty text)) (format_required (codes "JPROXY_RADARR_FORMAT"))
    rules ←
        or_fail (parse_rules (env getenv (codes "JPROXY_RADARR_FORMAT_RULES") (codes "[]")))
          (bad_json (codes "JPROXY_RADARR_FORMAT_RULES"))
    titles ←
        or_fail (parse_titles (env getenv (codes "JPROXY_RADARR_TITLES") (codes "[]")))
          (bad_json (codes "JPROXY_RADARR_TITLES"))
    let cfg : Config = record {
      format = text;
      clean_title_regex = getenv (codes "JPROXY_RADARR_TITLE_CLEAN_REGEX");
      rules = rules;
      titles = titles;
    }
    format_result (validate_config compiles cfg) cfg

  -- loadSonarrFormatConfig
  unfoldable pub load_sonarr_format_config : Environment → Result ConfigError SonarrConfig
  load_sonarr_format_config getenv = do
    let text = trim_space (getenv (codes "JPROXY_SONARR_FORMAT"))
    _ ← check (not (is_empty text)) (format_required (codes "JPROXY_SONARR_FORMAT"))
    rules ←
        or_fail (parse_rules (env getenv (codes "JPROXY_SONARR_FORMAT_RULES") (codes "[]")))
          (bad_json (codes "JPROXY_SONARR_FORMAT_RULES"))
    titles ←
        or_fail (parse_sonarr_titles (env getenv (codes "JPROXY_SONARR_TITLES") (codes "[]")))
          (bad_json (codes "JPROXY_SONARR_TITLES"))
    let cfg : SonarrConfig = record {
      format = text;
      clean_title_regex = getenv (codes "JPROXY_SONARR_TITLE_CLEAN_REGEX");
      rules = rules;
      titles = titles;
    }
    format_result (validate_sonarr_config compiles cfg) cfg

  -- if radarrFormatEnabled { … } and if sonarrFormatEnabled { … }, at the end of LoadConfig
  unfoldable pub radarr_formatting_of : Bool → Environment → Result ConfigError (Formatting Config)
  radarr_formatting_of false getenv = ok (record { enabled = false; config = no_config })
  radarr_formatting_of true getenv = do
    cfg ← load_radarr_format_config getenv
    ok (record { enabled = true; config = cfg })

  unfoldable pub sonarr_formatting_of :
      Bool → Environment → Result ConfigError (Formatting SonarrConfig)
  sonarr_formatting_of false getenv = ok (record { enabled = false; config = no_sonarr_config })
  sonarr_formatting_of true getenv = do
    cfg ← load_sonarr_format_config getenv
    ok (record { enabled = true; config = cfg })

  -- The end of LoadConfig: with the database, and without.
  unfoldable pub with_database :
      Environment → Bool → Bool → AppConfig → Result ConfigError AppConfig
  with_database getenv radarr_enabled sonarr_enabled cfg = do
    let path = trim_space (getenv (codes "JPROXY_DB_PATH"))
    _ ← check (not (is_empty path)) database_path_required
    ok (record cfg {
      database = record { enabled = true; path = path };
      radarr_formatting = record { enabled = radarr_enabled; config = no_config };
      sonarr_formatting = record { enabled = sonarr_enabled; config = no_sonarr_config };
    })

  unfoldable pub without_database :
      Environment → Bool → Bool → AppConfig → Result ConfigError AppConfig
  without_database getenv radarr_enabled sonarr_enabled cfg = do
    radarr ← radarr_formatting_of radarr_enabled getenv
    sonarr ← sonarr_formatting_of sonarr_enabled getenv
    ok (record cfg { radarr_formatting = radarr; sonarr_formatting = sonarr })

  -- LoadConfig
  unfoldable pub load_config : Environment → Result ConfigError AppConfig
  load_config getenv = do
    login ← env_bool getenv (codes "JPROXY_LOGIN_ENABLED") false
    let auth = auth_of getenv login
    _ ← check (ltb_ℤ (pos 0) auth.token_expires_minutes) minutes_not_positive
    _ ← check (not login || valid_jwt_secret auth.jwt_secret) jwt_secret_invalid
    radarr ← env_bool getenv (codes "JPROXY_RADARR_FORMAT_ENABLED") false
    sonarr ← env_bool getenv (codes "JPROXY_SONARR_FORMAT_ENABLED") false
    database ← env_bool getenv (codes "JPROXY_DB_ENABLED") false
    rename_files ← env_bool getenv (codes "RENAME_FILE") true
    let cfg = base_config getenv auth rename_files
    if database
        then with_database getenv radarr sonarr cfg
        else without_database getenv radarr sonarr cfg
