-- ===== src/Config/Loading.antt =====
-- What holds of a configuration that is loaded (internal/config/config.go, LoadConfig).
use jproxy_go.Common.{
  ◌≡◌, refl, ◌⊎◌, inl, Bool, true, false, ◌||◌, not, Option, List, arith, ltb_ℤ, pos, if◌then◌else◌,
  Text, codes, is_empty, Result, ◌>>=◌, check, ok, err,
}
use jproxy_go.Format.{Rule, Title, Config, SonarrTitle, SonarrConfig}
use jproxy_go.Format.Validation.{FormatError, validate_config, validate_sonarr_config}
use jproxy_go.Config.Load.{
  format_result, load_radarr_format_config, load_sonarr_format_config, radarr_formatting_of,
  sonarr_formatting_of, with_database, without_database, load_config,
}
use jproxy_go.Config.{
  Environment, Formatting, AppConfig, ConfigError, env_bool, valid_jwt_secret, base_config, auth_of,
  minutes_not_positive, jwt_secret_invalid,
}

format_result-ok :
    {A : Type 0} (r : Result FormatError (Unit {0})) (a b : A)
    → format_result r a ≡ ok b
    → (r ≡ ok tt) × (a ≡ b)
format_result-ok (ok tt) a b h = (refl, ground arith)
format_result-ok (err e) a b h = cc

module _ (parse_rules : Text → Option (List Rule)) (parse_titles : Text → Option (List Title))
    (parse_sonarr_titles : Text → Option (List SonarrTitle)) (compiles : Text → Bool) where
  -- A formatter that runs without the database has a configuration that was validated.
  abbrev pub IsReady :
      {C : Type 0} → (C → Result FormatError (Unit {0})) → Bool → Formatting C → Type 0
  IsReady validate database f =
      (f.enabled ≡ false) ⊎ (database ≡ true) ⊎ (validate f.config ≡ ok tt)

  pub record IsSound (cfg : AppConfig) : Type 0 where
    pub positive : ltb_ℤ (pos 0) cfg.auth.token_expires_minutes ≡ true
    pub secret : (not cfg.auth.login_enabled || valid_jwt_secret cfg.auth.jwt_secret) ≡ true
    pub database : (not cfg.database.enabled || not (is_empty cfg.database.path)) ≡ true
    pub radarr : IsReady (validate_config compiles) cfg.database.enabled cfg.radarr_formatting
    pub sonarr :
        IsReady (validate_sonarr_config compiles) cfg.database.enabled cfg.sonarr_formatting

  abbrev load_radarr : Environment → Result ConfigError Config
  load_radarr = load_radarr_format_config parse_rules parse_titles parse_sonarr_titles compiles

  load_radarr_lem :
      (getenv : Environment) (cfg : Config)
      → load_radarr getenv ≡ ok cfg
      → validate_config compiles cfg ≡ ok tt
  unfolding load_radarr_format_config
  load_radarr_lem getenv cfg h = grind (arith, format_result-ok)

  abbrev load_sonarr : Environment → Result ConfigError SonarrConfig
  load_sonarr = load_sonarr_format_config parse_rules parse_titles parse_sonarr_titles compiles

  load_sonarr_lem :
      (getenv : Environment) (cfg : SonarrConfig)
      → load_sonarr getenv ≡ ok cfg
      → validate_sonarr_config compiles cfg ≡ ok tt
  unfolding load_sonarr_format_config
  load_sonarr_lem getenv cfg h = grind (arith, format_result-ok)

  radarr-IsReady :
      (enabled database : Bool) (getenv : Environment) (f : Formatting Config)
      → radarr_formatting_of parse_rules parse_titles parse_sonarr_titles compiles enabled getenv
        ≡ ok f
      → IsReady (validate_config compiles) database f
  unfolding radarr_formatting_of
  radarr-IsReady false database getenv f h = inl (ground arith)
  radarr-IsReady true database getenv f h = grind (arith, load_radarr_lem)

  sonarr-IsReady :
      (enabled database : Bool) (getenv : Environment) (f : Formatting SonarrConfig)
      → sonarr_formatting_of parse_rules parse_titles parse_sonarr_titles compiles enabled getenv
        ≡ ok f
      → IsReady (validate_sonarr_config compiles) database f
  unfolding sonarr_formatting_of
  sonarr-IsReady false database getenv f h = inl (ground arith)
  sonarr-IsReady true database getenv f h = grind (arith, load_sonarr_lem)

  -- What the two ends of LoadConfig make of a start configuration.
  abbrev IsEnd : AppConfig → AppConfig → Type 0
  IsEnd start cfg =
      (cfg.auth ≡ start.auth)
      × ((not cfg.database.enabled || not (is_empty cfg.database.path)) ≡ true)
      × IsReady (validate_config compiles) cfg.database.enabled cfg.radarr_formatting
      × IsReady (validate_sonarr_config compiles) cfg.database.enabled cfg.sonarr_formatting

  with_database-IsEnd :
      (getenv : Environment) (radarr sonarr : Bool) (start cfg : AppConfig)
      → with_database parse_rules parse_titles parse_sonarr_titles compiles getenv radarr sonarr
          start
        ≡ ok cfg
      → IsEnd start cfg
  unfolding with_database
  with_database-IsEnd getenv radarr sonarr start cfg h = ground arith

  without_database_result :
      (start cfg : AppConfig) (r : Result ConfigError (Formatting Config))
      (s : Result ConfigError (Formatting SonarrConfig))
      → ((f : Formatting Config) → r ≡ ok f → IsReady (validate_config compiles) false f)
      → ((f : Formatting SonarrConfig)
          → s ≡ ok f
          → IsReady (validate_sonarr_config compiles) false f)
      → start.database.enabled ≡ false
      → (r >>= λ f. s >>= λ g. ok (record start { radarr_formatting = f; sonarr_formatting = g }))
        ≡ ok cfg
      → IsEnd start cfg
  without_database_result start cfg (ok f) (ok g) p q off h = ground (arith, p f refl, q g refl)
  without_database_result start cfg (ok f) (err e) p q off h = cc
  without_database_result start cfg (err e) s p q off h = cc

  without_database-IsEnd :
      (getenv : Environment) (radarr sonarr : Bool) (start cfg : AppConfig)
      → start.database.enabled ≡ false
      → without_database parse_rules parse_titles parse_sonarr_titles compiles getenv radarr sonarr
          start
        ≡ ok cfg
      → IsEnd start cfg
  unfolding without_database
  without_database-IsEnd getenv radarr sonarr start cfg off h =
      without_database_result start cfg
        (radarr_formatting_of parse_rules parse_titles parse_sonarr_titles compiles radarr getenv)
        (sonarr_formatting_of parse_rules parse_titles parse_sonarr_titles compiles sonarr getenv)
        (radarr-IsReady radarr false getenv) (sonarr-IsReady sonarr false getenv) off h

  finish-IsEnd :
      (getenv : Environment) (radarr sonarr database : Bool) (start cfg : AppConfig)
      → start.database.enabled ≡ false
      → (if database
          then with_database parse_rules parse_titles parse_sonarr_titles compiles getenv radarr
              sonarr start
          else without_database parse_rules parse_titles parse_sonarr_titles compiles getenv radarr
              sonarr start)
        ≡ ok cfg
      → IsEnd start cfg
  finish-IsEnd getenv radarr sonarr true start cfg off h =
      with_database-IsEnd getenv radarr sonarr start cfg h
  finish-IsEnd getenv radarr sonarr false start cfg off h =
      without_database-IsEnd getenv radarr sonarr start cfg off h

  load_config_result :
      (getenv : Environment) (l r s d n : Result ConfigError Bool) (cfg : AppConfig)
      → (l >>= λ login.
          check (ltb_ℤ (pos 0) (auth_of getenv login).token_expires_minutes) minutes_not_positive
          >>= λ _.
              check
                (not login || valid_jwt_secret (auth_of getenv login).jwt_secret)
                jwt_secret_invalid
              >>= λ _. r >>= λ radarr. s >>= λ sonarr. d >>= λ database. n >>= λ rename_files.
                  if database
                  then with_database parse_rules parse_titles parse_sonarr_titles compiles getenv
                      radarr sonarr
                      (base_config getenv (auth_of getenv login) rename_files)
                  else without_database parse_rules parse_titles parse_sonarr_titles compiles getenv
                      radarr sonarr
                      (base_config getenv (auth_of getenv login) rename_files))
        ≡ ok cfg
      → IsSound cfg
  unfolding base_config
  load_config_result getenv (ok login) (ok radarr) (ok sonarr) (ok database) (ok rename_files) cfg
        h =
      let start = base_config getenv (auth_of getenv login) rename_files in
      ground (arith, finish-IsEnd getenv radarr sonarr database start cfg refl)
  load_config_result getenv (err e) r s d n cfg h = cc
  load_config_result getenv (ok login) (err e) s d n cfg h = ground arith
  load_config_result getenv (ok login) (ok radarr) (err e) d n cfg h = ground arith
  load_config_result getenv (ok login) (ok radarr) (ok sonarr) (err e) n cfg h = ground arith
  load_config_result getenv (ok login) (ok radarr) (ok sonarr) (ok database) (err e) cfg h =
      ground arith

  -- A configuration that is loaded has tokens that expire after a positive number of minutes, a valid
  -- secret where the login is on, and a path where the database is on; and each formatter that is on
  -- without the database has a configuration that passed the validation.
  pub load_config-IsSound :
      (getenv : Environment) (cfg : AppConfig)
      → load_config parse_rules parse_titles parse_sonarr_titles compiles getenv ≡ ok cfg
      → IsSound cfg
  unfolding load_config
  load_config-IsSound getenv cfg h =
      load_config_result getenv (env_bool getenv (codes "JPROXY_LOGIN_ENABLED") false)
        (env_bool getenv (codes "JPROXY_RADARR_FORMAT_ENABLED") false)
        (env_bool getenv (codes "JPROXY_SONARR_FORMAT_ENABLED") false)
        (env_bool getenv (codes "JPROXY_DB_ENABLED") false)
        (env_bool getenv (codes "RENAME_FILE") true) cfg h
