-- ===== src/Format/Validation.antt =====
-- internal/format: which configurations of the formatters are accepted (ValidateConfig of radarr.go and
-- ValidateSonarrConfig of sonarr.go). Whether package regexp compiles an expression is a parameter.
use jproxy_go.Common.{
  Bool, true, false, ◌||◌, not, Option, none, some, List, [], ◌∷◌, ℤ, eq_ℤ, pos, Text, codes,
  is_empty, trim_space, contains, replace_all, Result, ◌>>=◌, check, ok,
}
use jproxy_go.Format.{Rule, Config, SonarrTitle, SonarrConfig}

pub data FormatError : Type 0 where
  no_template : FormatError
  no_title_token : FormatError
  bad_clean_regex : FormatError
  bad_status : Text → FormatError
  no_token : FormatError
  no_regex : Text → FormatError
  bad_regex : Text → FormatError
  no_main_title : FormatError
  no_title : Text → FormatError
  no_season : Text → FormatError

-- rule.ValidStatus is nil, 0 or 1
abbrev pub status_known : Option ℤ → Bool
status_known none = true
status_known (some s) = eq_ℤ s (pos 0) || eq_ℤ s (pos 1)

abbrev pub is_some {ℓ} : {A : Type ℓ} → Option A → Bool
is_some none = false
is_some (some a) = true

module _ (compiles : Text → Bool) where
  -- The body of the loop over the rules.
  unfoldable pub validate_rule : Rule → Result FormatError (Unit {0})
  validate_rule rule = do
    _ ← check (status_known rule.valid_status) (bad_status rule.token)
    _ ← check (not (is_empty rule.token)) no_token
    _ ← check (not (is_empty rule.regex)) (no_regex rule.token)
    check (compiles (replace_all rule.regex (codes "{cleanTitle}") (codes "placeholder")))
        (bad_regex rule.token)

  unfoldable pub validate_rules : List Rule → Result FormatError (Unit {0})
  validate_rules [] = ok tt
  validate_rules (rule ∷ rules) = do _ ← validate_rule rule; validate_rules rules

  -- ValidateConfig
  unfoldable pub validate_config : Config → Result FormatError (Unit {0})
  validate_config cfg = do
    _ ← check (not (is_empty (trim_space cfg.format))) no_template
    _ ← check (contains (codes "{title}") cfg.format) no_title_token
    _ ← check (is_empty cfg.clean_title_regex || compiles cfg.clean_title_regex) bad_clean_regex
    validate_rules cfg.rules

  unfoldable pub validate_title : SonarrTitle → Result FormatError (Unit {0})
  validate_title title = do
    _ ← check (not (is_empty (trim_space title.main_title))) no_main_title
    _ ←
        check
          (not (is_empty (trim_space title.title)) || not (is_empty (trim_space title.clean_title)))
          (no_title title.main_title)
    check (is_some title.season_number) (no_season title.main_title)

  unfoldable pub validate_titles : List SonarrTitle → Result FormatError (Unit {0})
  validate_titles [] = ok tt
  validate_titles (title ∷ titles) = do _ ← validate_title title; validate_titles titles

  -- ValidateSonarrConfig
  unfoldable pub validate_sonarr_config : SonarrConfig → Result FormatError (Unit {0})
  validate_sonarr_config cfg = do
    _ ← validate_config (record {
      format = cfg.format;
      clean_title_regex = cfg.clean_title_regex;
      rules = cfg.rules;
      titles = [];
    })
    validate_titles cfg.titles
