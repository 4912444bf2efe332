-- ===== src/Format.antt =====
-- internal/format: the data of the result formatters.
pub mod Validation
pub mod Cleaning
use jproxy_go.Common.{Option, List, ℤ, Text}

-- Rule
pub record Rule : Type 0 where
  pub token : Text
  pub regex : Text
  pub replacement : Text
  pub offset : ℤ
  pub priority : ℤ
  pub valid_status : Option ℤ

-- Title
pub record Title : Type 0 where
  pub main_title : Text
  pub title : Text
  pub clean_title : Text
  pub year : ℤ

-- Config
pub record Config : Type 0 where
  pub format : Text
  pub clean_title_regex : Text
  pub rules : List Rule
  pub titles : List Title

-- SonarrTitle
pub record SonarrTitle : Type 0 where
  pub main_title : Text
  pub title : Text
  pub clean_title : Text
  pub season_number : Option ℤ

-- SonarrConfig
pub record SonarrConfig : Type 0 where
  pub format : Text
  pub clean_title_regex : Text
  pub rules : List Rule
  pub titles : List SonarrTitle
