-- ===== src/Format/Cleaning.antt =====
-- internal/format/radarr.go: the title that rules and searches compare (CleanTitle). Package regexp is a
-- parameter: which expressions compile, and ReplaceAllString of an expression, a text and a replacement; and
-- so are the tables of package unicode, behind strings.ToLower.
use jproxy_go.Common.{Bool, ◌&&◌, not, if◌then◌else◌, Text, codes, is_empty, trim_space}

pub record Engine : Type 0 where
  pub compiles : Text → Bool
  pub replace_all_string : Text → Text → Text → Text
  pub lowered : Text → Text

-- CleanTitle
unfoldable pub clean_title : Engine → Text → Text → Text
clean_title engine title clean_regex =
    let separated = engine.replace_all_string (codes "[\\[\\]【】]") title (codes "/") in
    let original =
      engine.replace_all_string (codes "[\\$\\(\\)\\*\\+\\.\\?\\^\\{\\}\\|\\\\]") separated
        (codes " ") in
    let cleaned =
      if not (is_empty clean_regex) && engine.compiles clean_regex
      then engine.replace_all_string clean_regex original (codes " ")
      else original in
    let without =
      engine.replace_all_string (codes "(?i)(\\b|\\s)(a|an|the)\\s") cleaned (codes " ") in
    let kept = if is_empty (trim_space without) then original else without in
    let joined = engine.replace_all_string (codes "/+") kept (codes "/") in
    engine.lowered (trim_space (engine.replace_all_string (codes "\\s+") joined (codes " ")))
