-- ===== src/Transmissionconfig.antt =====
-- internal/transmissionconfig/transmissionconfig.go: endpoints and credentials of Transmission. What
-- net/url parses is a record; parsing and printing a URL are parameters where they are used.
pub mod Paths
mod Examples
use jproxy_go.Common.{
  ℕ, ◌*◌, Bool, true, false, ◌&&◌, ◌||◌, not, Option, none, some, [], ◌∷◌, ◌++◌, leb, ◌==◌,
  if◌then◌else◌, Text, codes, text_eq, has_control, is_empty, contains, trim_suffix, has_suffix,
  utf8_length,
}

abbrev pub transmission_rpc : Text
transmission_rpc = codes "/transmission/rpc"

abbrev pub transmission_web : Text
transmission_web = codes "/transmission/web"

-- The fields of url.URL that the code reads; `has_user` is User != nil.
pub record Url : Type 0 where
  pub scheme : Text
  pub host : Text
  pub opaque : Text
  pub has_user : Bool
  pub raw_query : Text
  pub force_query : Bool
  pub fragment : Text
  pub path : Text
  pub raw_path : Text

abbrev pub max_value_length : ℕ
max_value_length = 16 * 1024

unfoldable pub is_safe_endpoint : Url → Bool
is_safe_endpoint u =
    (text_eq u.scheme (codes "http") || text_eq u.scheme (codes "https"))
    && not (is_empty u.host)
    && is_empty u.opaque
    && not u.has_user
    && is_empty u.raw_query
    && not u.force_query
    && is_empty u.fragment

-- Whether a segment is "." or "..".
abbrev pub is_dot : Text → Bool
is_dot s = text_eq s (codes ".") || text_eq s (codes "..")

-- The loop of hasDotSegment over strings.Split(value, "/"), with the segment read so far.
unfoldable pub dot_segment_from : Text → Text → Bool
dot_segment_from segment [] = is_dot segment
dot_segment_from segment (c ∷ s) =
    let next_segment = dot_segment_from [] s in
    let same_segment = dot_segment_from (segment ++ c ∷ []) s in
    if c == 47 then is_dot segment || next_segment else same_segment

unfoldable pub has_dot_segment : Text → Bool
has_dot_segment value = dot_segment_from [] value

-- isSafePath of a path with no trailing slash
unfoldable pub is_safe_trimmed : Text → Bool
is_safe_trimmed trimmed =
    if has_suffix (codes "/transmission") trimmed || contains (codes "/transmission/") trimmed
    then has_suffix transmission_web trimmed || has_suffix transmission_rpc trimmed
    else true

unfoldable pub is_safe_path : Text → Text → Bool
is_safe_path value raw_path =
    if not (is_empty raw_path)
      || contains (codes "\\") value
      || contains (codes "//") value
      || has_dot_segment value
    then false
    else if is_empty (trim_suffix (codes "/") value)
    then is_empty value || text_eq value (codes "/")
    else is_safe_trimmed (trim_suffix (codes "/") value)

-- normalizedPath of a path with no trailing slash
unfoldable pub normalized_trimmed : Text → Text
normalized_trimmed trimmed =
    if text_eq trimmed transmission_web
    then transmission_rpc
    else if has_suffix transmission_web trimmed
    then trim_suffix (codes "/web") trimmed ++ codes "/rpc"
    else if text_eq trimmed transmission_rpc || has_suffix transmission_rpc trimmed
    then trimmed
    else if is_empty trimmed
    then transmission_rpc
    else trimmed ++ transmission_rpc

unfoldable pub normalized_path : Text → Text
normalized_path value = normalized_trimmed (trim_suffix (codes "/") value)

-- The first test of ParseEndpoint.
unfoldable pub is_readable : Text → Bool
is_readable raw =
    not (is_empty raw)
    && leb (utf8_length raw) max_value_length
    && not (has_control raw)
    && not (contains (codes "\\") raw)

-- ValidateCredentials; `true` is no error.
unfoldable pub validate_credentials : Text → Text → Bool
validate_credentials username password =
    leb (utf8_length username) max_value_length
    && leb (utf8_length password) max_value_length
    && not (has_control username)
    && not (has_control password)

module _ (parse : Text → Option Url) where
  -- ParseEndpoint, with url.Parse as `parse`
  unfoldable pub parse_endpoint : Text → Option Url
  parse_endpoint raw = if not (is_readable raw) then none else elim (parse raw) [
    | none ↦ none
    | some u ↦
        if is_safe_endpoint u && is_safe_path u.path u.raw_path
        then some (record u { path = normalized_path u.path; raw_path = [] })
        else none
  ]

  module _ (print : Url → Text) where
    -- NormalizeEndpoint, with URL.String as `print`; `none` is an error.
    unfoldable pub normalize_endpoint : Text → Option Text
    normalize_endpoint [] = some []
    normalize_endpoint (c ∷ raw) = elim (parse_endpoint (c ∷ raw)) [
      | none ↦ none
      | some u ↦ some (print u)
    ]
