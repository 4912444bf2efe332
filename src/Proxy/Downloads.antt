-- ===== src/Proxy/Downloads.antt =====
-- internal/proxy: qbittorrent.go and transmission.go, the handlers that pass requests on to the downloaders.
-- Packages net/url and net/http are parameters: parsing a URL, whether a request can be built, the canonical
-- name of a header, and what is answered.
pub mod Passing
mod Examples
use jproxy_go.Common.{
  ℕ, ◌+◌, ◌*◌, ◌^◌, Bool, ◌&&◌, ◌||◌, not, Option, none, some, List, [], ◌∷◌, ◌++◌, leb,
  if◌then◌else◌, length, take, drop, Text, codes, text_eq, to_lower, has_control, is_empty,
  trim_space, mem, starts_with, contains, split_from, trim_slashes, Result, ◌>>=◌, or_fail, check,
  ok, err,
}
use jproxy_go.Transmissionconfig.{Url, parse_endpoint}
use jproxy_go.Downloader.{Body, is_redirect, received, broken}

abbrev pub Headers : Type 0
Headers = List (Text × List Text)

-- A request that comes in: its URL has a path, and the path as it was escaped.
pub record Incoming : Type 0 where
  pub method : Text
  pub path : Text
  pub escaped_path : Text
  pub raw_query : Text
  pub headers : Headers
  pub body : Body

-- A request that goes out.
pub record Upstream : Type 0 where
  pub method : Text
  pub target : Url
  pub headers : List (Text × Text)
  pub body : Text

-- What client.Do gives; `timed_out` is that the deadline is over.
pub data Outcome : Type 0 where
  no_answer : Bool → Outcome
  answer : ℕ → Headers → Body → Outcome

-- What the handler writes: an error with its status, or the answer that is passed back.
pub data Written : Type 0 where
  rejected : ℕ → Written
  passed : ℕ → List (Text × Text) → Text → Written

abbrev pub proxy_limit : ℕ
proxy_limit = 8 * 2 ^ 20

-- readLimited
unfoldable pub read_limited : Body → ℕ → Option Text
read_limited (broken e) limit = none
read_limited (received bytes) limit =
    let read = take (limit + 1) bytes in if leb (length read) limit then some read else none

-- strings.TrimPrefix
unfoldable pub trim_prefix : Text → Text → Text
trim_prefix prefix s = if starts_with prefix s then drop (length prefix) s else s

-- What follows the prefix for Sonarr or the one for Radarr; the path itself where it has neither.
unfoldable pub after_prefix : Text → Text → Text → Text
after_prefix sonarr radarr escaped =
    let first = trim_prefix sonarr escaped in
    if text_eq first escaped then trim_prefix radarr escaped else first

-- qbittorrentPath; `none` is false.
unfoldable pub qbittorrent_path : Text → Text → Option Text
qbittorrent_path path escaped =
    let prefixed =
      after_prefix (codes "/sonarr/qbittorrent/") (codes "/radarr/qbittorrent/") escaped in
    if text_eq prefixed escaped
      || is_empty prefixed
      || contains (codes "\\") prefixed
      || not (starts_with (codes "api/v2/") prefixed)
      || contains (codes "/../") path
      || contains (codes "/./") path
      || contains (codes "%2e") (to_lower escaped)
    then none
    else some (47 ∷ prefixed)

-- transmissionPath
unfoldable pub transmission_path : Text → Text → Bool
transmission_path path escaped =
    let suffix =
      after_prefix (codes "/sonarr/transmission/") (codes "/radarr/transmission/") escaped in
    not (text_eq suffix escaped)
    && (text_eq suffix (codes "transmission/rpc") || text_eq suffix (codes "transmission/rpc/"))
    && not (contains (codes "\\") path)
    && not (contains (codes "/../") path)
    && not (contains (codes "/./") path)
    && not (contains (codes "%2e") (to_lower escaped))
    && not (has_control path)

-- hopHeader
unfoldable pub hop_header : Text → Bool
hop_header name = mem name (
    codes "Connection"
    ∷ codes "Keep-Alive"
    ∷ codes "Proxy-Authenticate"
    ∷ codes "Proxy-Authorization"
    ∷ codes "Proxy-Connection"
    ∷ codes "Te"
    ∷ codes "Trailer"
    ∷ codes "Transfer-Encoding"
    ∷ codes "Upgrade"
    ∷ [])

abbrev pub is_allowed_method : Text → Bool
is_allowed_method method = text_eq method (codes "GET") || text_eq method (codes "POST")

abbrev pub pairs : Text → List Text → List (Text × Text)
pairs name [] = []
pairs name (v ∷ vs) = (name, v) ∷ pairs name vs

module _ (canonical : Text → Text) where
  -- The values of the header Connection; a header map has canonical names.
  unfoldable pub connection_values : Headers → List Text
  connection_values [] = []
  connection_values ((name, values) ∷ headers) =
      if text_eq name (codes "Connection")
      then values ++ connection_values headers
      else connection_values headers

  unfoldable pub canonical_names : List Text → List Text
  canonical_names [] = []
  canonical_names (name ∷ names) = canonical (trim_space name) ∷ canonical_names names

  -- The map connection of copyEndToEndHeaders.
  unfoldable pub connection_names : List Text → List Text
  connection_names [] = []
  connection_names (value ∷ values) =
      canonical_names (split_from 44 [] value) ++ connection_names values

  -- The second loop of copyEndToEndHeaders, into empty headers.
  unfoldable pub copy_headers : List Text → Headers → List (Text × Text)
  copy_headers connection [] = []
  copy_headers connection ((name, values) ∷ headers) =
      let rest = copy_headers connection headers in
      let key = canonical name in
      if text_eq key (codes "Host") || mem key connection || hop_header key
      then rest
      else pairs key values ++ rest

  -- copyEndToEndHeaders
  unfoldable pub copy_end_to_end_headers : Headers → List (Text × Text)
  copy_end_to_end_headers source = copy_headers (connection_names (connection_values source)) source

  -- The request that a handler builds.
  unfoldable pub upstream_of : Incoming → Url → Text → Upstream
  upstream_of request target body = record {
    method = request.method;
    target = record target { raw_query = request.raw_query };
    headers = copy_end_to_end_headers request.headers;
    body = body;
  }

  module _ (parse : Text → Option Url) (can_build : Upstream → Bool) where
    -- qbittorrentBaseURL; `none` is an error.
    unfoldable pub qbittorrent_base_url : Text → Option Url
    qbittorrent_base_url raw = elim (parse raw) [
      | none ↦ none
      | some u ↦
          if not (text_eq u.scheme (codes "http") || text_eq u.scheme (codes "https"))
            || is_empty u.host
            || u.has_user
            || not (is_empty u.raw_query)
            || not (is_empty u.fragment)
            || has_control raw
          then none
          else some u
    ]

    -- The upstream request, if it can be built.
    unfoldable pub built : Upstream → Result ℕ Upstream
    built upstream = if can_build upstream then ok upstream else err 502

    -- handleQBittorrent up to the request, with the URL of the snapshot; an error is a status.
    unfoldable pub prepare_qbittorrent : Text → Incoming → Result ℕ Upstream
    prepare_qbittorrent url request = do
      _ ← check (is_allowed_method request.method) 405
      path ← or_fail (qbittorrent_path request.path request.escaped_path) 400
      base ← or_fail (qbittorrent_base_url url) 503
      body ← or_fail (read_limited request.body proxy_limit) 413
      built (upstream_of request (record base { path = trim_slashes base.path ++ path }) body)

    -- handleTransmission up to the request.
    unfoldable pub prepare_transmission : Text → Incoming → Result ℕ Upstream
    prepare_transmission url request = do
      _ ← check (is_allowed_method request.method) 405
      _ ← check (transmission_path request.path request.escaped_path) 400
      endpoint ← or_fail (parse_endpoint parse url) 503
      body ← or_fail (read_limited request.body proxy_limit) 413
      built (upstream_of request endpoint body)

  -- The answer that is written.
  unfoldable pub written_of : Outcome → Written
  written_of (no_answer timed_out) = rejected (if timed_out then 504 else 502)
  written_of (answer status headers body) =
      if is_redirect status then rejected 502 else elim (read_limited body proxy_limit) [
        | none ↦ rejected 502
        | some bytes ↦ passed status (copy_end_to_end_headers headers) bytes
      ]

  -- The rest of a handler: what is written, and the request that was sent.
  unfoldable pub pass_on : (Upstream → Outcome) → Result ℕ Upstream → Written × Option Upstream
  pass_on send (err status) = (rejected status, none)
  pass_on send (ok upstream) = (written_of (send upstream), some upstream)
