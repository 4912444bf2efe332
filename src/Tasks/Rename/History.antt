-- ===== src/Tasks/Rename/History.antt =====
-- internal/tasks/rename: history.go, what the history of Sonarr or Radarr says was grabbed, and types.go.
use jproxy_go.Common.{
  ℕ, ◌+◌, ◌^◌, Bool, true, ◌&&◌, ◌||◌, not, Option, none, some, List, [], ◌∷◌, ◌++◌, ℤ, leb, ◌==◌,
  if◌then◌else◌, length, take, Text, codes, text_eq, to_lower, equal_fold, has_control, is_empty,
  trim_space, utf8_length, trim_slashes, Result, ◌>>=◌, or_fail, check, ok, err,
}
use jproxy_go.Transmissionconfig.{Url}
use jproxy_go.Downloader.{SendError, Body, is_success, is_redirect, received, broken}

-- Downloader
pub data Downloader : Type 0 where
  qbittorrent : Downloader
  transmission : Downloader

-- Event
pub record Event : Type 0 where
  pub source_title : Text
  pub hash : Text
  pub downloader : Downloader

-- Endpoint
pub record Endpoint : Type 0 where
  pub url : Text
  pub api_key : Text

pub data HistoryError : Type 0 where
  invalid_endpoint : HistoryError
  history_redirect : HistoryError
  history_status : HistoryError
  history_body : HistoryError
  history_timeout : HistoryError
  history_transport : HistoryError
  history_canceled : HistoryError

-- A row of the history, as decodeHistory reads it.
pub record Row : Type 0 where
  pub source_title : Text
  pub download_id : Text
  pub torrent_info_hash : Text
  pub download_client : Text

abbrev pub is_hex : ℕ → Bool
is_hex c = (leb 48 c && leb c 57) || (leb 97 c && leb c 102) || (leb 65 c && leb c 70)

unfoldable pub all_hex : Text → Bool
all_hex [] = true
all_hex (c ∷ s) = is_hex c && all_hex s

-- validTorrentHash
unfoldable pub valid_torrent_hash : Text → Bool
valid_torrent_hash value = (utf8_length value == 40 || utf8_length value == 64) && all_hex value

-- The hash of a row.
unfoldable pub hash_of : Row → Text
hash_of row =
    let id = trim_space row.download_id in
    if is_empty id then trim_space row.torrent_info_hash else to_lower id

-- The client of a row, if it is one of the two.
unfoldable pub downloader_of : Row → Option Downloader
downloader_of row =
    if equal_fold row.download_client (codes "qBittorrent")
    then some qbittorrent
    else if equal_fold row.download_client (codes "Transmission")
    then some transmission
    else none

-- The body of the loop of decodeHistory: the event of a row that is not passed over.
unfoldable pub event_of : Row → Option Event
event_of row =
    if is_empty (trim_space row.source_title)
      || not (valid_torrent_hash (hash_of row))
      || has_control row.source_title
    then none
    else elim (downloader_of row) [
      | none ↦ none
      | some client ↦
          some (record { source_title = row.source_title; hash = hash_of row; downloader = client })
    ]

unfoldable pub events_of : List Row → List Event
events_of [] = []
events_of (row ∷ rows) =
    let rest = events_of rows in elim (event_of row) [ none ↦ rest | some e ↦ e ∷ rest ]

abbrev pub max_history_bytes : ℕ
max_history_bytes = 2 ^ 20

-- historyRequestError
unfoldable pub history_request_error : SendError → HistoryError
history_request_error e =
    if e.is_canceled
    then history_canceled
    else if e.past_deadline
    then history_timeout
    else if e.network_timeout
    then history_timeout
    else history_transport

-- What http.Client.Do gives: an error, or a status with a body.
pub data Reply : Type 0 where
  no_reply : SendError → Reply
  reply : ℕ → Body → Reply

-- Packages net/url, time and encoding/json: url.Parse, the query of the request for a key and an instant, and
-- the rows of a document that nothing follows.
module _ (parse_url : Text → Option Url) (query : Text → ℤ → Text)
    (rows_of : Text → Option (List Row)) where
  -- historyURL
  unfoldable pub history_url : Endpoint → ℤ → Result HistoryError Url
  history_url endpoint since = do
    _ ← check (not (is_empty (trim_space endpoint.api_key))) invalid_endpoint
    _ ← check (not (has_control endpoint.url)) invalid_endpoint
    _ ← check (not (has_control endpoint.api_key)) invalid_endpoint
    u ← or_fail (parse_url endpoint.url) invalid_endpoint
    _ ← check (text_eq u.scheme (codes "http") || text_eq u.scheme (codes "https")) invalid_endpoint
    _ ← check (not (is_empty u.host)) invalid_endpoint
    _ ← check (not u.has_user) invalid_endpoint
    _ ← check (is_empty u.raw_query) invalid_endpoint
    _ ← check (is_empty u.fragment) invalid_endpoint
    ok (record u {
      path = trim_slashes u.path ++ codes "/api/v3/history/since";
      raw_query = query endpoint.api_key since;
    })

  -- decodeHistory
  unfoldable pub decode_history : Text → Result HistoryError (List Event)
  decode_history body = do rows ← or_fail (rows_of body) history_body; ok (events_of rows)

  -- The end of Fetch, from the answer.
  unfoldable pub read_history : Reply → Result HistoryError (List Event)
  read_history (no_reply e) = err (history_request_error e)
  read_history (reply status body) = do
    _ ← check (not (is_redirect status)) history_redirect
    _ ← check (is_success status) history_status
    elim body [
      | broken e ↦ err history_body
      | received bytes ↦
          let read = take (max_history_bytes + 1) bytes in
          if leb (length read) max_history_bytes then decode_history read else err history_body
    ]

  -- Fetch
  unfoldable pub fetch :
      {W : Type 0} → (Url → W → Reply × W) → Endpoint → ℤ → W → Result HistoryError (List Event) × W
  fetch send endpoint since w = elim (history_url endpoint since) [
    | err e ↦ (err e, w)
    | ok target ↦ let answer = send target w in (read_history answer.0, answer.1)
  ]
