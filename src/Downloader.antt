-- ===== src/Downloader.antt =====
-- internal/downloader: what the clients of qBittorrent and Transmission share. The two packages repeat these
-- declarations; an error of either is a value of one type.
pub mod Transmission
pub mod Qbittorrent
use jproxy_go.Common.{
  ℕ, ◌^◌, Bool, true, false, ◌&&◌, ◌||◌, not, List, [], ◌∷◌, ltb, leb, ◌==◌, if◌then◌else◌, Text,
  codes, text_eq, has_control, is_empty, trim_space, starts_with, contains, split_slash, path_clean,
  Result, ◌>>=◌, check, ok, err,
}

-- errors.go of both packages, the errors of a context, and the error of closing a body (close_failed), which
-- is passed on as it is.
pub data ClientError : Type 0 where
  invalid_config : ClientError
  authentication : ClientError
  upstream_status : ClientError
  upstream_result : ClientError
  timeout : ClientError
  redirect_rejected : ClientError
  response_too_large : ClientError
  malformed_response : ClientError
  transport_failed : ClientError
  invalid_path : ClientError
  unknown_torrent : ClientError
  session_challenge : ClientError
  request_too_large : ClientError
  config_changed : ClientError
  canceled : ClientError
  close_failed : ClientError

-- An error by itself, or an HTTPError with its operation and status. `unfinished` is no value of the code: a
-- loop had no fuel left.
pub data Failure : Type 0 where
  plain : ClientError → Failure
  http_error : Text → ClientError → ℕ → Failure
  unfinished : Failure

-- What is known of an error of http.Client.Do: whether the caller's context is cancelled, the deadline of the
-- request is over, the error is http.ErrUseLastResponse, or it is a timeout of the network.
pub record SendError : Type 0 where
  pub is_canceled : Bool
  pub past_deadline : Bool
  pub use_last_response : Bool
  pub network_timeout : Bool

-- What is known when reading a body fails.
pub record ReadError : Type 0 where
  pub is_canceled : Bool
  pub past_deadline : Bool
  pub past_request_deadline : Bool

pub data Body : Type 0 where
  received : Text → Body
  broken : ReadError → Body

abbrev pub max_response_bytes : ℕ
max_response_bytes = 2 ^ 20

-- Statuses of an answer.
abbrev pub is_success : ℕ → Bool
is_success status = leb 200 status && ltb status 300

abbrev pub is_redirect : ℕ → Bool
is_redirect status = leb 300 status && ltb status 400

abbrev pub is_unauthorized : ℕ → Bool
is_unauthorized status = status == 401 || status == 403

-- invalidArgument, invalidHash
unfoldable pub invalid_argument : Text → Bool
invalid_argument value = is_empty value || has_control value

-- validRenameName
unfoldable pub valid_rename_name : Text → Bool
valid_rename_name value =
    not (is_empty value)
    && not (is_empty (trim_space value))
    && not (has_control value)
    && not (contains (codes "/") value)
    && not (contains (codes "\\") value)
    && not (text_eq value (codes "."))
    && not (text_eq value (codes ".."))

-- The loop of validFilePath.
unfoldable pub valid_components : List Text → Bool
valid_components [] = true
valid_components (x ∷ xs) =
    not (text_eq x (codes ".") || text_eq x (codes "..") || is_empty x) && valid_components xs

-- validFilePath
unfoldable pub valid_file_path : Text → Bool
valid_file_path value =
    if is_empty value
      || has_control value
      || contains (codes "\\") value
      || starts_with (codes "/") value
      || not (text_eq (path_clean value) value)
    then false
    else valid_components (split_slash value)

-- The loop over the names of files, none of which is blank.
unfoldable pub file_names : List Text → Result ClientError (List Text)
file_names [] = ok []
file_names (name ∷ names) = do
  _ ← check (not (is_empty (trim_space name))) malformed_response
  rest ← file_names names
  ok (name ∷ rest)

-- What the admission of a mutation answers: it began, the revision is stale, or another error.
pub data Admission : Type 0 where
  admitted : Admission
  stale : Admission
  refused : ClientError → Admission

-- An error without its operation.
abbrev pub bare : {A : Type 0} → Result ClientError A → Result Failure A
bare (ok a) = ok a
bare (err e) = err (plain e)

-- The next step of an operation, if there was no error.
unfoldable pub then_with :
    {S A B : Type 0} → Result Failure A × S → (A → S → Result Failure B × S) → Result Failure B × S
then_with (err e, c) next = (err e, c)
then_with (ok a, c) next = next a c
