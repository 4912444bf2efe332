-- ===== src/Downloader/Qbittorrent/Operations.antt =====
-- internal/downloader/qbittorrent: login of client.go, operations.go and mutation.go. The loop of login has
-- fuel: it goes round again only when the configuration changed while it asked.
pub mod Cookies
pub mod Steps
pub mod Attempts
pub mod Runs
pub mod Login
pub mod Ending
mod Examples
use jproxy_go.Common.{
  ℕ, zero, suc, ◌+◌, Bool, true, ◌&&◌, ◌||◌, not, List, [], ◌∷◌, ◌++◌, leb, ◌==◌, if◌then◌else◌,
  length, take, Text, codes, text_eq, is_empty, Result, ◌>>=◌, or_fail, check, ok, err,
}
use jproxy_go.Downloader.{
  ClientError, Failure, Body, max_response_bytes, is_success, is_unauthorized, invalid_argument,
  valid_rename_name, valid_file_path, file_names, bare, then_with, invalid_config, authentication,
  upstream_status, response_too_large, malformed_response, transport_failed, close_failed, plain,
  http_error, unfinished, received, broken,
}
use jproxy_go.Downloader.Qbittorrent.{
  Cookie, Session, no_cookie, no_session, Settings, Call, Response, Client, Codec, Env, settings_of,
  choose_cookie, is_usable, login_call, send_request, admitted_request,
}

-- The session is dropped if it is still the one that was refused.
unfoldable pub forget : {W : Type 0} → Session → Client W → Client W
forget saved c =
    if c.session.revision == saved.revision && text_eq c.session.cookie.value saved.cookie.value
    then record c { session = no_session }
    else c

module _ {W : Type 0} (codec : Codec) (env : Env W) where
  -- currentConfig
  unfoldable pub current_config : Client W → Result Failure Settings × Client W
  current_config c =
      let read = env.snapshot c.world in
      (bare (settings_of codec read.0), record c { world = read.1 })

  -- The end of a round of login, when a cookie was given: the configuration is read again.
  unfoldable pub save_session :
      Settings
      → Cookie
      → (Client W → Result Failure (Unit {0}) × Client W)
      → Client W
      → Result Failure (Unit {0}) × Client W
  save_session cfg saved again c = then_with (current_config c) (λ latest d.
      if not (latest.revision == cfg.revision)
      then again d
      else (ok tt, record d { session = record { cookie = saved; revision = cfg.revision } }))

  -- What a round of login does with the answer.
  unfoldable pub logged_in :
      Settings
      → (Client W → Result Failure (Unit {0}) × Client W)
      → Result ClientError Response × Client W
      → Result Failure (Unit {0}) × Client W
  logged_in cfg again (err e, c) = (err (plain e), c)
  logged_in cfg again (ok r, c) =
      let saved = choose_cookie no_cookie r.cookies in
      if not (is_success r.status)
      then (err (http_error (codes "login") authentication r.status), c)
      else if is_empty saved.value
      then (err (http_error (codes "login") authentication r.status), c)
      else save_session cfg saved again c

  -- A round of login.
  unfoldable pub login_round :
      Bool
      → (Client W → Result Failure (Unit {0}) × Client W)
      → Client W
      → Result Failure (Unit {0}) × Client W
  login_round reuse again c = then_with (current_config c) (λ cfg d.
      if reuse && is_usable cfg.revision d.session
      then (ok tt, d)
      else logged_in cfg again (send_request env cfg (login_call codec cfg) no_cookie d))

  -- login
  unfoldable pub login : ℕ → Bool → Client W → Result Failure (Unit {0}) × Client W
  login zero reuse c = (err unfinished, c)
  login (suc fuel) reuse c = login_round reuse (login fuel reuse) c

  -- The end of sessionFor, after login.
  unfoldable pub read_session : Client W → Result Failure (Settings × Session) × Client W
  read_session c = then_with (current_config c) (λ cfg d.
      if not (is_usable cfg.revision d.session)
      then (err (plain authentication), d)
      else (ok (cfg, d.session), d))

  -- sessionFor
  unfoldable pub session_for : ℕ → Client W → Result Failure (Settings × Session) × Client W
  session_for fuel c = then_with (current_config c) (λ cfg d.
      if is_usable cfg.revision d.session
      then (ok (cfg, d.session), d)
      else then_with (login fuel true d) (λ _. read_session))

  module _ (fuel : ℕ)
      (ask : Settings → Call → Cookie → Client W → Result ClientError Response × Client W)
      (call : Call) where
    -- What an attempt does with its answer; `again` is the next attempt, if it is not the last.
    unfoldable pub after_answer :
        Bool
        → Session
        → (Client W → Result Failure Response × Client W)
        → Result ClientError Response × Client W
        → Result Failure Response × Client W
    after_answer last saved again (err e, c) = (err (plain e), c)
    after_answer last saved again (ok r, c) =
        if not (is_unauthorized r.status)
        then if is_success r.status
          then (ok r, c)
          else (err (http_error (codes "request") upstream_status r.status), c)
        else if last
        then (err (http_error (codes "request") authentication r.status), forget saved c)
        else then_with (login fuel true (forget saved c)) (λ _. again)

    -- The body of the loop of authenticated.
    unfoldable pub attempt :
        Bool
        → (Client W → Result Failure Response × Client W)
        → Client W
        → Result Failure Response × Client W
    attempt last again c =
        then_with (session_for fuel c)
          (λ found d. after_answer last found.1 again (ask found.0 call found.1.cookie d))

    unfoldable pub attempts : ℕ → Client W → Result Failure Response × Client W
    attempts zero c = (err (plain authentication), c)
    attempts (suc n) c = attempt (n == 0) (attempts n) c

  -- authenticated
  unfoldable pub authenticated : ℕ → Call → Client W → Result Failure Response × Client W
  authenticated fuel call = attempts fuel (send_request env) call 2

  -- authenticatedMutation
  unfoldable pub authenticated_mutation : ℕ → Call → Client W → Result Failure Response × Client W
  authenticated_mutation fuel call = attempts fuel (admitted_request env) call 2

  -- The names in the body of an answer: the limit on its length, and the document.
  unfoldable pub names_of : Body → Result ClientError (List Text)
  names_of (broken e) = err transport_failed
  names_of (received bytes) = do
    let read = take (max_response_bytes + 1) bytes
    _ ← check (leb (length read) max_response_bytes) response_too_large
    files ← or_fail (codec.file_list read) malformed_response
    file_names files

  -- Files
  unfoldable pub files : ℕ → Text → Client W → Result Failure (List Text) × Client W
  files fuel hash c =
      if invalid_argument hash
      then (err (plain invalid_config), c)
      else then_with
          (authenticated fuel
            (record {
              method = codes "GET";
              path = codes "/api/v2/torrents/files";
              query = codes "hash=" ++ codec.escape hash;
              form = [];
            })
            c)
          (λ r d. (bare (names_of r.body), d))

  -- postMutation
  unfoldable pub post_mutation :
      ℕ → Text → List (Text × Text) → Client W → Result Failure (Unit {0}) × Client W
  post_mutation fuel path values c =
      then_with
        (authenticated_mutation fuel
          (record { method = codes "POST"; path = path; query = []; form = codec.encode values }) c)
        (λ r d. (bare (check r.closes close_failed), d))

  -- Rename
  unfoldable pub rename : ℕ → Text → Text → Client W → Result Failure (Unit {0}) × Client W
  rename fuel hash name c =
      if invalid_argument hash || not (valid_rename_name name)
      then (err (plain invalid_config), c)
      else post_mutation fuel (codes "/api/v2/torrents/rename")
          ((codes "hash", hash) ∷ (codes "name", name) ∷ []) c

  -- RenameFile
  unfoldable pub rename_file :
      ℕ → Text → Text → Text → Client W → Result Failure (Unit {0}) × Client W
  rename_file fuel hash old_path new_path c =
      if invalid_argument hash || not (valid_file_path old_path) || not (valid_file_path new_path)
      then (err (plain invalid_config), c)
      else post_mutation fuel (codes "/api/v2/torrents/renameFile")
          ((codes "hash", hash) ∷ (codes "oldPath", old_path) ∷ (codes "newPath", new_path) ∷ []) c
