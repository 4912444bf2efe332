-- ===== src/Downloader/Transmission/Operations.antt =====
-- internal/downloader/transmission: operations.go, config.go and Login of client.go.
pub mod Sessions
pub mod Honesty
pub mod Repeats
pub mod Requests
mod Examples
use jproxy_go.Common.{
  ◌&&◌, ◌||◌, not, Option, none, some, List, [], ◌∷◌, ◌++◌, ℤ, ltb_ℤ, eq_ℤ, pos, if◌then◌else◌,
  Text, codes, text_eq, is_empty, trim_space, replace_all, path_dir, path_base, Result, ◌>>=◌,
  or_fail, check, ok, err,
}
use jproxy_go.Runtime.Snapshot.{Snapshot}
use jproxy_go.Transmissionconfig.{validate_credentials, parse_endpoint}
use jproxy_go.Downloader.{
  ClientError, Failure, invalid_argument, valid_rename_name, valid_file_path, file_names, bare,
  then_with, invalid_config, malformed_response, invalid_path, unknown_torrent, plain,
}
use jproxy_go.Downloader.Transmission.Calls.{call, call_mutation}
use jproxy_go.Downloader.Transmission.{
  Settings, Client, TorrentWire, Codec, Env, session_get, torrent_get, rename_path,
}

-- Torrent
pub record Torrent : Type 0 where
  pub id : ℤ
  pub name : Text
  pub files : List Text

module _ {J : Type 0} (codec : Codec J) where
  -- The method decodeArguments of *sessionGetResponse
  unfoldable pub decode_session : J → Result ClientError Text
  decode_session arguments = do
    wire ← or_fail (codec.version_of arguments) malformed_response
    version ← or_fail wire malformed_response
    _ ← check (not (is_empty (trim_space version))) malformed_response
    ok version

  -- The method decodeArguments of *torrentGetResponse
  unfoldable pub decode_torrents : J → Result ClientError (List (TorrentWire J))
  decode_torrents arguments = do
    wire ← or_fail (codec.torrents_of arguments) malformed_response
    torrents ← or_fail wire malformed_response
    _ ← check (not (codec.is_null torrents)) malformed_response
    or_fail (codec.torrent_list torrents) malformed_response

  -- The method decodeArguments of *renamePathResponse
  unfoldable pub decode_rename : ℤ → Text → Text → J → Result ClientError (Unit {0})
  decode_rename expected_id expected_path expected_name arguments = do
    wire ← or_fail (codec.rename_of arguments) malformed_response
    path ← or_fail wire.path malformed_response
    name ← or_fail wire.name malformed_response
    raw ← or_fail wire.id malformed_response
    _ ← check (not (codec.is_null raw)) malformed_response
    _ ← check (text_eq path expected_path) malformed_response
    _ ← check (text_eq name expected_name) malformed_response
    id ← or_fail (codec.int64_of raw) malformed_response
    check (ltb_ℤ (pos 0) id && eq_ℤ id expected_id) malformed_response

  -- The tests of torrent on the torrents of an answer.
  unfoldable pub torrent_of : List (TorrentWire J) → Result ClientError Torrent
  torrent_of [] = err unknown_torrent
  torrent_of (wire ∷ []) = do
    name ← or_fail wire.name malformed_response
    _ ← check (not (is_empty (trim_space name))) malformed_response
    files ← or_fail wire.files malformed_response
    raw ← or_fail wire.id malformed_response
    id ← or_fail (codec.int64_of raw) malformed_response
    _ ← check (ltb_ℤ (pos 0) id) malformed_response
    names ← file_names files
    ok (record { id = id; name = name; files = names })
  torrent_of (wire ∷ other ∷ wires) = err malformed_response

  -- currentConfig, of the snapshot that is read
  unfoldable pub settings_of : Snapshot → Result ClientError Settings
  settings_of s = do
    endpoint ← or_fail (parse_endpoint codec.parse_url s.transmission_url) invalid_config
    _ ← check (validate_credentials s.transmission_username s.transmission_password) invalid_config
    ok (record {
      endpoint = endpoint;
      username = s.transmission_username;
      password = s.transmission_password;
      revision = s.transmission_revision;
    })

module _ {J W : Type 0} (codec : Codec J) (extension : Text → Option Text) (env : Env W) where
  -- currentConfig
  unfoldable pub current_config : Client W → Result Failure Settings × Client W
  current_config c =
      let read = env.snapshot c.world in
      (bare (settings_of codec read.0), record c { world = read.1 })

  -- Login, with callCurrent
  unfoldable pub login : Client W → Result Failure Text × Client W
  login c =
      then_with (current_config c)
        (λ cfg. call codec env cfg (session_get (codes "version" ∷ [])) (decode_session codec))

  -- torrent
  unfoldable pub torrent : Settings → Text → Client W → Result Failure Torrent × Client W
  torrent cfg hash c =
      let fields = codes "id" ∷ codes "name" ∷ codes "files" ∷ [] in
      then_with (call codec env cfg (torrent_get (hash ∷ []) fields) (decode_torrents codec) c)
        (λ wires d. (bare (torrent_of codec wires), d))

  -- Torrent
  unfoldable pub find_torrent : Text → Client W → Result Failure Torrent × Client W
  find_torrent hash c =
      if invalid_argument hash
      then (err (plain invalid_config), c)
      else then_with (current_config c) (λ cfg. torrent cfg hash)

  -- Name
  unfoldable pub torrent_name : Text → Client W → Result Failure Text × Client W
  torrent_name hash c = then_with (find_torrent hash c) (λ t d. (ok t.name, d))

  -- Files
  unfoldable pub torrent_files : Text → Client W → Result Failure (List Text) × Client W
  torrent_files hash c = then_with (find_torrent hash c) (λ t d. (ok t.files, d))

  -- renamePath
  unfoldable pub send_rename :
      Settings → ℤ → Text → Text → Client W → Result Failure (Unit {0}) × Client W
  send_rename cfg id old_path name =
      call_mutation codec env cfg (rename_path (id ∷ []) old_path name)
        (decode_rename codec id old_path name)

  -- The name that Rename gives a torrent: no colon, and the extension of a video or a subtitle.
  unfoldable pub target_name : Text → Text → Text
  target_name name old =
      let target = replace_all name (codes ":") (codes "_") in
      elim (extension old) [ none ↦ target | some e ↦ target ++ e ]

  -- The end of Rename.
  unfoldable pub rename_to :
      Text → Settings → Torrent → Client W → Result Failure (Unit {0}) × Client W
  rename_to name cfg t c =
      if text_eq t.name (target_name name t.name)
      then (ok tt, c)
      else send_rename cfg t.id t.name (target_name name t.name) c

  -- Rename
  unfoldable pub rename : Text → Text → Client W → Result Failure (Unit {0}) × Client W
  rename hash name c =
      if invalid_argument hash
      then (err (plain invalid_config), c)
      else if not (valid_rename_name name)
      then (err (plain invalid_path), c)
      else then_with (current_config c)
          (λ cfg d. then_with (torrent cfg hash d) (rename_to name cfg))

  -- RenameFile
  unfoldable pub rename_file : Text → Text → Text → Client W → Result Failure (Unit {0}) × Client W
  rename_file hash old_path new_path c =
      if invalid_argument hash
      then (err (plain invalid_config), c)
      else if not (valid_file_path old_path)
          || not (valid_file_path new_path)
          || not (text_eq (path_dir old_path) (path_dir new_path))
      then (err (plain invalid_path), c)
      else then_with (current_config c) (λ cfg d.
        then_with (torrent cfg hash d) (λ t. send_rename cfg t.id old_path (path_base new_path)))
