-- ===== src/Tasks/Rename/Service/Examples.antt =====
-- A history that names a torrent twice, and once in capitals.
use jproxy_go.Common.{
  ℕ, suc, ◌≤◌, ◌≡◌, refl, true, false, none, [], ◌∷◌, pos, Text, codes, text_eq, to_lower, is_space,
  is_control, has_control, trim_space, mem, starts_with, index, contains, last_index, utf8_length,
  split_from, split_slash, join_slash, clean_segments, path_clean, after_slash, up_to_slash,
  path_dir, trim_slashes, path_base, ok,
}
use jproxy_go.Tasks.Rename.{
  valid_segments, valid_path, valid_name, new_path_of, all_valid, plan_from, plan_files,
  radarr_name,
}
use jproxy_go.Tasks.Rename.History.{
  Event, Endpoint, Row, all_hex, valid_torrent_hash, hash_of, qbittorrent,
}
use jproxy_go.Tasks.Rename.Service.{
  Options, unless_failed, unless_stopped, unless_over, is_wanted, ask, rename_files, file_plan,
  rename_planned, plan_of, rename_in_client, rename_event, take_event, run_events, run_fetched, run,
}
use jproxy_go.Tasks.Rename.Service.Commands.{AreFine, rename_run-AreFine}
use jproxy_go.Tasks.Rename.Service.Once.{renames, rename_run_once}

abbrev hash : Text
hash = codes "0123456789abcdef0123456789abcdef01234567"

abbrev grabbed : Event
grabbed = record { source_title = codes "T"; hash = hash; downloader = qbittorrent }

abbrev keep_name : Text → Text → ℕ → Text × ℕ
keep_name title name n = (name, n)

-- The world counts the commands; each succeeds.
abbrev counting : Options ℕ Text
counting = record {
  has_qbittorrent = true;
  has_transmission = true;
  has_config = false;
  files_enabled = true;
  sonarr_format = [];
  extension_of = λ _. none;
  is_subtitle = λ _. false;
  sonarr_name = keep_name;
  now = λ _. pos 100;
  cancelled = λ _. none;
  value_by_key = λ _ w. (ok [], w);
  history = λ _ _ w. (ok (grabbed ∷ grabbed ∷ []), w);
  list_files = λ _ w. (ok (codes "d/a.mkv" ∷ []), w);
  command = λ _ w. (none, suc w);
}

abbrev sonarr : Endpoint
sonarr = record { url = codes "http://s"; api_key = codes "k" }

-- One rename of the torrent and one of its file.
renamed_once : (run counting sonarr (pos 5) true 0).1.world ≡ 2
unfolding run run_fetched run_events unless_over take_event is_wanted valid_torrent_hash utf8_length
    all_hex valid_name valid_path valid_segments split_slash split_from join_slash clean_segments
    path_clean path_dir path_base up_to_slash after_slash trim_slashes new_path_of starts_with
    contains index last_index has_control is_control text_eq mem rename_event rename_in_client
    plan_of file_plan plan_files plan_from radarr_name all_valid rename_planned unless_failed ask
    rename_files unless_stopped trim_space
renamed_once = refl

rename_run-AreFine_example : AreFine counting (run counting sonarr (pos 5) true 0).1
rename_run-AreFine_example = rename_run-AreFine counting sonarr (pos 5) true 0

rename_run_once_example : renames hash (run counting sonarr (pos 5) true 0).1.log ≤ 1
rename_run_once_example = rename_run_once counting hash sonarr (pos 5) 0

-- A hash that is taken from the torrent keeps its capitals, one that is the identifier of the download does
-- not, so that the same torrent has two hashes.
two_hashes :
    let row : Row = record {
      source_title = codes "T";
      download_id = [];
      torrent_info_hash = codes "AB";
      download_client = [];
    } in
    (hash_of row ≡ codes "AB") × (hash_of (record row { download_id = codes "AB" }) ≡ codes "ab")
unfolding hash_of trim_space is_space to_lower
two_hashes = (refl, refl)
