-- ===== src/Downloader/Qbittorrent/Operations/Examples.antt =====
-- An endpoint that gives a cookie, while the configuration is published again after each of the first requests.
use jproxy_go.Common.{
  ℕ, ◌+◌, ◌-◌, ◌≤◌, ◌≡◌, refl, true, false, none, some, List, [], ◌∷◌, arith, ◌==◌, if◌then◌else◌,
  length, codes, text_eq, is_control, has_control,
}
use jproxy_go.Config.{no_config, no_sonarr_config}
use jproxy_go.Runtime.Snapshot.{Snapshot}
use jproxy_go.Transmissionconfig.{Url}
use jproxy_go.Downloader.{then_with, unfinished, received, admitted, stale}
use jproxy_go.Downloader.Qbittorrent.{
  Codec, Env, response_of, settings_of, is_sid, choose_cookie, is_usable, build, send_request,
  answered,
}
use jproxy_go.Downloader.Qbittorrent.Operations.{
  current_config, save_session, logged_in, login_round, login,
}
use jproxy_go.Downloader.Qbittorrent.Operations.Cookies.{is_honest, asked}
use jproxy_go.Downloader.Qbittorrent.Operations.Runs.{
  Operation, new_client, run, run_all, run_all-is_honest, run-sends, log_in, list_files,
  rename_torrent, rename_torrent_file,
}
use jproxy_go.Downloader.Qbittorrent.Operations.Login.{IsSettling}
use jproxy_go.Downloader.Qbittorrent.Operations.Ending.{run_ends}

abbrev published : ℕ → Snapshot
published revision = record {
  radarr = no_config;
  sonarr = no_sonarr_config;
  radarr_candidates = [];
  sonarr_candidates = [];
  jackett_url = [];
  prowlarr_url = [];
  qbittorrent_url = codes "h";
  qbittorrent_username = codes "u";
  qbittorrent_password = codes "p";
  qbittorrent_revision = revision;
  transmission_url = [];
  transmission_username = [];
  transmission_password = [];
  transmission_revision = 0;
  radarr_revision = 0;
  sonarr_revision = 0;
  radarr_search_revision = 0;
  sonarr_search_revision = 0;
}

abbrev host : Url
host = record {
  scheme = codes "http";
  host = codes "h";
  opaque = [];
  has_user = false;
  raw_query = [];
  force_query = false;
  fragment = [];
  path = [];
  raw_path = [];
}

abbrev plain_codec : Codec
plain_codec = record {
  parse_url = λ _. some host;
  encode = λ _. codes "f";
  escape = λ s. s;
  file_list = λ _. some (codes "a" ∷ []);
}

-- The world is the number of publications to come, and the revision too.
abbrev settles : Env ℕ
settles = record {
  snapshot = λ w. (published w, w);
  can_build = λ _. true;
  send = λ _ w. (
    answered (record {
      status = 200;
      cookies = record { name = codes "SID"; value = codes "v" } ∷ [];
      body = received (codes "[]");
      closes = true;
    }),
    w - 1,
  );
  can_admit = true;
  admit = λ revision w. (if revision == w then admitted else stale, w);
  wait = λ w. (none, w);
}

settles-IsSettling : IsSettling settles (λ w. w)
settles-IsSettling = record {
  moves = record {
    at_snapshot = λ w. omega arith;
    at_send = λ q w. omega arith;
    at_admit = λ n w. omega arith;
    at_wait = λ w. omega arith;
  };
  steady_snapshot = λ w h. refl;
  steady_send = λ q w h. h;
}

abbrev operations : List Operation
operations =
    list_files (codes "h")
    ∷ rename_torrent (codes "h") (codes "n")
    ∷ rename_torrent_file (codes "h") (codes "d/a") (codes "d/b")
    ∷ []

-- Two publications, so login asks three times.
three_rounds :
    let c = (run plain_codec settles 3 log_in (new_client 2)).1 in
    (length c.log ≡ 3) × (c.session.revision ≡ 0)
unfolding run login login_round current_config then_with settings_of has_control is_control text_eq
    is_usable logged_in save_session send_request response_of choose_cookie is_sid build
three_rounds = (refl, refl)

run_all-is_honest_example :
    is_honest (run_all plain_codec settles 3 operations (new_client 2)) ≡ true
run_all-is_honest_example = run_all-is_honest plain_codec settles 3 operations 2

run-sends_example :
    asked (run plain_codec settles 3 (rename_torrent (codes "h") (codes "n")) (new_client 2)).1.log
    ≤ 2 + asked []
run-sends_example =
    run-sends plain_codec settles 3 (rename_torrent (codes "h") (codes "n")) (new_client 2)

run_ends_example : ¬ (
    (run plain_codec settles 3 (rename_torrent (codes "h") (codes "n")) (new_client 2)).0
    ≡ some unfinished)
run_ends_example =
    run_ends plain_codec settles settles-IsSettling 3 (rename_torrent (codes "h") (codes "n"))
      (new_client 2) (omega arith)
