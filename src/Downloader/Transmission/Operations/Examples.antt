-- ===== src/Downloader/Transmission/Operations/Examples.antt =====
-- A torrent is renamed by an endpoint that asks for its session identifier, and then a file.
use jproxy_go.Common.{
  ℕ, ◌≡◌, refl, true, false, none, some, List, [], ◌∷◌, pos, ◌==◌, if◌then◌else◌, Text, codes,
  text_eq, is_space, is_control, has_control, trim_space, starts_with, index, contains,
  replace_all_from, replace_all, trim_suffix, has_suffix, utf8_length, ok,
}
use jproxy_go.Config.{no_config, no_sonarr_config}
use jproxy_go.Runtime.Snapshot.{Snapshot}
use jproxy_go.Transmissionconfig.{
  Url, is_safe_endpoint, dot_segment_from, has_dot_segment, is_safe_trimmed, is_safe_path,
  normalized_trimmed, normalized_path, is_readable, validate_credentials, parse_endpoint,
}
use jproxy_go.Downloader.{
  invalid_argument, valid_rename_name, file_names, then_with, received, admitted, stale,
}
use jproxy_go.Downloader.Transmission.Calls.{
  marshal_request, decode_response, decode_body, finish, after_second, challenged, after_first,
  exchange_body, call, call_mutation,
}
use jproxy_go.Downloader.Transmission.{
  Response, Outcome, Codec, Env, response_of, session_for, compare_and_swap_session, send_request,
  await, begin, admitted_request, config_unchanged, answered, failed,
}
use jproxy_go.Downloader.Transmission.Operations.{
  decode_torrents, decode_rename, torrent_of, settings_of, current_config, torrent, send_rename,
  target_name, rename_to, rename,
}
use jproxy_go.Downloader.Transmission.Operations.Sessions.{is_honest}
use jproxy_go.Downloader.Transmission.Operations.Requests.{AreCalls, perform-AreCalls}
use jproxy_go.Downloader.Transmission.Operations.Honesty.{
  Operation, new_client, perform, perform_all, perform_all-is_honest, look_up, rename_torrent,
  rename_torrent_file,
}

abbrev published : Snapshot
published = record {
  radarr = no_config;
  sonarr = no_sonarr_config;
  radarr_candidates = [];
  sonarr_candidates = [];
  jackett_url = [];
  prowlarr_url = [];
  qbittorrent_url = [];
  qbittorrent_username = [];
  qbittorrent_password = [];
  qbittorrent_revision = 0;
  transmission_url = codes "http://host/";
  transmission_username = [];
  transmission_password = [];
  transmission_revision = 7;
  radarr_revision = 0;
  sonarr_revision = 0;
  radarr_search_revision = 0;
  sonarr_search_revision = 0;
}

abbrev host : Url
host = record {
  scheme = codes "http";
  host = codes "host";
  opaque = [];
  has_user = false;
  raw_query = [];
  force_query = false;
  fragment = [];
  path = codes "/transmission/rpc";
  raw_path = [];
}

-- Raw messages are numbers; every answer has the same torrent, and renames it as it is asked.
abbrev numbers : Codec ℕ
numbers = record {
  marshal = λ _. some (codes "{}");
  envelope = λ _. some (record { result = some (codes "success"); arguments = some 5 }, true);
  is_null = λ n. n == 0;
  version_of = λ _. some (some (codes "4.0"));
  torrents_of = λ n. some (some n);
  torrent_list =
      λ n. some (record { id = some n; name = some (codes "old"); files = some [] } ∷ []);
  rename_of =
      λ n. some (record { path = some (codes "old"); name = some (codes "new"); id = some n });
  int64_of = λ n. some (pos n);
  parse_url = λ _. some host;
}

abbrev reply : ℕ → Text → Response
reply status id = record { status = status; session_id = id; body = received (codes "{}") }

abbrev next_answer : List Response → Outcome × List Response
next_answer [] = (
  failed (record {
    is_canceled = false;
    past_deadline = true;
    use_last_response = false;
    network_timeout = false;
  }),
  [],
)
next_answer (r ∷ rs) = (answered r, rs)

-- The answers that are left are the world.
abbrev scripted : Env (List Response)
scripted = record {
  snapshot = λ w. (published, w);
  can_build = λ _. true;
  send = λ _ w. next_answer w;
  can_admit = true;
  admit = λ revision w. (if revision == 7 then admitted else stale, w);
  wait = λ w. (none, w);
}

abbrev script : List Response
script = reply 409 (codes "s") ∷ reply 200 [] ∷ reply 200 [] ∷ []

abbrev operations : List Operation
operations =
    rename_torrent (codes "h") (codes "new")
    ∷ rename_torrent_file (codes "h") (codes "a") (codes "b")
    ∷ []

renamed :
    (rename numbers (λ _. none) scripted (codes "h") (codes "new") (new_client script)).0 ≡ ok tt
unfolding rename invalid_argument has_control is_control valid_rename_name trim_space is_space
    contains index starts_with text_eq then_with current_config settings_of parse_endpoint
    is_readable utf8_length has_suffix replace_all replace_all_from trim_suffix decode_rename
    decode_torrents rename_to send_rename target_name torrent torrent_of admitted_request
    after_first after_second await begin call call_mutation challenged compare_and_swap_session
    config_unchanged decode_body decode_response exchange_body finish marshal_request response_of
    send_request session_for file_names dot_segment_from has_dot_segment is_safe_endpoint
    is_safe_path is_safe_trimmed normalized_path normalized_trimmed validate_credentials
renamed = refl

perform_all-is_honest_example :
    is_honest (perform_all numbers (λ _. none) scripted operations (new_client script)) ≡ true
perform_all-is_honest_example = perform_all-is_honest numbers (λ _. none) scripted operations script

perform-AreCalls_example :
    AreCalls
      (look_up (codes "h"))
      []
      (perform numbers (λ _. none) scripted (look_up (codes "h")) (new_client script)).log
perform-AreCalls_example =
    perform-AreCalls numbers (λ _. none) scripted (look_up (codes "h")) (new_client script)
