-- ===== src/Proxy/Downloads/Examples.antt =====
-- A request for the version of qBittorrent, with a header of a single hop and one that Connection names.
use jproxy_go.Common.{
  ◌≡◌, refl, true, false, Option, some, [], ◌∷◌, ◌++◌, Text, codes, text_eq, to_lower, is_space,
  is_control, has_control, trim_space, mem, starts_with, index, contains, split_from, trim_slashes,
}
use jproxy_go.Transmissionconfig.{Url}
use jproxy_go.Downloader.{received}
use jproxy_go.Proxy.Downloads.{
  Incoming, Upstream, Outcome, read_limited, trim_prefix, after_prefix, qbittorrent_path,
  hop_header, connection_values, canonical_names, connection_names, copy_headers,
  copy_end_to_end_headers, upstream_of, qbittorrent_base_url, built, prepare_qbittorrent, pass_on,
  no_answer,
}
use jproxy_go.Proxy.Downloads.Passing.{IsPassable, IsApiPath, pass_on_qbittorrent_lem}

abbrev as_is : Text → Text
as_is name = name

abbrev host : Url
host = record {
  scheme = codes "http";
  host = codes "h";
  opaque = [];
  has_user = false;
  raw_query = [];
  force_query = false;
  fragment = [];
  path = codes "/q/";
  raw_path = [];
}

abbrev parse_host : Text → Option Url
parse_host raw = some host

abbrev version : Incoming
version = record {
  method = codes "GET";
  path = codes "/sonarr/qbittorrent/api/v2/x";
  escaped_path = codes "/sonarr/qbittorrent/api/v2/x";
  raw_query = codes "a=b";
  headers =
      (codes "Connection", codes "X-A, Close" ∷ [])
      ∷ (codes "X-A", codes "1" ∷ [])
      ∷ (codes "Te", codes "2" ∷ [])
      ∷ (codes "Accept", codes "3" ∷ codes "4" ∷ [])
      ∷ [];
  body = received [];
}

abbrev passed_version : Upstream
passed_version = record {
  method = codes "GET";
  target = record host { path = codes "/q/api/v2/x"; raw_query = codes "a=b" };
  headers = (codes "Accept", codes "3") ∷ (codes "Accept", codes "4") ∷ [];
  body = [];
}

abbrev silent : Upstream → Outcome
silent u = no_answer true

version_path : qbittorrent_path version.path version.escaped_path ≡ some (codes "/api/v2/x")
unfolding qbittorrent_path after_prefix trim_prefix starts_with contains index to_lower text_eq
version_path = refl

version_headers : copy_end_to_end_headers as_is version.headers ≡ passed_version.headers
unfolding copy_end_to_end_headers copy_headers connection_names connection_values canonical_names
    split_from hop_header mem text_eq trim_space is_space
version_headers = refl

version_passed :
    (pass_on as_is silent (prepare_qbittorrent as_is parse_host (λ _. true) (codes "u") version)).1
    ≡ some passed_version
unfolding pass_on prepare_qbittorrent built upstream_of qbittorrent_base_url read_limited text_eq
    has_control is_control trim_slashes
version_passed = rw (version_path, version_headers) refl

pass_on_qbittorrent_lem_example :
    IsPassable as_is version passed_version
    × ((base : Url) × ((p : Text) × (qbittorrent_base_url as_is parse_host (λ _. true) (codes "u")
            ≡ some base)
          × (passed_version.target.path ≡ trim_slashes base.path ++ p)
          × IsApiPath as_is version.path version.escaped_path p))
pass_on_qbittorrent_lem_example =
    pass_on_qbittorrent_lem as_is parse_host (λ _. true) silent (codes "u") version passed_version
      version_passed
