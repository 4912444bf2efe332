-- ===== src/Runtime/Snapshot/Examples.antt =====
-- The theorems about the snapshot at concrete inputs, and tests.
use jproxy_go.Common.{◌≡◌, refl, ◌≢◌, Bool, true, false, none, some, [], ◌∷◌, arith, codes}
use jproxy_go.Runtime.Snapshot.{
  all_scopes, no_scope, Source, Snapshot, take_radarr, take_sonarr, take_searches, take_base,
  snapshot_from_sqlite, admit_qbittorrent, admit_transmission,
}
use jproxy_go.Runtime.Snapshot.Stages.{SameRest, SameRadarr, SameSonarr}
use jproxy_go.Runtime.Snapshot.Revisions.{
  Publication, publish, publish_all, radarr_view, sonarr_view, qbittorrent_view, transmission_view,
  IsNumbered, search_revisions_tell, admitted_unchanged,
}
use jproxy_go.Runtime.Snapshot.Refresh.{
  Answers, refresh, refresh_all_or_nothing, SearchesMoved, publish_frame, canceled,
}

abbrev old_source : Source
old_source = record {
  radarr = record { format = codes "{title}"; clean_title_regex = []; rules = []; titles = [] };
  sonarr = record { format = codes "{title}"; clean_title_regex = []; rules = []; titles = [] };
  radarr_candidates = [];
  sonarr_candidates = [];
  jackett_url = codes "http://j";
  prowlarr_url = codes "http://p";
  qbittorrent_url = [];
  qbittorrent_username = [];
  qbittorrent_password = [];
  transmission_url = [];
  transmission_username = [];
  transmission_password = [];
}

abbrev new_source : Source
new_source = record old_source { jackett_url = codes "http://k" }

abbrev snapshot : Snapshot
snapshot = record {
  radarr = old_source.radarr;
  sonarr = old_source.sonarr;
  radarr_candidates = [];
  sonarr_candidates = [];
  jackett_url = old_source.jackett_url;
  prowlarr_url = old_source.prowlarr_url;
  qbittorrent_url = [];
  qbittorrent_username = [];
  qbittorrent_password = [];
  qbittorrent_revision = 1;
  transmission_url = [];
  transmission_username = [];
  transmission_password = [];
  transmission_revision = 1;
  radarr_revision = 2;
  sonarr_revision = 18446744073709551615;
  radarr_search_revision = 1;
  sonarr_search_revision = 1;
}

abbrev sonarr_rules_only : Publication
sonarr_rules_only = record { source = new_source; scopes = record no_scope { sonarr_rules = true } }

snapshot-IsNumbered : IsNumbered snapshot
snapshot-IsNumbered = omega arith

-- The revision of Sonarr wraps, and the new URL is not taken.
sonarr_rules_published :
    ((publish snapshot sonarr_rules_only).sonarr_revision ≡ 0)
    × ((publish snapshot sonarr_rules_only).radarr_revision ≡ 2)
    × ((publish snapshot sonarr_rules_only).jackett_url ≡ codes "http://j")
unfolding publish snapshot_from_sqlite take_base take_radarr take_sonarr take_searches
sonarr_rules_published = (refl, refl, refl)

-- All scopes at once count twice for the formatters.
all_scopes_published :
    (publish snapshot (record { source = new_source; scopes = all_scopes })).radarr_revision ≡ 4
unfolding publish snapshot_from_sqlite take_base take_radarr take_sonarr take_searches
all_scopes_published = refl

search_revisions_tell_example :
    let t = publish_all snapshot (sonarr_rules_only ∷ []) in
    (t.radarr_revision ≡ 2 → radarr_view t ≡ radarr_view snapshot)
    × (t.sonarr_revision ≡ 18446744073709551615 → sonarr_view t ≡ sonarr_view snapshot)
    × (t.radarr_search_revision ≡ 1 → t.radarr_candidates ≡ [])
    × (t.sonarr_search_revision ≡ 1 → t.sonarr_candidates ≡ [])
search_revisions_tell_example =
    search_revisions_tell snapshot (sonarr_rules_only ∷ []) snapshot-IsNumbered (omega arith)

admitted_unchanged_example :
    let t = publish_all snapshot (sonarr_rules_only ∷ []) in
    (admit_qbittorrent 1 t ≡ true → qbittorrent_view t ≡ qbittorrent_view snapshot)
    × (admit_transmission 1 t ≡ true → transmission_view t ≡ transmission_view snapshot)
admitted_unchanged_example =
    admitted_unchanged snapshot (sonarr_rules_only ∷ []) snapshot-IsNumbered (omega arith)

abbrev late_cancel : Answers
late_cancel = record {
  canceled_first = false;
  canceled_locked = false;
  loaded = some new_source;
  canceled_last = true;
}

canceled_refresh : refresh true all_scopes late_cancel snapshot ≡ (snapshot, some canceled)
unfolding refresh
canceled_refresh = refl

refresh_all_or_nothing_example :
    (some canceled ≢ none → snapshot ≡ snapshot)
    × (some canceled ≡ none
        → (source : Source) × (late_cancel.loaded ≡ some source)
          × (snapshot ≡ publish snapshot (record { source = source; scopes = all_scopes })))
refresh_all_or_nothing_example =
    refresh_all_or_nothing all_scopes late_cancel snapshot snapshot (some canceled) refl
      canceled_refresh

publish_frame_example :
    let t = publish snapshot sonarr_rules_only in
    (◌≡◌ {A = Bool} false false
      → ◌≡◌ {A = Bool} false false
      → ◌≡◌ {A = Bool} false false
      → SameRadarr snapshot t × (t.radarr_search_revision ≡ snapshot.radarr_search_revision))
    × (◌≡◌ {A = Bool} false false
        → ◌≡◌ {A = Bool} true false
        → ◌≡◌ {A = Bool} false false
        → SameSonarr snapshot t × (t.sonarr_search_revision ≡ snapshot.sonarr_search_revision))
    × (◌≡◌ {A = Bool} false false → SameRest snapshot t)
    × SearchesMoved sonarr_rules_only.scopes snapshot t
publish_frame_example = publish_frame snapshot sonarr_rules_only
