-- ===== src/Runtime/Snapshot.antt =====
-- internal/runtime/snapshot.go, the two admission files and prepared.go: the published snapshot
-- and how it is replaced. Values are immutable here, so the functions that copy slices
-- (cloneRadarr, cloneSonarr, cloneCandidates) are the identity and are left out. A `Scope`, a
-- bit mask of five bits, is a record of five flags. The mutex serialises the publications.
pub mod Stages
pub mod Revisions
pub mod Refresh
mod Examples
use jproxy_go.Common.{ℕ, ◌+◌, Bool, true, false, ◌&&◌, ◌||◌, not, List, ◌==◌, if◌then◌else◌, Text}
use jproxy_go.Format.{Config, SonarrConfig}
use jproxy_go.Search.{Candidate, sonarr_candidates, radarr_candidates}
use jproxy_go.Runtime.Gate.{u64}

-- Scope
pub record Scope : Type 0 where
  pub system_config : Bool
  pub sonarr_rules : Bool
  pub sonarr_titles : Bool
  pub radarr_rules : Bool
  pub radarr_titles : Bool

-- allScopes
abbrev pub all_scopes : Scope
all_scopes = record {
  system_config = true;
  sonarr_rules = true;
  sonarr_titles = true;
  radarr_rules = true;
  radarr_titles = true;
}

abbrev pub no_scope : Scope
no_scope = record {
  system_config = false;
  sonarr_rules = false;
  sonarr_titles = false;
  radarr_rules = false;
  radarr_titles = false;
}

-- scopes == allScopes
abbrev pub is_all : Scope → Bool
is_all s = s.system_config && s.sonarr_rules && s.sonarr_titles && s.radarr_rules && s.radarr_titles

-- scopes == 0
abbrev pub is_none : Scope → Bool
is_none s =
    not (s.system_config || s.sonarr_rules || s.sonarr_titles || s.radarr_rules || s.radarr_titles)

-- sqlite.Snapshot, what the loader reads from the database
pub record Source : Type 0 where
  pub radarr : Config
  pub sonarr : SonarrConfig
  pub radarr_candidates : List Candidate
  pub sonarr_candidates : List Candidate
  pub jackett_url : Text
  pub prowlarr_url : Text
  pub qbittorrent_url : Text
  pub qbittorrent_username : Text
  pub qbittorrent_password : Text
  pub transmission_url : Text
  pub transmission_username : Text
  pub transmission_password : Text

-- Snapshot; the revisions are uint64
pub record Snapshot : Type 0 where
  pub radarr : Config
  pub sonarr : SonarrConfig
  pub radarr_candidates : List Candidate
  pub sonarr_candidates : List Candidate
  pub jackett_url : Text
  pub prowlarr_url : Text
  pub qbittorrent_url : Text
  pub qbittorrent_username : Text
  pub qbittorrent_password : Text
  pub qbittorrent_revision : ℕ
  pub transmission_url : Text
  pub transmission_username : Text
  pub transmission_password : Text
  pub transmission_revision : ℕ
  pub radarr_revision : ℕ
  pub sonarr_revision : ℕ
  pub radarr_search_revision : ℕ
  pub sonarr_search_revision : ℕ

-- revision++
abbrev pub bump : ℕ → ℕ
bump n = u64 (n + 1)

-- The blocks of snapshotFromSQLite, in its order.
unfoldable pub take_all : Source → Snapshot → Snapshot
take_all source s = record s {
  radarr = source.radarr;
  sonarr = source.sonarr;
  radarr_candidates = source.radarr_candidates;
  sonarr_candidates = source.sonarr_candidates;
}

unfoldable pub take_system_config : Source → Snapshot → Snapshot
take_system_config source s = record s {
  radarr = record s.radarr {
    format = source.radarr.format;
    clean_title_regex = source.radarr.clean_title_regex;
  };
  sonarr = record s.sonarr {
    format = source.sonarr.format;
    clean_title_regex = source.sonarr.clean_title_regex;
  };
  jackett_url = source.jackett_url;
  prowlarr_url = source.prowlarr_url;
  qbittorrent_url = source.qbittorrent_url;
  qbittorrent_username = source.qbittorrent_username;
  qbittorrent_password = source.qbittorrent_password;
  qbittorrent_revision = bump s.qbittorrent_revision;
  transmission_url = source.transmission_url;
  transmission_username = source.transmission_username;
  transmission_password = source.transmission_password;
  transmission_revision = bump s.transmission_revision;
  radarr_revision = bump s.radarr_revision;
  sonarr_revision = bump s.sonarr_revision;
}

unfoldable pub take_radarr : Source → Scope → Snapshot → Snapshot
take_radarr source scopes s =
    let s₁ =
      if scopes.radarr_rules || scopes.radarr_titles
      then record s { radarr_revision = bump s.radarr_revision }
      else s in
    let s₂ =
      if scopes.radarr_rules
      then record s₁ { radarr = record s₁.radarr { rules = source.radarr.rules } }
      else s₁ in
    if scopes.radarr_titles
    then record s₂ {
      radarr = record s₂.radarr { titles = source.radarr.titles };
      radarr_candidates = source.radarr_candidates;
    }
    else s₂

unfoldable pub take_sonarr : Source → Scope → Snapshot → Snapshot
take_sonarr source scopes s =
    let s₁ =
      if scopes.sonarr_rules || scopes.sonarr_titles
      then record s { sonarr_revision = bump s.sonarr_revision }
      else s in
    let s₂ =
      if scopes.sonarr_rules
      then record s₁ { sonarr = record s₁.sonarr { rules = source.sonarr.rules } }
      else s₁ in
    if scopes.sonarr_titles
    then record s₂ {
      sonarr = record s₂.sonarr { titles = source.sonarr.titles };
      sonarr_candidates = source.sonarr_candidates;
    }
    else s₂

unfoldable pub take_searches : Scope → Snapshot → Snapshot
take_searches scopes s = record s {
  radarr_search_revision =
      if scopes.radarr_titles then bump s.radarr_search_revision else s.radarr_search_revision;
  sonarr_search_revision =
      if scopes.sonarr_titles then bump s.sonarr_search_revision else s.sonarr_search_revision;
}

-- The blocks of snapshotFromSQLite for all scopes and for ScopeSystemConfig.
unfoldable pub take_base : Source → Scope → Snapshot → Snapshot
unfolding take_all take_system_config
take_base source scopes s =
    let s₁ = if is_all scopes then take_all source s else s in
    if scopes.system_config then take_system_config source s₁ else s₁

-- snapshotFromSQLite
unfoldable pub snapshot_from_sqlite : Source → Snapshot → Scope → Snapshot
snapshot_from_sqlite source previous scopes =
    take_searches scopes
      (take_sonarr source scopes (take_radarr source scopes (take_base source scopes previous)))

-- AdmitQBittorrentMutation and AdmitTransmissionMutation: whether `begin` runs, for a mutation
-- prepared under a revision. The lock is held from the comparison to the end of `begin`.
unfoldable pub admit_qbittorrent : ℕ → Snapshot → Bool
admit_qbittorrent revision s = s.qbittorrent_revision == revision

unfoldable pub admit_transmission : ℕ → Snapshot → Bool
admit_transmission revision s = s.transmission_revision == revision
