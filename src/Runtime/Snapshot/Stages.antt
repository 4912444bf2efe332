-- ===== src/Runtime/Snapshot/Stages.antt =====
-- What each block of snapshotFromSQLite (internal/runtime/snapshot.go) changes and leaves alone.
use jproxy_go.Common.{◌≡◌, true, false, ◌||◌, arith, if◌then◌else◌}
use jproxy_go.Runtime.Snapshot.{
  Scope, is_all, Source, Snapshot, bump, take_radarr, take_sonarr, take_base,
}

-- The URLs, the credentials and the revisions of the downloaders, and the search revisions.
pub record SameRest (s t : Snapshot) : Type 0 where
  pub jackett_url : t.jackett_url ≡ s.jackett_url
  pub prowlarr_url : t.prowlarr_url ≡ s.prowlarr_url
  pub qbittorrent_url : t.qbittorrent_url ≡ s.qbittorrent_url
  pub qbittorrent_username : t.qbittorrent_username ≡ s.qbittorrent_username
  pub qbittorrent_password : t.qbittorrent_password ≡ s.qbittorrent_password
  pub qbittorrent_revision : t.qbittorrent_revision ≡ s.qbittorrent_revision
  pub transmission_url : t.transmission_url ≡ s.transmission_url
  pub transmission_username : t.transmission_username ≡ s.transmission_username
  pub transmission_password : t.transmission_password ≡ s.transmission_password
  pub transmission_revision : t.transmission_revision ≡ s.transmission_revision

pub record SameSearches (s t : Snapshot) : Type 0 where
  pub radarr_search_revision : t.radarr_search_revision ≡ s.radarr_search_revision
  pub sonarr_search_revision : t.sonarr_search_revision ≡ s.sonarr_search_revision

pub record SameRadarr (s t : Snapshot) : Type 0 where
  pub radarr : t.radarr ≡ s.radarr
  pub radarr_revision : t.radarr_revision ≡ s.radarr_revision
  pub radarr_candidates : t.radarr_candidates ≡ s.radarr_candidates

pub record SameSonarr (s t : Snapshot) : Type 0 where
  pub sonarr : t.sonarr ≡ s.sonarr
  pub sonarr_revision : t.sonarr_revision ≡ s.sonarr_revision
  pub sonarr_candidates : t.sonarr_candidates ≡ s.sonarr_candidates

module _ (source : Source) (scopes : Scope) (s : Snapshot) where
  pub record RadarrTaken (t : Snapshot) : Type 0 where
    pub others : SameSonarr s t
    pub rest : SameRest s t
    pub searches : SameSearches s t
    pub radarr : (scopes.radarr_rules || scopes.radarr_titles) ≡ false → t.radarr ≡ s.radarr
    pub radarr_revision : t.radarr_revision ≡ (
        if scopes.radarr_rules || scopes.radarr_titles
        then bump s.radarr_revision
        else s.radarr_revision)
    pub radarr_candidates :
        t.radarr_candidates
        ≡ (if scopes.radarr_titles then source.radarr_candidates else s.radarr_candidates)

  pub record SonarrTaken (t : Snapshot) : Type 0 where
    pub others : SameRadarr s t
    pub rest : SameRest s t
    pub searches : SameSearches s t
    pub sonarr : (scopes.sonarr_rules || scopes.sonarr_titles) ≡ false → t.sonarr ≡ s.sonarr
    pub sonarr_revision : t.sonarr_revision ≡ (
        if scopes.sonarr_rules || scopes.sonarr_titles
        then bump s.sonarr_revision
        else s.sonarr_revision)
    pub sonarr_candidates :
        t.sonarr_candidates
        ≡ (if scopes.sonarr_titles then source.sonarr_candidates else s.sonarr_candidates)

  pub record BaseTaken (t : Snapshot) : Type 0 where
    pub unless : scopes.system_config ≡ false → t ≡ s
    pub radarr_revision : scopes.system_config ≡ true → t.radarr_revision ≡ bump s.radarr_revision
    pub sonarr_revision : scopes.system_config ≡ true → t.sonarr_revision ≡ bump s.sonarr_revision
    pub qbittorrent_revision :
        scopes.system_config ≡ true → t.qbittorrent_revision ≡ bump s.qbittorrent_revision
    pub transmission_revision :
        scopes.system_config ≡ true → t.transmission_revision ≡ bump s.transmission_revision
    pub searches : SameSearches s t
    pub radarr_candidates : is_all scopes ≡ false → t.radarr_candidates ≡ s.radarr_candidates
    pub sonarr_candidates : is_all scopes ≡ false → t.sonarr_candidates ≡ s.sonarr_candidates

  pub take_radarr-RadarrTaken : RadarrTaken (take_radarr source scopes s)
  unfolding take_radarr
  take_radarr-RadarrTaken = ground arith

  pub take_sonarr-SonarrTaken : SonarrTaken (take_sonarr source scopes s)
  unfolding take_sonarr
  take_sonarr-SonarrTaken = ground arith

  pub take_base-BaseTaken : BaseTaken (take_base source scopes s)
  unfolding take_base
  take_base-BaseTaken = ground arith
