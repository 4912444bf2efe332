-- ===== src/Runtime/Snapshot/Revisions.antt =====
-- A revision of the snapshot tells whether the data under it can have changed
-- (internal/runtime/snapshot.go).
use jproxy_go.Common.{
  ℕ, ◌+◌, ◌≤◌, ◌<◌, ◌≡◌, refl, ◌∙◌, Bool, true, false, ◌||◌, List, [], ◌∷◌, arith, length, Text,
}
use jproxy_go.Format.{Config, SonarrConfig}
use jproxy_go.Runtime.Snapshot.Stages.{
  RadarrTaken, SonarrTaken, BaseTaken, take_radarr-RadarrTaken, take_sonarr-SonarrTaken,
  take_base-BaseTaken,
}
use jproxy_go.Runtime.Gate.{u64}
use jproxy_go.Runtime.Snapshot.{
  Scope, Source, Snapshot, take_radarr, take_sonarr, take_searches, take_base, snapshot_from_sqlite,
  admit_qbittorrent, admit_transmission,
}

-- One publication: what the loader read, and the scopes that were refreshed.
pub record Publication : Type 0 where
  pub source : Source
  pub scopes : Scope

unfoldable pub publish : Snapshot → Publication → Snapshot
publish s p = snapshot_from_sqlite p.source s p.scopes

unfoldable pub publish_all : Snapshot → List Publication → Snapshot
publish_all s [] = s
publish_all s (p ∷ ps) = publish_all (publish s p) ps

-- A counter moved on by at most `n`, and the data under it can differ only if it did move.
abbrev Moves :
    {A : Type 0} (revision : Snapshot → ℕ) (view : Snapshot → A) → ℕ → Snapshot → Snapshot → Type 0
Moves revision view n s t =
    (k : ℕ) × (k ≤ n) × (revision t ≡ u64 (revision s + k)) × (k ≡ 0 → view t ≡ view s)

module _ {A : Type 0} (revision : Snapshot → ℕ) (view : Snapshot → A)
    (publish-Moves : (s : Snapshot) (p : Publication)
      → revision s < 18446744073709551616
      → Moves revision view 2 s (publish s p)) where
  publish_all-Moves :
      (ps : List Publication) (s : Snapshot)
      → revision s < 18446744073709551616
      → Moves revision view (length ps + length ps) s (publish_all s ps)
  unfolding publish_all
  publish_all-Moves [] s b = (0, omega arith, omega arith, λ _. refl)
  publish_all-Moves (p ∷ ps) s b =
      let (k, small, moved, same) = publish-Moves s p b in
      let (l, small', moved', same') = publish_all-Moves ps (publish s p) (omega arith) in
      (k + l, omega arith, omega arith, λ z. same' (omega arith) ∙ same (omega arith))

  view_kept :
      (ps : List Publication) (s : Snapshot)
      → revision s < 18446744073709551616
      → length ps < 9223372036854775808
      → revision (publish_all s ps) ≡ revision s
      → view (publish_all s ps) ≡ view s
  view_kept ps s b few same =
      let (k, small, moved, kept) = publish_all-Moves ps s b in kept (omega arith)

abbrev flag : Bool → ℕ
flag true = 1
flag false = 0

-- What a formatted Radarr result depends on.
abbrev pub radarr_view : Snapshot → Config × Text × Text
radarr_view s = (s.radarr, s.jackett_url, s.prowlarr_url)

abbrev pub sonarr_view : Snapshot → SonarrConfig × Text × Text
sonarr_view s = (s.sonarr, s.jackett_url, s.prowlarr_url)

abbrev pub qbittorrent_view : Snapshot → Text × Text × Text
qbittorrent_view s = (s.qbittorrent_url, s.qbittorrent_username, s.qbittorrent_password)

abbrev pub transmission_view : Snapshot → Text × Text × Text
transmission_view s = (s.transmission_url, s.transmission_username, s.transmission_password)

-- A publication in its four blocks.
module _ (s : Snapshot) (p : Publication) where
  abbrev pub based : Snapshot
  based = take_base p.source p.scopes s

  abbrev pub with_radarr : Snapshot
  with_radarr = take_radarr p.source p.scopes based

  abbrev pub with_sonarr : Snapshot
  with_sonarr = take_sonarr p.source p.scopes with_radarr

  abbrev pub base_taken : BaseTaken p.source p.scopes s based
  base_taken = take_base-BaseTaken p.source p.scopes s

  abbrev pub radarr_taken : RadarrTaken p.source p.scopes based with_radarr
  radarr_taken = take_radarr-RadarrTaken p.source p.scopes based

  abbrev pub sonarr_taken : SonarrTaken p.source p.scopes with_radarr with_sonarr
  sonarr_taken = take_sonarr-SonarrTaken p.source p.scopes with_radarr

  radarr-Moves :
      s.radarr_revision < 18446744073709551616
      → Moves (λ t. t.radarr_revision) radarr_view 2 s (publish s p)
  unfolding publish snapshot_from_sqlite take_searches
  radarr-Moves b = (
    flag p.scopes.system_config + flag (p.scopes.radarr_rules || p.scopes.radarr_titles),
    ground arith,
    ground (arith, base_taken, radarr_taken, sonarr_taken),
    λ z. ground (arith, base_taken, radarr_taken, sonarr_taken),
  )

  sonarr-Moves :
      s.sonarr_revision < 18446744073709551616
      → Moves (λ t. t.sonarr_revision) sonarr_view 2 s (publish s p)
  unfolding publish snapshot_from_sqlite take_searches
  sonarr-Moves b = (
    flag p.scopes.system_config + flag (p.scopes.sonarr_rules || p.scopes.sonarr_titles),
    ground arith,
    ground (arith, base_taken, radarr_taken, sonarr_taken),
    λ z. ground (arith, base_taken, radarr_taken, sonarr_taken),
  )

  radarr_search-Moves :
      s.radarr_search_revision < 18446744073709551616
      → Moves (λ t. t.radarr_search_revision) (λ t. t.radarr_candidates) 2 s (publish s p)
  unfolding publish snapshot_from_sqlite take_searches
  radarr_search-Moves b = (
    flag p.scopes.radarr_titles,
    ground arith,
    ground (arith, base_taken, radarr_taken, sonarr_taken),
    λ z. ground (arith, base_taken, radarr_taken, sonarr_taken),
  )

  sonarr_search-Moves :
      s.sonarr_search_revision < 18446744073709551616
      → Moves (λ t. t.sonarr_search_revision) (λ t. t.sonarr_candidates) 2 s (publish s p)
  unfolding publish snapshot_from_sqlite take_searches
  sonarr_search-Moves b = (
    flag p.scopes.sonarr_titles,
    ground arith,
    ground (arith, base_taken, radarr_taken, sonarr_taken),
    λ z. ground (arith, base_taken, radarr_taken, sonarr_taken),
  )

  qbittorrent-Moves :
      s.qbittorrent_revision < 18446744073709551616
      → Moves (λ t. t.qbittorrent_revision) qbittorrent_view 2 s (publish s p)
  unfolding publish snapshot_from_sqlite take_searches
  qbittorrent-Moves b = (
    flag p.scopes.system_config,
    ground arith,
    ground (arith, base_taken, radarr_taken, sonarr_taken),
    λ z. ground (arith, base_taken, radarr_taken, sonarr_taken),
  )

  transmission-Moves :
      s.transmission_revision < 18446744073709551616
      → Moves (λ t. t.transmission_revision) transmission_view 2 s (publish s p)
  unfolding publish snapshot_from_sqlite take_searches
  transmission-Moves b = (
    flag p.scopes.system_config,
    ground arith,
    ground (arith, base_taken, radarr_taken, sonarr_taken),
    λ z. ground (arith, base_taken, radarr_taken, sonarr_taken),
  )

-- The revisions fit 64 bits.
pub record IsNumbered (s : Snapshot) : Type 0 where
  pub radarr : s.radarr_revision < 18446744073709551616
  pub sonarr : s.sonarr_revision < 18446744073709551616
  pub radarr_search : s.radarr_search_revision < 18446744073709551616
  pub sonarr_search : s.sonarr_search_revision < 18446744073709551616
  pub qbittorrent : s.qbittorrent_revision < 18446744073709551616
  pub transmission : s.transmission_revision < 18446744073709551616

module _ (s : Snapshot) (ps : List Publication) (numbered : IsNumbered s)
    (few : length ps < 9223372036854775808) where
  -- After any number of publications (fewer than 2^63), whatever their scopes: a formatter
  -- revision that reads the same stands for the same formatter configuration and indexer URLs, and
  -- a search revision that reads the same for the same candidates. So a cache whose keys hold the
  -- revision never serves what was computed from other data.
  pub search_revisions_tell :
      let t = publish_all s ps in
      (t.radarr_revision ≡ s.radarr_revision → radarr_view t ≡ radarr_view s)
      × (t.sonarr_revision ≡ s.sonarr_revision → sonarr_view t ≡ sonarr_view s)
      × (t.radarr_search_revision ≡ s.radarr_search_revision
          → t.radarr_candidates ≡ s.radarr_candidates)
      × (t.sonarr_search_revision ≡ s.sonarr_search_revision
          → t.sonarr_candidates ≡ s.sonarr_candidates)
  search_revisions_tell = (
    view_kept (λ t. t.radarr_revision) radarr_view radarr-Moves ps s numbered.radarr few,
    view_kept (λ t. t.sonarr_revision) sonarr_view sonarr-Moves ps s numbered.sonarr few,
    view_kept (λ t. t.radarr_search_revision) (λ t. t.radarr_candidates) radarr_search-Moves ps s
        numbered.radarr_search few,
    view_kept (λ t. t.sonarr_search_revision) (λ t. t.sonarr_candidates) sonarr_search-Moves ps s
        numbered.sonarr_search few,
  )

  -- A mutation of a downloader that was prepared under a snapshot is admitted after any
  -- publications (fewer than 2^63) only if the URL and the credentials are still those that it
  -- was prepared with.
  pub admitted_unchanged :
      let t = publish_all s ps in
      (admit_qbittorrent s.qbittorrent_revision t ≡ true → qbittorrent_view t ≡ qbittorrent_view s)
      × (admit_transmission s.transmission_revision t ≡ true
          → transmission_view t ≡ transmission_view s)
  unfolding admit_qbittorrent admit_transmission
  admitted_unchanged = (
    λ h.
        view_kept (λ t. t.qbittorrent_revision) qbittorrent_view qbittorrent-Moves ps s
          numbered.qbittorrent few (ground arith),
    λ h.
        view_kept (λ t. t.transmission_revision) transmission_view transmission-Moves ps s
          numbered.transmission few (ground arith),
  )
