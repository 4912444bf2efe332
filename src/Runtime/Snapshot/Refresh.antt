-- ===== src/Runtime/Snapshot/Refresh.antt =====
-- provider.Refresh and publishPrepared (internal/runtime/snapshot.go). The context and the loader
-- are the caller's: what they answer during the call is an argument.
use jproxy_go.Common.{
  ◌+◌, ◌≡◌, ◌≢◌, inl, inr, Bool, true, false, ◌||◌, not, Option, none, some, arith, if◌then◌else◌,
  Option-cases,
}
use jproxy_go.Runtime.Gate.{u64}
use jproxy_go.Runtime.Snapshot.{
  Scope, no_scope, is_none, Source, Snapshot, take_searches, snapshot_from_sqlite,
}
use jproxy_go.Runtime.Snapshot.Stages.{SameRest, SameRadarr, SameSonarr}
use jproxy_go.Runtime.Snapshot.Revisions.{
  Publication, publish, base_taken, radarr_taken, sonarr_taken,
}

pub data RefreshError : Type 0 where
  canceled load_failed : RefreshError

-- ctx.Err() at its three uses, and what LoadFormatterSnapshot returns.
pub record Answers : Type 0 where
  pub canceled_first : Bool
  pub canceled_locked : Bool
  pub loaded : Option Source
  pub canceled_last : Bool

-- Refresh; the first argument tells whether the provider has a loader.
unfoldable pub refresh : Bool → Scope → Answers → Snapshot → Snapshot × Option RefreshError
refresh has_loader scopes answers s =
    if is_none scopes || not has_loader
    then (s, none)
    else if answers.canceled_first
    then (s, some canceled)
    else if answers.canceled_locked
    then (s, some canceled)
    else elim answers.loaded [
      | none ↦ (s, some load_failed)
      | some source ↦
          if answers.canceled_last
          then (s, some canceled)
          else (snapshot_from_sqlite source s scopes, none)
    ]

-- publishPrepared
unfoldable pub publish_prepared : Source → Snapshot → Snapshot
publish_prepared source s = snapshot_from_sqlite source s (record no_scope { system_config = true })

-- A refresh that fails, for whatever reason, publishes nothing. One that succeeds for some scope,
-- on a provider with a loader, publishes what the loader read, and only then.
pub refresh_all_or_nothing :
    (scopes : Scope) (answers : Answers) (s t : Snapshot) (e : Option RefreshError)
    → is_none scopes ≡ false
    → refresh true scopes answers s ≡ (t, e)
    → (e ≢ none → t ≡ s)
      × (e ≡ none
          → (source : Source) × (answers.loaded ≡ some source)
            × (t ≡ publish s (record { source = source; scopes = scopes })))
unfolding refresh publish
refresh_all_or_nothing scopes answers s t e some_scope h = (
  λ failed. ground arith,
  λ known. elim (Option-cases answers.loaded) [
    | inl nothing ↦ absurd (ground arith)
    | inr (source, read) ↦ (source, read, ground arith)
  ],
)

-- The search revisions after a publication.
pub record SearchesMoved (scopes : Scope) (s t : Snapshot) : Type 0 where
  pub radarr : t.radarr_search_revision ≡ (
      if scopes.radarr_titles then u64 (s.radarr_search_revision + 1) else s.radarr_search_revision)
  pub sonarr : t.sonarr_search_revision ≡ (
      if scopes.sonarr_titles then u64 (s.sonarr_search_revision + 1) else s.sonarr_search_revision)

-- A publication without the system configuration leaves the URLs, the credentials and the revisions of
-- the downloaders alone. If it is without the Radarr scopes as well, it leaves every Radarr field alone,
-- both revisions included; if it is without the Sonarr scopes, every Sonarr field. A search revision
-- moves, by one modulo 2^64, exactly with the scope of the titles of its kind, in every publication.
pub publish_frame :
    (s : Snapshot) (p : Publication)
    → let t = publish s p in
      (p.scopes.system_config ≡ false
        → p.scopes.radarr_rules ≡ false
        → p.scopes.radarr_titles ≡ false
        → SameRadarr s t × (t.radarr_search_revision ≡ s.radarr_search_revision))
      × (p.scopes.system_config ≡ false
          → p.scopes.sonarr_rules ≡ false
          → p.scopes.sonarr_titles ≡ false
          → SameSonarr s t × (t.sonarr_search_revision ≡ s.sonarr_search_revision))
      × (p.scopes.system_config ≡ false → SameRest s t)
      × SearchesMoved p.scopes s t
unfolding publish snapshot_from_sqlite take_searches
publish_frame s p = (
  λ h r q. ground (arith, base_taken s p, radarr_taken s p, sonarr_taken s p),
  λ h r q. ground (arith, base_taken s p, radarr_taken s p, sonarr_taken s p),
  λ h. ground (arith, base_taken s p, radarr_taken s p, sonarr_taken s p),
  ground (arith, base_taken s p, radarr_taken s p, sonarr_taken s p),
)
