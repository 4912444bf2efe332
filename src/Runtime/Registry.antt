-- ===== src/Runtime/Registry.antt =====
-- internal/runtime/registry.go: what is refreshed and cleared for the cache names that a caller
-- gives. The registry's three caches are those of the proxy server.
pub mod Planning
pub mod Names
pub mod Invalidation
mod Examples
use jproxy_go.Common.{
  Bool, true, false, ◌||◌, Option, none, some, List, [], ◌∷◌, ◌++◌, ℤ, if◌then◌else◌, Text, codes,
  text_eq, is_empty, trim_space, mem,
}
use jproxy_go.Cache
use jproxy_go.Cache.{Cache}
use jproxy_go.Runtime.Gate.{
  sonarr_title_sync_interval, tmdb_title_sync_interval, radarr_title_sync_interval,
  title_sync_markers, Attempt, Gate, Begun, begin, finish, clear, clear_all,
}
use jproxy_go.Runtime.Snapshot.{Scope, all_scopes, no_scope, Snapshot}
use jproxy_go.Runtime.Snapshot.Refresh.{RefreshError, Answers, refresh}

-- Registry; the snapshot is that of its provider.
pub record Registry : Type 0 where
  pub has_loader : Bool
  pub snapshot : Snapshot
  pub results : Cache Text
  pub offsets : Cache (List ℤ)
  pub markers : Cache (Unit {0})
  pub gate : Gate

-- plan
pub record Plan : Type 0 where
  pub scopes : Scope
  pub clear_results : Bool
  pub clear_offsets : Bool
  pub markers : List Text

abbrev pub empty_plan : Plan
empty_plan = record {
  scopes = no_scope;
  clear_results = false;
  clear_offsets = false;
  markers = [];
}

-- What a case of the switch over a name adds to the plan.
pub data Target : Type 0 where
  system_config sonarr_titles radarr_titles sonarr_rules radarr_rules : Target
  indexer_result indexer_offset sync_marker : Target

-- The cases of the switch; `none` is the default.
unfoldable pub target_of : Text → Option Target
target_of name =
    if text_eq name (codes "system_config")
    then some system_config
    else if text_eq name (codes "sonarr_search_title") || text_eq name (codes "sonarr_result_title")
    then some sonarr_titles
    else if text_eq name (codes "radarr_search_title") || text_eq name (codes "radarr_result_title")
    then some radarr_titles
    else if text_eq name (codes "sonarr_rule")
    then some sonarr_rules
    else if text_eq name (codes "radarr_rule")
    then some radarr_rules
    else if text_eq name (codes "indexer_result")
    then some indexer_result
    else if text_eq name (codes "indexer_search_offset")
    then some indexer_offset
    else if text_eq name sonarr_title_sync_interval
        || text_eq name tmdb_title_sync_interval
        || text_eq name radarr_title_sync_interval
    then some sync_marker
    else none

abbrev pub add_target : Target → Text → Plan → Plan
add_target system_config name p = record p { scopes = record p.scopes { system_config = true } }
add_target sonarr_titles name p = record p { scopes = record p.scopes { sonarr_titles = true } }
add_target radarr_titles name p = record p { scopes = record p.scopes { radarr_titles = true } }
add_target sonarr_rules name p = record p { scopes = record p.scopes { sonarr_rules = true } }
add_target radarr_rules name p = record p { scopes = record p.scopes { radarr_rules = true } }
add_target indexer_result name p = record p { clear_results = true }
add_target indexer_offset name p = record p { clear_offsets = true }
add_target sync_marker name p = record p { markers = p.markers ++ name ∷ [] }

-- The loop of invalidationPlan; `none` is ErrUnknownCacheName. `seen` holds the names met.
unfoldable pub plan_from : List Text → Plan → List Text → Option Plan
plan_from seen p [] = some p
plan_from seen p (raw ∷ names) =
    let name = trim_space raw in
    let again = plan_from seen p names in
    elim (is_empty name) [
      | true ↦ none
      | false ↦ elim (mem name seen) [
        | true ↦ again
        | false ↦ elim (target_of name) [
          | none ↦ none
          | some t ↦ plan_from (name ∷ seen) (add_target t name p) names
        ]
      ]
    ]

unfoldable pub invalidation_plan : List Text → Option Plan
unfolding plan_from
invalidation_plan names = plan_from [] empty_plan names

-- The loop over the markers of a plan: r.markers.Delete, r.gate.clear.
unfoldable pub clear_markers : List Text → Registry → Registry
clear_markers [] r = r
clear_markers (marker ∷ markers) r =
    clear_markers markers
      (record r { markers = Cache.delete_locked marker r.markers; gate = clear marker r.gate })

-- The two tests of apply, and apply.
unfoldable pub clear_caches : Plan → Registry → Registry
clear_caches p r =
    let r₁ = if p.clear_results then record r { results = Cache.clear r.results } else r in
    if p.clear_offsets then record r₁ { offsets = Cache.clear r₁.offsets } else r₁

unfoldable pub apply : Plan → Registry → Registry
apply p r = clear_markers p.markers (clear_caches p r)

pub data InvalidateError : Type 0 where
  unknown_cache_name : InvalidateError
  refresh_failed : RefreshError → InvalidateError

-- Invalidate
unfoldable pub invalidate : List Text → Answers → Registry → Registry × Option InvalidateError
invalidate names answers r = elim (invalidation_plan names) [
  | none ↦ (r, some unknown_cache_name)
  | some p ↦
      let (snapshot, e) = refresh r.has_loader p.scopes answers r.snapshot in
      elim e [
        | some failure ↦ (record r { snapshot = snapshot }, some (refresh_failed failure))
        | none ↦ (apply p (record r { snapshot = snapshot }), none)
      ]
]

-- InvalidateAll
unfoldable pub invalidate_all : Answers → Registry → Registry × Option InvalidateError
invalidate_all answers r =
    let (snapshot, e) = refresh r.has_loader all_scopes answers r.snapshot in
    elim e [
      | some failure ↦ (record r { snapshot = snapshot }, some (refresh_failed failure))
      | none ↦ (
        record r {
          snapshot = snapshot;
          results = Cache.clear r.results;
          offsets = Cache.clear r.offsets;
          markers = Cache.clear r.markers;
          gate = clear_all r.gate;
        },
        none,
      )
    ]

-- DeleteMarker
unfoldable pub delete_marker : Text → Registry → Registry × Option InvalidateError
delete_marker name r =
    if text_eq name sonarr_title_sync_interval
      || text_eq name tmdb_title_sync_interval
      || text_eq name radarr_title_sync_interval
    then (clear_markers (name ∷ []) r, none)
    else (r, some unknown_cache_name)

-- DeleteSystemConfigSyncMarkers
unfoldable pub delete_system_config_sync_markers : Registry → Registry
delete_system_config_sync_markers = clear_markers title_sync_markers

-- BeginTitleSync and FinishTitleSync
unfoldable pub begin_title_sync : Text → Registry → Registry × Begun
begin_title_sync marker r =
    let (gate, begun) = begin marker r.gate in (record r { gate = gate }, begun)

unfoldable pub finish_title_sync : Attempt → Bool → Registry → Registry
finish_title_sync attempt succeeded r = record r { gate = finish attempt succeeded r.gate }
