-- ===== src/Runtime/Registry/Examples.antt =====
-- The theorems about the registry at concrete inputs, and tests.
use jproxy_go.Common.{
  ◌≡◌, refl, ◌↔◌, true, false, none, some, List, [], ◌∷◌, Text, codes, text_eq, is_space,
  trim_space, lookup, insert, delete, mem, remove_first,
}
use jproxy_go.Cache
use jproxy_go.Cache.{Cache}
use jproxy_go.Format.{Config, SonarrConfig}
use jproxy_go.Runtime.Gate.{
  sonarr_title_sync_interval, tmdb_title_sync_interval, radarr_title_sync_interval, idle, new_gate,
  cleared_state, clear,
}
use jproxy_go.Runtime.Snapshot.Refresh.{Answers, refresh}
use jproxy_go.Runtime.Registry.{
  Registry, Plan, empty_plan, Target, target_of, invalidation_plan, clear_markers, clear_caches,
  apply, invalidate, unknown_cache_name,
}
use jproxy_go.Runtime.Registry.Planning.{
  names_target, names_unknown, wants, same_target, names_marker, invalidation_plan_lem,
}
use jproxy_go.Runtime.Registry.Invalidation.{IsInvalidated, invalidate_failed, invalidate_exact}

abbrev cache_with : {V : Type 0} → Text → V → Cache V
cache_with key v = record {
  ttl = 10;
  max_entries = 3;
  m = (key, record { value = v; expires_at = 10 }) ∷ [];
  order = key ∷ [];
}

abbrev config : Config
config = record { format = []; clean_title_regex = []; rules = []; titles = [] }

abbrev sonarr_config : SonarrConfig
sonarr_config = record { format = []; clean_title_regex = []; rules = []; titles = [] }

abbrev registry : Registry
registry = record {
  has_loader = true;
  snapshot = record {
    radarr = config;
    sonarr = sonarr_config;
    radarr_candidates = [];
    sonarr_candidates = [];
    jackett_url = [];
    prowlarr_url = [];
    qbittorrent_url = [];
    qbittorrent_username = [];
    qbittorrent_password = [];
    qbittorrent_revision = 1;
    transmission_url = [];
    transmission_username = [];
    transmission_password = [];
    transmission_revision = 1;
    radarr_revision = 2;
    sonarr_revision = 2;
    radarr_search_revision = 1;
    sonarr_search_revision = 1;
  };
  results = cache_with (codes "r") (codes "xml");
  offsets = cache_with (codes "o") [];
  markers = cache_with tmdb_title_sync_interval tt;
  gate = new_gate;
}

abbrev no_answers : Answers
no_answers = record {
  canceled_first = false;
  canceled_locked = false;
  loaded = none;
  canceled_last = false;
}

-- No name here has a scope, so nothing is loaded.
abbrev two_names : List Text
two_names = codes " indexer_result " ∷ tmdb_title_sync_interval ∷ codes "indexer_result" ∷ []

two_names_plan :
    invalidation_plan two_names
    ≡ some (record empty_plan { clear_results = true; markers = tmdb_title_sync_interval ∷ [] })
unfolding invalidation_plan target_of text_eq trim_space is_space mem
two_names_plan = refl

abbrev invalidated : Registry
invalidated = record registry {
  results = record registry.results { m = []; order = [] };
  markers = record registry.markers { m = []; order = [] };
  gate = record {
    states =
        (sonarr_title_sync_interval, idle)
        ∷ (tmdb_title_sync_interval, cleared_state idle)
        ∷ (radarr_title_sync_interval, idle)
        ∷ [];
    next_id = 0;
  };
}

two_names-invalidated : invalidate two_names no_answers registry ≡ (invalidated, none)
unfolding invalidate invalidation_plan target_of text_eq trim_space is_space mem refresh apply
    clear_caches clear_markers Cache.clear Cache.delete_locked delete remove_first clear new_gate
    insert lookup
two_names-invalidated = refl

unknown_invalidated :
    invalidate (codes "radarr_rule" ∷ codes "x" ∷ []) no_answers registry
    ≡ (registry, some unknown_cache_name)
unfolding invalidate invalidation_plan target_of text_eq trim_space is_space mem
unknown_invalidated = refl

invalidation_plan_lem_example :
    (names_unknown two_names ≡ true → invalidation_plan two_names ≡ none)
    × (names_unknown two_names ≡ false
        → (p : Plan) × (invalidation_plan two_names ≡ some p)
          × ((t : Target) → wants p t ≡ names_target (same_target t) two_names)
          × ((m : Text) → mem m p.markers ≡ names_marker m two_names))
invalidation_plan_lem_example = invalidation_plan_lem two_names

invalidate_failed_example :
    (registry ≡ registry)
    × ((names_unknown (codes "radarr_rule" ∷ codes "x" ∷ []) ≡ true)
        ↔ (unknown_cache_name ≡ unknown_cache_name))
invalidate_failed_example =
    invalidate_failed (codes "radarr_rule" ∷ codes "x" ∷ []) no_answers registry registry
      unknown_cache_name unknown_invalidated

invalidate_exact_example :
    (names_unknown two_names ≡ false) × IsInvalidated two_names registry invalidated
invalidate_exact_example =
    invalidate_exact two_names no_answers registry invalidated two_names-invalidated
