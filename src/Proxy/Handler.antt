-- ===== src/Proxy/Handler.antt =====
-- internal/proxy/server.go, handleIndexer: a request is answered from the result cache, or by a search whose
-- answer is formatted and stored. The cache key, which package regexp computes from the request, the answer
-- of the search (executeRequest or executeExpandedSearch) and the formatter of the kind are arguments.
pub mod Caching
mod Examples
use mathlib.Core.Option
use jproxy_go.Common.{ℕ, ◌&&◌, not, Option, none, some, map, if◌then◌else◌, Text, is_empty}
use jproxy_go.Cache.{Cache}
use jproxy_go.Cache
use jproxy_go.Proxy.Xml.{has_channel}
use jproxy_go.Proxy.Titles.{Kind, sonarr, radarr}
use jproxy_go.Runtime.Snapshot.{Snapshot}

pub data Response : Type 0 where
  served : Text → Response
  bad_gateway : Response

-- kindRevision and kindSearchRevision
unfoldable pub kind_revision : Kind → Snapshot → ℕ
kind_revision radarr s = s.radarr_revision
kind_revision sonarr s = s.sonarr_revision

unfoldable pub kind_search_revision : Kind → Snapshot → ℕ
kind_search_revision radarr s = s.radarr_search_revision
kind_search_revision sonarr s = s.sonarr_search_revision

-- if xml != "" && hasChannel(xml) { s.resultCache.Set(cacheKey, xml) }; `none` means that the fuel of
-- Set ran out.
unfoldable pub store_result : Text → Text → ℕ → Cache Text → Option (Cache Text)
store_result key xml now results =
    if not (is_empty xml) && has_channel xml then Cache.set key xml now results else some results

-- The handler behind a miss; the answer `none` is an error.
unfoldable pub answer_miss :
    (Text → Text) → Text → Option Text → ℕ → Cache Text → Option (Response × Cache Text)
answer_miss format key none now results = some (bad_gateway, results)
answer_miss format key (some xml) now results =
    Option.map (λ r. (served (format xml), r)) (store_result key (format xml) now results)

-- The handler; Get reads the clock as `now`, and Set, after the search, as `stored`.
unfoldable pub handle_indexer :
    (Text → Text) → Text → Option Text → ℕ → ℕ → Cache Text → Option (Response × Cache Text)
handle_indexer format key answer now stored results =
    let found = Cache.get key now results in
    elim found.0 [
      | some xml ↦ some (served xml, found.1)
      | none ↦ answer_miss format key answer stored found.1
    ]
