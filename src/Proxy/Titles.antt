-- ===== src/Proxy/Titles.antt =====
-- internal/proxy/format.go and internal/proxy/search_expansion.go: the titles an indexer query is
-- expanded to.
pub mod Unique
pub mod Expansion
mod Examples
use jproxy_go.Common.{
  Bool, true, false, ◌&&◌, ◌||◌, not, Option, none, some, List, [], ◌∷◌, ◌++◌, ℤ, ltb_ℤ, eq_ℤ, pos,
  negsuc, if◌then◌else◌, Text, text_eq, is_empty, trim_space, mem,
}
use jproxy_go.Search.{Candidate, sonarr_candidates, radarr_candidates}
use jproxy_go.Proxy.Patterns.{remove_year, remove_episode, radarr_search_year}

-- The loop of uniqueNonEmpty, with the set of the texts seen.
unfoldable pub unique_from : List Text → List Text → List Text
unique_from seen [] = []
unique_from seen (raw ∷ xs) =
    let x = trim_space raw in
    let skipped = unique_from seen xs in
    let kept = unique_from (x ∷ seen) xs in if is_empty x || mem x seen then skipped else x ∷ kept

unfoldable pub unique_non_empty : List Text → List Text
unfolding unique_from
unique_non_empty xs = unique_from [] xs

pub data Kind : Type 0 where
  sonarr : Kind
  radarr : Kind

-- searchTitles
unfoldable pub search_titles : Kind → Text → List Text
search_titles radarr search_key = unique_non_empty (search_key ∷ remove_year search_key ∷ [])
search_titles sonarr search_key = unique_non_empty (remove_episode search_key ∷ [])

-- The first candidate that passes a test.
unfoldable pub first_candidate : (Candidate → Bool) → List Candidate → Option Candidate
first_candidate test [] = none
first_candidate test (c ∷ candidates) =
    let rest = first_candidate test candidates in if test c then some c else rest

unfoldable pub exact_candidate : Text → List Candidate → Option Candidate
unfolding first_candidate
exact_candidate query candidates = first_candidate (λ c. text_eq c.query query) candidates

-- year == 0 || candidate.Year == 0 || candidate.Year == year
abbrev pub year_fits : ℤ → Candidate → Bool
year_fits year c = eq_ℤ year (pos 0) || eq_ℤ c.year (pos 0) || eq_ℤ c.year year

-- The first loop of radarrAnchor.
unfoldable pub anchor_by_query : ℤ → List Text → List Candidate → Option Candidate
anchor_by_query year [] candidates = none
anchor_by_query year (query ∷ basic) candidates =
    let rest = anchor_by_query year basic candidates in
    elim (first_candidate (λ c. text_eq c.query query && year_fits year c) candidates) [
      | some c ↦ some c
      | none ↦ rest
    ]

-- basic[0], of a list that is not empty
abbrev pub head_text : List Text → Text
head_text [] = []
head_text (x ∷ xs) = x

unfoldable pub radarr_anchor : List Text → List Candidate → Option Candidate
unfolding anchor_by_query first_candidate
radarr_anchor basic candidates =
    let year = radarr_search_year (head_text basic) in
    let base = remove_year (head_text basic) in
    elim (anchor_by_query year basic candidates) [
      | some c ↦ some c
      | none ↦
          first_candidate (λ c. text_eq (remove_year c.query) base && year_fits year c) candidates
    ]

-- The tests of the loop of sonarrSearchTitles, and of radarrSearchTitles.
abbrev pub sonarr_joins : Candidate → Candidate → Bool
sonarr_joins anchor c =
    text_eq c.main_title anchor.main_title
    && not (
        ltb_ℤ (pos 0) anchor.season_number
        && not (eq_ℤ c.season_number anchor.season_number)
        && not (eq_ℤ c.season_number (negsuc 0)))

abbrev pub radarr_joins : Candidate → Candidate → Bool
radarr_joins anchor c =
    text_eq c.main_title anchor.main_title
    && not (ltb_ℤ (pos 0) anchor.year && ltb_ℤ (pos 0) c.year && not (eq_ℤ c.year anchor.year))

-- The queries of the candidates that pass a test, in order.
unfoldable pub queries_of : (Candidate → Bool) → List Candidate → List Text
queries_of test [] = []
queries_of test (c ∷ candidates) =
    let rest = queries_of test candidates in if test c then c.query ∷ rest else rest

-- What sonarrSearchTitles and radarrSearchTitles do with the anchor.
unfoldable pub joined_titles :
    (Candidate → Candidate → Bool) → List Text → Option Candidate → List Candidate → List Text
joined_titles joins basic none candidates = basic
joined_titles joins basic (some anchor) candidates =
    if is_empty (trim_space anchor.main_title)
    then basic
    else unique_non_empty (basic ++ queries_of (joins anchor) candidates)

abbrev pub no_candidates : List Candidate → Bool
no_candidates [] = true
no_candidates (c ∷ candidates) = false

abbrev pub no_titles : List Text → Bool
no_titles [] = true
no_titles (x ∷ xs) = false

unfoldable pub sonarr_search_titles : List Text → List Candidate → List Text
sonarr_search_titles basic candidates =
    if no_titles basic || no_candidates candidates
    then basic
    else joined_titles sonarr_joins basic (exact_candidate (head_text basic) candidates) candidates

unfoldable pub radarr_search_titles : List Text → List Candidate → List Text
radarr_search_titles basic candidates =
    if no_titles basic || no_candidates candidates
    then basic
    else joined_titles radarr_joins basic (radarr_anchor basic candidates) candidates

-- expandedSearchTitles, with the candidates of the snapshot
unfoldable pub expanded_search_titles : Kind → Text → List Candidate → List Candidate → List Text
expanded_search_titles radarr search_key sonarr_candidates radarr_candidates =
    radarr_search_titles (search_titles radarr search_key) radarr_candidates
expanded_search_titles sonarr search_key sonarr_candidates radarr_candidates =
    sonarr_search_titles (search_titles sonarr search_key) sonarr_candidates
