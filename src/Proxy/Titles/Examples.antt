-- ===== src/Proxy/Titles/Examples.antt =====
-- The expansion of titles on concrete searches.
use jproxy_go.Common.{
  ◌≡◌, refl, List, [], ◌∷◌, pos, codes, text_eq, is_space, trim_left, trim_right, trim_space, mem,
  all_digits, some_digits, decimal_from,
}
use jproxy_go.Search.{Candidate}
use jproxy_go.Proxy.Patterns.{
  year_matches, number_matches, padded_matches, episode_matches, season_rest_matches,
  season_matches, season_episode_matches, cut_suffix, find_suffix, remove_year, remove_episode,
  remove_season_episode, radarr_search_year,
}
use jproxy_go.Proxy.Titles.{
  unique_from, unique_non_empty, search_titles, first_candidate, exact_candidate, queries_of,
  joined_titles, sonarr_search_titles, expanded_search_titles, sonarr,
}
use jproxy_go.Proxy.Titles.Expansion.{IsExpansion, expanded_search_titles_lem}

abbrev frieren : List Candidate
frieren =
    record {
      query = codes "Frieren";
      main_title = codes "Frieren";
      season_number = pos 1;
      year = pos 0;
    }
    ∷ record {
      query = codes "Sousou no Frieren";
      main_title = codes "Frieren";
      season_number = pos 1;
      year = pos 0;
    }
    ∷ []

two_titles :
    expanded_search_titles sonarr (codes "Frieren 08") frieren []
    ≡ codes "Frieren" ∷ codes "Sousou no Frieren" ∷ []
unfolding expanded_search_titles sonarr_search_titles search_titles unique_non_empty unique_from
    remove_episode cut_suffix episode_matches padded_matches number_matches exact_candidate
    first_candidate joined_titles queries_of text_eq trim_space trim_left trim_right is_space mem
two_titles = refl

year_cut : remove_year (codes " Dune 2021 ") ≡ codes "Dune"
unfolding remove_year cut_suffix year_matches trim_space trim_left trim_right is_space
year_cut = refl

year_found : radarr_search_year (codes "Dune 2021") ≡ pos 2021
unfolding radarr_search_year find_suffix year_matches trim_space trim_left trim_right is_space
    decimal_from
year_found = refl

season_cut : remove_season_episode (codes "Frieren S01 08") ≡ codes "Frieren"
unfolding remove_season_episode cut_suffix season_episode_matches season_matches season_rest_matches
    some_digits all_digits trim_space trim_left trim_right is_space
season_cut = refl

expanded_search_titles_lem_example :
    IsExpansion sonarr
      (search_titles sonarr (codes "Frieren 08"))
      frieren
      (expanded_search_titles sonarr (codes "Frieren 08") frieren [])
expanded_search_titles_lem_example =
    expanded_search_titles_lem sonarr (codes "Frieren 08") frieren []
