-- ===== src/Sync/Title/Examples.antt =====
-- A series with its two titles, and another one whose id collides.
use jproxy_go.Common.{
  ℕ, ◌≡◌, refl, true, false, Option, none, some, List, [], ◌∷◌, pos, codes, decimal_from,
  digits_from, digits,
}
use jproxy_go.Format.Cleaning.{Engine}
use jproxy_go.Sync.Title.{
  stable_id, mem_id, mem_coordinate, take_place, map_candidates, AlternateTitle, Series, Movie,
  SonarrTitleRow, after_separator, is_year_suffix, title_from_path, sonarr_row, sonarr_series,
  map_values, nothing_taken, map_sonarr, map_radarr,
}
use jproxy_go.Sync.Title.Numbering.{
  ids_of, AllNumbered, sonarr_reading, radarr_reading, map_titles_lem,
}

abbrev keeping : Engine
keeping = record {
  compiles = λ _. true;
  replace_all_string = λ _ text _. text;
  lowered = λ text. text;
}

abbrev series_of : ℕ → List AlternateTitle → Series
series_of n titles = record {
  id = pos 1;
  tvdb_id = pos n;
  title = codes "A";
  title_slug = codes "a";
  monitored = true;
  alternate_titles = titles;
}

abbrev film : Movie
film = record {
  id = pos 1;
  tmdb_id = pos 7;
  title = codes "F";
  path = codes "/m/F (1999)";
  clean_title = codes "f";
  original_title = codes "G";
  year = pos 1999;
  monitored = false;
  alternate_titles = [];
}

ids : stable_id (pos 12) 3 ≡ some 123
unfolding stable_id decimal_from digits digits_from
ids = refl

-- 1 and 11 together are 111, and so are 11 and 1.
same_ids : stable_id (pos 1) 11 ≡ stable_id (pos 11) 1
unfolding stable_id decimal_from digits digits_from
same_ids = refl

film_name : title_from_path (codes "/m/F (1999)") ≡ codes "F"
unfolding title_from_path after_separator is_year_suffix
film_name = refl

abbrev ids_made : Option (List SonarrTitleRow) → List ℕ
ids_made none = []
ids_made (some rows) = ids_of sonarr_reading rows

-- Two titles of each series.
four_rows :
    ids_made (map_sonarr keeping [] (series_of 1 [] ∷ series_of 2 [] ∷ [])) ≡ 10 ∷ 11 ∷ 20 ∷ 21 ∷ []
unfolding map_sonarr map_values sonarr_series map_candidates take_place stable_id decimal_from
    digits digits_from mem_id mem_coordinate sonarr_row
four_rows = refl

map_titles_lem_example :
    AllNumbered sonarr_reading nothing_taken
      (map_sonarr keeping [] (series_of 1 [] ∷ series_of 2 [] ∷ []))
    × AllNumbered radarr_reading nothing_taken (map_radarr keeping [] (film ∷ []))
map_titles_lem_example =
    map_titles_lem keeping [] (series_of 1 [] ∷ series_of 2 [] ∷ []) (film ∷ [])
