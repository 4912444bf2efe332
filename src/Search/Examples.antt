-- ===== src/Search/Examples.antt =====
-- The candidates of two rows.
use jproxy_go.Common.{
  ◌≡◌, refl, true, false, [], ◌∷◌, pos, codes, text_eq, is_space, trim_left, trim_right, trim_space,
  mem, Distinct, has_suffix, utf8_length, digits_from, digits, itoa,
}
use jproxy_go.Search.{
  SonarrRow, RadarrRow, compare_ℤ, compare_text, compare_sonarr_rows, insert_row, sort_rows,
  has_year_suffix, radarr_row_candidates, append_from, all_candidates, sonarr_candidates,
  radarr_candidates,
}
use jproxy_go.Search.Distinctness.{
  queries, sonarr_candidates_lem, some_row_asks, radarr_candidates_lem,
}

abbrev dune : RadarrRow
dune = record {
  tmdb_id = pos 438631;
  sno = pos 0;
  main_title = codes "Dune";
  title = codes " Dune ";
  clean_title = codes "dune";
  year = pos 2021;
  monitored = true;
}

abbrev frieren : SonarrRow
frieren = record {
  main_title = codes "Frieren";
  title = codes "Frieren";
  clean_title = codes "frieren";
  season_number = pos 1;
  monitored = false;
}

abbrev sousou : SonarrRow
sousou = record {
  main_title = codes "Frieren";
  title = codes "Sousou no Frieren";
  clean_title = codes "sousounofrieren";
  season_number = pos 1;
  monitored = false;
}

with_year_first : queries (radarr_candidates (dune ∷ [])) ≡ codes "Dune 2021" ∷ codes "Dune" ∷ []
unfolding radarr_candidates append_from all_candidates radarr_row_candidates sort_rows insert_row
    has_year_suffix has_suffix itoa digits digits_from trim_space trim_left trim_right is_space
    text_eq mem
with_year_first = refl

longer_first : sort_rows compare_sonarr_rows (frieren ∷ sousou ∷ []) ≡ sousou ∷ frieren ∷ []
unfolding sort_rows insert_row compare_sonarr_rows compare_text compare_ℤ utf8_length
longer_first = refl

sonarr_candidates_lem_example :
    Distinct (queries (sonarr_candidates (frieren ∷ sousou ∷ [])))
    × (mem (codes "Frieren") (queries (sonarr_candidates (frieren ∷ sousou ∷ []))) ≡ true)
unfolding text_eq trim_space trim_left trim_right is_space
sonarr_candidates_lem_example = sonarr_candidates_lem (codes "Frieren") (frieren ∷ sousou ∷ [])

radarr_candidates_lem_example :
    Distinct (queries (radarr_candidates (dune ∷ [])))
    × (mem (codes "Dune") (queries (radarr_candidates (dune ∷ [])))
        ≡ some_row_asks (codes "Dune") (dune ∷ []))
radarr_candidates_lem_example = radarr_candidates_lem (codes "Dune") (dune ∷ [])
