-- ===== src/Sync/Title.antt =====
-- internal/sync/title: id.go, sonarr_mapper.go, radarr_mapper.go and service.go, the titles of Sonarr's series
-- and of Radarr's films as rows of the database. An int64 is an integer; an index is a number.
pub mod Numbering
mod Examples
use jproxy_go.Common.{
  ℕ, suc, ◌-◌, ◌^◌, Bool, false, ◌&&◌, ◌||◌, not, Option, none, some, List, [], ◌∷◌, ◌++◌, ℤ, ltb_ℤ,
  eq_ℤ, pos, negsuc, ltb, leb, ◌==◌, if◌then◌else◌, length, take, drop, Text, is_empty, is_digit,
  decimal_from, digits,
}
use jproxy_go.Format.Cleaning.{Engine, clean_title}

-- stableID; strconv.ParseInt with 32 bits.
unfoldable pub stable_id : ℤ → ℕ → Option ℕ
stable_id (pos external) sno =
    let value = decimal_from 0 (digits external ++ digits sno) in
    if external == 0 || not (ltb value (2 ^ 31)) then none else some value
stable_id (negsuc n) sno = none

unfoldable pub mem_id : ℕ → List ℕ → Bool
mem_id n [] = false
mem_id n (m ∷ ms) = n == m || mem_id n ms

unfoldable pub mem_coordinate : ℤ → ℕ → List (ℤ × ℕ) → Bool
mem_coordinate external sno [] = false
mem_coordinate external sno ((e, n) ∷ cs) =
    (eq_ℤ external e && sno == n) || mem_coordinate external sno cs

-- The maps ids and coordinates of the mappers.
pub record Taken : Type 0 where
  pub ids : List ℕ
  pub coordinates : List (ℤ × ℕ)

-- The tests of a title in a mapper: its id, and what is taken with it; `none` is errInvalidRows.
unfoldable pub take_place : ℤ → ℕ → Taken → Option (ℕ × Taken)
take_place external sno taken = elim (stable_id external sno) [
  | none ↦ none
  | some id ↦
      if mem_coordinate external sno taken.coordinates || mem_id id taken.ids
      then none
      else some
          (id, record { ids = id ∷ taken.ids; coordinates = (external, sno) ∷ taken.coordinates })
]

-- A row before the rows that follow.
abbrev pub in_front : {R : Type 0} → R → Option (List R × Taken) → Option (List R × Taken)
in_front row none = none
in_front row (some (rows, taken)) = some (row ∷ rows, taken)

abbrev pub all_in_front : {R : Type 0} → List R → Option (List R) → Option (List R)
all_in_front rows none = none
all_in_front rows (some rest) = some (rows ++ rest)

module _ {C R : Type 0} (title_of : C → Text) (make : ℕ → ℕ → C → R) (external : ℤ) where
  -- The inner loop of a mapper, from an index.
  unfoldable pub map_candidates : ℕ → List C → Taken → Option (List R × Taken)
  map_candidates sno [] taken = some ([], taken)
  map_candidates sno (c ∷ cs) taken =
      if is_empty (title_of c) then none else elim (take_place external sno taken) [
        | none ↦ none
        | some place ↦ in_front (make place.0 sno c) (map_candidates (suc sno) cs place.1)
      ]

-- SonarrAlternateTitle and SonarrSeries
pub record AlternateTitle : Type 0 where
  pub title : Text
  pub scene_season_number : ℤ

pub record Series : Type 0 where
  pub id : ℤ
  pub tvdb_id : ℤ
  pub title : Text
  pub title_slug : Text
  pub monitored : Bool
  pub alternate_titles : List AlternateTitle

-- RadarrMovie; the alternate titles are texts.
pub record Movie : Type 0 where
  pub id : ℤ
  pub tmdb_id : ℤ
  pub title : Text
  pub path : Text
  pub clean_title : Text
  pub original_title : Text
  pub year : ℤ
  pub monitored : Bool
  pub alternate_titles : List Text

-- The fields of sqlite.SonarrTitle and sqlite.RadarrTitle that the mappers set.
pub record SonarrTitleRow : Type 0 where
  pub id : ℕ
  pub tvdb_id : ℤ
  pub sno : ℕ
  pub main_title : Text
  pub title : Text
  pub clean_title : Text
  pub season_number : ℤ
  pub monitored : Bool
  pub series_id : ℤ

pub record RadarrTitleRow : Type 0 where
  pub id : ℕ
  pub tmdb_id : ℤ
  pub sno : ℕ
  pub main_title : Text
  pub title : Text
  pub clean_title : Text
  pub year : ℤ
  pub monitored : Bool
  pub movie_id : ℤ

-- The part of a path after its last slash or backslash; `none` where there is neither.
unfoldable pub after_separator : Text → Option Text
after_separator [] = none
after_separator (c ∷ s) = elim (after_separator s) [
  | some rest ↦ some rest
  | none ↦ if c == 47 || c == 92 then some s else none
]

-- yearSuffix, as a whole text
unfoldable pub is_year_suffix : Text → Bool
is_year_suffix (s ∷ o ∷ a ∷ b ∷ c ∷ d ∷ e ∷ []) =
    s == 32 && o == 40 && is_digit a && is_digit b && is_digit c && is_digit d && e == 41
is_year_suffix _ = false

-- titleFromPath
unfoldable pub title_from_path : Text → Text
title_from_path path =
    let name : Text = elim (after_separator path) [ none ↦ path | some rest ↦ rest ] in
    if is_year_suffix (drop (length name - 7) name) then take (length name - 7) name else name

module _ (engine : Engine) (clean_regex : Text) where
  -- The body of the loop of MapSonarr, for the titles of a series.
  unfoldable pub sonarr_row : Series → ℕ → ℕ → AlternateTitle → SonarrTitleRow
  sonarr_row value id sno candidate = record {
    id = id;
    tvdb_id = value.tvdb_id;
    sno = sno;
    main_title = value.title;
    title = if leb 2 sno then candidate.title else value.title;
    clean_title = clean_title engine candidate.title clean_regex;
    season_number = candidate.scene_season_number;
    monitored = value.monitored;
    series_id = value.id;
  }

  unfoldable pub sonarr_series : Series → Taken → Option (List SonarrTitleRow × Taken)
  sonarr_series value taken =
      if not (ltb_ℤ (pos 0) value.id)
        || not (ltb_ℤ (pos 0) value.tvdb_id)
        || is_empty value.title
        || is_empty value.title_slug
      then none
      else map_candidates (λ (c : AlternateTitle). c.title) (sonarr_row value) value.tvdb_id 0
          (record { title = value.title; scene_season_number = negsuc 0 }
            ∷ record { title = value.title_slug; scene_season_number = negsuc 0 }
            ∷ value.alternate_titles)
          taken

  -- The body of the loop of MapRadarr, for the titles of a film.
  unfoldable pub radarr_row : Movie → ℕ → ℕ → Text → RadarrTitleRow
  radarr_row value id sno title = record {
    id = id;
    tmdb_id = value.tmdb_id;
    sno = sno;
    main_title = value.title;
    title = title;
    clean_title = if sno == 2 then value.clean_title else clean_title engine title clean_regex;
    year = value.year;
    monitored = value.monitored;
    movie_id = value.id;
  }

  unfoldable pub radarr_movie : Movie → Taken → Option (List RadarrTitleRow × Taken)
  radarr_movie value taken =
      let path_title = title_from_path value.path in
      if not (ltb_ℤ (pos 0) value.id)
        || not (ltb_ℤ (pos 0) value.tmdb_id)
        || is_empty value.title
        || is_empty value.path
        || is_empty path_title
        || is_empty value.clean_title
        || is_empty value.original_title
        || ltb_ℤ value.year (pos 0)
        || ltb_ℤ (pos 9999) value.year
      then none
      else map_candidates (λ (t : Text). t) (radarr_row value) value.tmdb_id 0
          (value.title ∷ path_title ∷ path_title ∷ value.original_title ∷ value.alternate_titles)
          taken

-- The outer loop of a mapper.
unfoldable pub map_values :
    {V R : Type 0} → (V → Taken → Option (List R × Taken)) → List V → Taken → Option (List R)
map_values one [] taken = some []
map_values one (v ∷ vs) taken = elim (one v taken) [
  | none ↦ none
  | some rows ↦ all_in_front rows.0 (map_values one vs rows.1)
]

abbrev pub nothing_taken : Taken
nothing_taken = record { ids = []; coordinates = [] }

-- MapSonarr and MapRadarr
unfoldable pub map_sonarr : Engine → Text → List Series → Option (List SonarrTitleRow)
map_sonarr engine clean_regex values =
    map_values (sonarr_series engine clean_regex) values nothing_taken

unfoldable pub map_radarr : Engine → Text → List Movie → Option (List RadarrTitleRow)
map_radarr engine clean_regex values =
    map_values (radarr_movie engine clean_regex) values nothing_taken
