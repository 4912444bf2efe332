-- ===== src/Search.antt =====
-- internal/search/candidate.go: the search candidates of the title tables. slices.SortFunc is not
-- stable, but the two comparisons look at every field, so that rows which they call equal are equal;
-- an insertion sort stands for it.
pub mod Distinctness
mod Examples
use Prim.Native.Nat.{compare, Ordering, lt, eq, gt}
use jproxy_go.Common.{
  ◌+◌, Bool, true, false, ◌&&◌, not, List, [], ◌∷◌, ◌++◌, ℤ, pos_part, neg_part, ltb_ℤ, pos,
  if◌then◌else◌, Text, is_empty, trim_space, mem, has_suffix, utf8_length, itoa,
}

-- Candidate
pub record Candidate : Type 0 where
  pub query : Text
  pub main_title : Text
  pub season_number : ℤ
  pub year : ℤ

-- SonarrRow
pub record SonarrRow : Type 0 where
  pub main_title : Text
  pub title : Text
  pub clean_title : Text
  pub season_number : ℤ
  pub monitored : Bool

-- RadarrRow
pub record RadarrRow : Type 0 where
  pub tmdb_id : ℤ
  pub sno : ℤ
  pub main_title : Text
  pub title : Text
  pub clean_title : Text
  pub year : ℤ
  pub monitored : Bool

-- cmp.Compare of integers, and of strings, whose bytes in UTF-8 compare as their code points do
unfoldable pub compare_ℤ : ℤ → ℤ → Ordering
compare_ℤ a b = compare (pos_part a + neg_part b) (pos_part b + neg_part a)

unfoldable pub compare_text : Text → Text → Ordering
compare_text [] [] = eq
compare_text [] (d ∷ t) = lt
compare_text (c ∷ s) [] = gt
compare_text (c ∷ s) (d ∷ t) =
    let rest = compare_text s t in elim (compare c d) [ lt ↦ lt | eq ↦ rest | gt ↦ gt ]

-- if result := …; result != 0 { return result }
abbrev pub or_else : Ordering → Ordering → Ordering
or_else lt o = lt
or_else eq o = o
or_else gt o = gt

-- The test of the field Monitored: a monitored row comes first.
abbrev pub compare_monitored : Bool → Bool → Ordering
compare_monitored true false = lt
compare_monitored false true = gt
compare_monitored true true = eq
compare_monitored false false = eq

unfoldable pub compare_sonarr_rows : SonarrRow → SonarrRow → Ordering
compare_sonarr_rows l r = or_else (compare_monitored l.monitored r.monitored) (
    or_else (compare (utf8_length r.title) (utf8_length l.title)) (
      or_else (compare_text l.title r.title) (
        or_else (compare_text l.main_title r.main_title) (
          or_else (compare_text l.clean_title r.clean_title)
            (compare_ℤ l.season_number r.season_number)))))

unfoldable pub compare_radarr_rows : RadarrRow → RadarrRow → Ordering
compare_radarr_rows l r = or_else (compare_monitored l.monitored r.monitored) (
    or_else (compare_ℤ l.tmdb_id r.tmdb_id) (
      or_else (compare_ℤ l.sno r.sno) (
        or_else (compare_text l.title r.title) (
          or_else (compare_text l.main_title r.main_title)
            (or_else (compare_ℤ l.year r.year) (compare_text l.clean_title r.clean_title))))))

module _ {A : Type 0} (cmp : A → A → Ordering) where
  unfoldable pub insert_row : A → List A → List A
  insert_row x [] = x ∷ []
  insert_row x (y ∷ ys) =
      let rest = insert_row x ys in
      elim (cmp x y) [ lt ↦ x ∷ y ∷ ys | eq ↦ x ∷ y ∷ ys | gt ↦ y ∷ rest ]

  unfoldable pub sort_rows : List A → List A
  sort_rows [] = []
  sort_rows (x ∷ xs) = insert_row x (sort_rows xs)

-- hasYearSuffix, with a space and strconv.FormatInt
abbrev pub year_suffix : ℤ → Text
year_suffix year = 32 ∷ itoa year

unfoldable pub has_year_suffix : Text → ℤ → Bool
has_year_suffix title year = has_suffix (year_suffix year) title

-- The candidates of a row, in the order that they are appended.
unfoldable pub sonarr_row_candidates : SonarrRow → List Candidate
sonarr_row_candidates row =
    let query = trim_space row.title in
    if is_empty query
    then []
    else record {
      query = query;
      main_title = row.main_title;
      season_number = row.season_number;
      year = pos 0;
    }
      ∷ []

abbrev radarr_candidate : RadarrRow → Text → Candidate
radarr_candidate row query = record {
  query = query;
  main_title = row.main_title;
  season_number = pos 0;
  year = row.year;
}

unfoldable pub radarr_row_candidates : RadarrRow → List Candidate
radarr_row_candidates row =
    let query = trim_space row.title in
    if is_empty query
    then []
    else if ltb_ℤ (pos 0) row.year && not (has_year_suffix query row.year)
    then radarr_candidate row (query ++ year_suffix row.year) ∷ radarr_candidate row query ∷ []
    else radarr_candidate row query ∷ []

-- appendCandidate for each, with the set of the queries seen
unfoldable pub append_from : List Text → List Candidate → List Candidate
append_from seen [] = []
append_from seen (c ∷ cs) =
    let skipped = append_from seen cs in
    let kept = append_from (c.query ∷ seen) cs in if mem c.query seen then skipped else c ∷ kept

-- The candidates of all rows, before duplicates go.
unfoldable pub all_candidates {ℓ} : {A : Type ℓ} → (A → List Candidate) → List A → List Candidate
all_candidates of_row [] = []
all_candidates of_row (row ∷ rows) = of_row row ++ all_candidates of_row rows

-- SonarrCandidates and RadarrCandidates
unfoldable pub sonarr_candidates : List SonarrRow → List Candidate
sonarr_candidates rows =
    append_from [] (all_candidates sonarr_row_candidates (sort_rows compare_sonarr_rows rows))

unfoldable pub radarr_candidates : List RadarrRow → List Candidate
radarr_candidates rows =
    append_from [] (all_candidates radarr_row_candidates (sort_rows compare_radarr_rows rows))
