-- ===== src/Search/Distinctness.antt =====
-- The queries of the candidates: distinct, not blank, and no row's title is lost
-- (internal/search/candidate.go, SonarrCandidates and RadarrCandidates).
use Prim.Native.Nat.{Ordering}
use jproxy_go.Common.{
  ◌≡◌, refl, ◌∙◌, Bool, false, ◌&&◌, ◌||◌, not, List, [], ◌∷◌, ◌++◌, arith, ltb_ℤ, pos, Text,
  text_eq, text_eq_refl, text_eq_iff, is_empty, trim_space, mem, Distinct, has_suffix, itoa,
}
use jproxy_go.Search.{
  Candidate, SonarrRow, RadarrRow, compare_sonarr_rows, compare_radarr_rows, insert_row, sort_rows,
  has_year_suffix, sonarr_row_candidates, radarr_row_candidates, append_from, all_candidates,
  sonarr_candidates, radarr_candidates,
}

abbrev pub queries : List Candidate → List Text
queries [] = []
queries (c ∷ cs) = c.query ∷ queries cs

mem-append_from :
    (q : Text) (seen : List Text) (cs : List Candidate)
    → mem q (queries (append_from seen cs)) ≡ (not (mem q seen) && mem q (queries cs))
unfolding append_from mem
mem-append_from q seen [] = ground arith
mem-append_from q seen (c ∷ cs) =
    ground (
      arith,
      mem-append_from q seen cs,
      mem-append_from q (c.query ∷ seen) cs,
      text_eq_iff c.query q,
    )

append_from-Distinct :
    (seen : List Text) (cs : List Candidate) → Distinct (queries (append_from seen cs))
unfolding append_from mem
append_from-Distinct seen [] = tt
append_from-Distinct seen (c ∷ cs) = ground (
  arith,
  append_from-Distinct seen cs,
  append_from-Distinct (c.query ∷ seen) cs,
  mem-append_from c.query (c.query ∷ seen) cs,
  text_eq_refl c.query,
)

queries-append :
    (q : Text) (cs ds : List Candidate)
    → mem q (queries (cs ++ ds)) ≡ (mem q (queries cs) || mem q (queries ds))
unfolding mem
queries-append q [] ds = refl
queries-append q (c ∷ cs) ds = ground (arith, queries-append q cs ds)

module _ {A : Type 0} (of_row : A → List Candidate) where
  -- Whether a row has a query among its candidates.
  unfoldable pub asked_by_any : Text → List A → Bool
  asked_by_any q [] = false
  asked_by_any q (row ∷ rows) = mem q (queries (of_row row)) || asked_by_any q rows

  mem-all_candidates :
      (q : Text) (rows : List A)
      → mem q (queries (all_candidates of_row rows)) ≡ asked_by_any q rows
  unfolding all_candidates asked_by_any mem
  mem-all_candidates q [] = refl
  mem-all_candidates q (row ∷ rows) =
      ground (
        arith,
        mem-all_candidates q rows,
        queries-append q (of_row row) (all_candidates of_row rows),
      )

  module _ (cmp : A → A → Ordering) where
    asked_by_any-insert_row :
        (q : Text) (x : A) (ys : List A)
        → asked_by_any q (insert_row cmp x ys) ≡ asked_by_any q (x ∷ ys)
    unfolding asked_by_any insert_row
    asked_by_any-insert_row q x [] = refl
    asked_by_any-insert_row q x (y ∷ ys) = ground (arith, asked_by_any-insert_row q x ys)

    asked_by_any-sort_rows :
        (q : Text) (rows : List A) → asked_by_any q (sort_rows cmp rows) ≡ asked_by_any q rows
    unfolding asked_by_any sort_rows
    asked_by_any-sort_rows q [] = refl
    asked_by_any-sort_rows q (x ∷ rows) =
        ground
          (arith, asked_by_any-sort_rows q rows, asked_by_any-insert_row q x (sort_rows cmp rows))

    -- The candidates of sorted rows: no query twice, and exactly those that some row asks for.
    candidates_lem :
        (q : Text) (rows : List A)
        → Distinct (queries (append_from [] (all_candidates of_row (sort_rows cmp rows))))
          × (mem q (queries (append_from [] (all_candidates of_row (sort_rows cmp rows))))
              ≡ asked_by_any q rows)
    unfolding mem
    candidates_lem q rows = (
      append_from-Distinct [] all,
      ground (
        arith,
        mem-append_from q [] all,
        mem-all_candidates q (sort_rows cmp rows),
        asked_by_any-sort_rows q rows,
      ),
    )
      where
        all : List Candidate
        all = all_candidates of_row (sort_rows cmp rows)

-- Whether a row has a title, but for white space around it.
abbrev pub title_among : Text → List SonarrRow → Bool
title_among q [] = false
title_among q (row ∷ rows) = text_eq (trim_space row.title) q || title_among q rows

asked_by_title :
    (q : Text) (rows : List SonarrRow)
    → asked_by_any sonarr_row_candidates q rows ≡ (not (is_empty q) && title_among q rows)
unfolding asked_by_any sonarr_row_candidates mem
asked_by_title q [] = ground arith
asked_by_title q (row ∷ rows) =
    ground (arith, asked_by_title q rows, text_eq_iff (trim_space row.title) q)

-- The queries of Sonarr's candidates are distinct, and are just the titles of the rows, trimmed, but
-- for blank ones, whatever the order of the rows.
pub sonarr_candidates_lem :
    (q : Text) (rows : List SonarrRow)
    → Distinct (queries (sonarr_candidates rows))
      × (mem q (queries (sonarr_candidates rows)) ≡ (not (is_empty q) && title_among q rows))
unfolding sonarr_candidates
sonarr_candidates_lem q rows =
    let (distinct, same) = candidates_lem sonarr_row_candidates compare_sonarr_rows q rows in
    (distinct, same ∙ asked_by_title q rows)

-- Whether a row asks for a query: its title, trimmed and not blank, or that title with a space and its
-- year behind, where the year is positive and the title does not end so.
abbrev pub row_asks : Text → RadarrRow → Bool
row_asks q row =
    let title = trim_space row.title in
    not (is_empty title)
    && (text_eq title q
        || ltb_ℤ (pos 0) row.year
          && not (has_suffix (32 ∷ itoa row.year) title)
          && text_eq (title ++ 32 ∷ itoa row.year) q)

abbrev pub some_row_asks : Text → List RadarrRow → Bool
some_row_asks q [] = false
some_row_asks q (row ∷ rows) = row_asks q row || some_row_asks q rows

row_asks_lem :
    (q : Text) (row : RadarrRow) → mem q (queries (radarr_row_candidates row)) ≡ row_asks q row
unfolding radarr_row_candidates has_year_suffix mem
row_asks_lem q row = ground arith

asked_by_row :
    (q : Text) (rows : List RadarrRow)
    → asked_by_any radarr_row_candidates q rows ≡ some_row_asks q rows
unfolding asked_by_any
asked_by_row q [] = refl
asked_by_row q (row ∷ rows) = ground (arith, asked_by_row q rows, row_asks_lem q row)

-- The queries of Radarr's candidates are distinct, and are just those that some row asks for: its title,
-- trimmed and not blank, and that title with its year where the year is positive and not yet its end.
pub radarr_candidates_lem :
    (q : Text) (rows : List RadarrRow)
    → Distinct (queries (radarr_candidates rows))
      × (mem q (queries (radarr_candidates rows)) ≡ some_row_asks q rows)
unfolding radarr_candidates
radarr_candidates_lem q rows =
    let (distinct, same) = candidates_lem radarr_row_candidates compare_radarr_rows q rows in
    (distinct, same ∙ asked_by_row q rows)
