-- ===== src/Proxy/Titles/Expansion.antt =====
-- The expanded titles: distinct, not blank, and asked for (internal/proxy/search_expansion.go).
use jproxy_go.Common.{
  ◌≡◌, refl, sym, ◌⊎◌, inl, inr, Bool, true, ◌&&◌, ◌||◌, Option, none, some, List, [], ◌∷◌, ◌++◌,
  Memᴰ, append-nil, arith, ℤ, Bool-cases, Option-cases, Text, text_eq, text_eq_iff, is_empty,
  trim_space, mem,
}
use jproxy_go.Search.{Candidate, sonarr_candidates, radarr_candidates}
use jproxy_go.Proxy.Patterns.{remove_year, radarr_search_year}
use jproxy_go.Proxy.Titles.Unique.{
  mem_trimmed, IsTitles, unique_non_empty-IsTitles, search_titles-IsTitles, unique_non_empty-front,
  mem-joined,
}
use jproxy_go.Proxy.Titles.{
  unique_non_empty, Kind, search_titles, first_candidate, exact_candidate, year_fits,
  anchor_by_query, head_text, radarr_anchor, sonarr_joins, radarr_joins, queries_of, joined_titles,
  no_candidates, no_titles, sonarr_search_titles, radarr_search_titles, expanded_search_titles,
  sonarr, radarr,
}

first_candidate-Memᴰ :
    (test : Candidate → Bool) (cs : List Candidate) (c : Candidate)
    → first_candidate test cs ≡ some c
    → Memᴰ c cs
unfolding first_candidate
first_candidate-Memᴰ test [] c h = absurd (ground arith)
first_candidate-Memᴰ test (d ∷ cs) c h = elim (Bool-cases (test d)) [
  | inl passes ↦ Memᴰ.head (ground arith)
  | inr fails ↦ Memᴰ.tail (first_candidate-Memᴰ test cs c (ground arith))
]

anchor_by_query-Memᴰ :
    (year : ℤ) (basic : List Text) (cs : List Candidate) (c : Candidate)
    → anchor_by_query year basic cs ≡ some c
    → Memᴰ c cs
unfolding anchor_by_query
anchor_by_query-Memᴰ year [] cs c h = absurd (ground arith)
anchor_by_query-Memᴰ year (q ∷ basic) cs c h =
    let test = λ (d : Candidate). text_eq d.query q && year_fits year d in
    elim (Option-cases (first_candidate test cs)) [
      | inl none_found ↦ anchor_by_query-Memᴰ year basic cs c (ground arith)
      | inr (d, found) ↦ first_candidate-Memᴰ test cs c (ground arith)
    ]

radarr_anchor-Memᴰ :
    (basic : List Text) (cs : List Candidate) (c : Candidate)
    → radarr_anchor basic cs ≡ some c
    → Memᴰ c cs
unfolding radarr_anchor
radarr_anchor-Memᴰ basic cs c h =
    let year = radarr_search_year (head_text basic) in
    elim (Option-cases (anchor_by_query year basic cs)) [
      | inl none_found ↦
          (first_candidate-Memᴰ
            (λ d. text_eq (remove_year d.query) (remove_year (head_text basic)) && year_fits year d)
            cs c (ground arith))
      | inr (d, found) ↦ anchor_by_query-Memᴰ year basic cs c (ground arith)
    ]

-- A title comes from a candidate that passes the test.
abbrev pub IsQueryOf : (Candidate → Bool) → List Candidate → Text → Type 0
IsQueryOf test cs t = (c : Candidate) × Memᴰ c cs × (test c ≡ true) × (trim_space c.query ≡ t)

mem_trimmed-queries_of :
    (test : Candidate → Bool) (cs : List Candidate) (t : Text)
    → mem_trimmed t (queries_of test cs) ≡ true
    → IsQueryOf test cs t
unfolding queries_of
mem_trimmed-queries_of test [] t h = absurd (ground arith)
mem_trimmed-queries_of test (d ∷ cs) t h =
    elim (Bool-cases (test d && text_eq (trim_space d.query) t)) [
      | inl here ↦
          (d, Memᴰ.head refl, ground arith, ground (arith, text_eq_iff (trim_space d.query) t))
      | inr there ↦
          let (c, m, passes, same) = mem_trimmed-queries_of test cs t (ground arith) in
          (c, Memᴰ.tail m, passes, same)
    ]

-- The anchor of an expansion.
abbrev pub anchor_of : Kind → List Text → List Candidate → Option Candidate
anchor_of sonarr basic cs = exact_candidate (head_text basic) cs
anchor_of radarr basic cs = radarr_anchor basic cs

abbrev pub joins_of : Kind → Candidate → Candidate → Bool
joins_of sonarr = sonarr_joins
joins_of radarr = radarr_joins

-- A title that a candidate adds: the anchor of the query is one of the candidates, and the title is
-- the query of a candidate that joins the anchor.
abbrev pub IsAdded : Kind → List Text → List Candidate → Text → Type 0
IsAdded kind basic cs t =
    (anchor : Candidate) × (anchor_of kind basic cs ≡ some anchor)
    × Memᴰ anchor cs
    × IsQueryOf (joins_of kind anchor) cs t

anchor_of-Memᴰ :
    (kind : Kind) (basic : List Text) (cs : List Candidate) (c : Candidate)
    → anchor_of kind basic cs ≡ some c
    → Memᴰ c cs
unfolding exact_candidate
anchor_of-Memᴰ sonarr basic cs c h =
    first_candidate-Memᴰ (λ d. text_eq d.query (head_text basic)) cs c h
anchor_of-Memᴰ radarr basic cs c h = radarr_anchor-Memᴰ basic cs c h

-- What the expansion of basic titles is.
pub record IsExpansion (kind : Kind) (basic : List Text) (cs : List Candidate) (titles : List Text)
    : Type 0 where
  pub titles_fit : IsTitles titles
  pub in_front : (rest : List Text) × (titles ≡ basic ++ rest)
  pub adds : (t : Text) → mem t titles ≡ true → (mem t basic ≡ true) ⊎ IsAdded kind basic cs t

basic-IsExpansion :
    (kind : Kind) (basic : List Text) (cs : List Candidate)
    → IsTitles basic
    → IsExpansion kind basic cs basic
basic-IsExpansion kind basic cs v = record {
  titles_fit = v;
  in_front = ([], sym (append-nil basic));
  adds = λ t h. inl h;
}

anchored-IsExpansion :
    (kind : Kind) (basic : List Text) (cs : List Candidate) (anchor : Candidate)
    → IsTitles basic
    → anchor_of kind basic cs ≡ some anchor
    → IsExpansion kind basic cs (unique_non_empty (basic ++ queries_of (joins_of kind anchor) cs))
anchored-IsExpansion kind basic cs anchor v h = record {
  titles_fit = unique_non_empty-IsTitles (basic ++ more);
  in_front = unique_non_empty-front basic more v;
  adds = λ t m. elim (Bool-cases (mem t basic)) [
    | inl old ↦ inl old
    | inr new ↦ inr (
      anchor,
      h,
      anchor_of-Memᴰ kind basic cs anchor h,
      mem_trimmed-queries_of (joins_of kind anchor) cs t
          (ground (arith, mem-joined t basic more v)),
    )
  ];
}
  where
    more : List Text
    more = queries_of (joins_of kind anchor) cs

joined-IsExpansion :
    (kind : Kind) (basic : List Text) (cs : List Candidate) (o : Option Candidate)
    → IsTitles basic
    → anchor_of kind basic cs ≡ o
    → IsExpansion kind basic cs (joined_titles (joins_of kind) basic o cs)
unfolding joined_titles
joined-IsExpansion kind basic cs none v h = basic-IsExpansion kind basic cs v
joined-IsExpansion kind basic cs (some anchor) v h =
    elim (Bool-cases (is_empty (trim_space anchor.main_title))) [
      | inl blank ↦ rw blank (basic-IsExpansion kind basic cs v)
      | inr filled ↦ rw filled (anchored-IsExpansion kind basic cs anchor v h)
    ]

abbrev pub candidates_of : Kind → List Candidate → List Candidate → List Candidate
candidates_of sonarr sonarr_candidates radarr_candidates = sonarr_candidates
candidates_of radarr sonarr_candidates radarr_candidates = radarr_candidates

-- The titles of a search are distinct, trimmed and not blank; the basic ones, all of them and in their
-- order, stand in front. Every other is the query of a candidate of the kind's snapshot that joins the anchor of
-- the search, itself one of these candidates.
pub expanded_search_titles_lem :
    (kind : Kind) (k : Text) (sc rc : List Candidate)
    → IsExpansion kind
        (search_titles kind k)
        (candidates_of kind sc rc)
        (expanded_search_titles kind k sc rc)
unfolding expanded_search_titles sonarr_search_titles radarr_search_titles
expanded_search_titles_lem sonarr k sc rc =
    let basic = search_titles sonarr k in
    elim (Bool-cases (no_titles basic || no_candidates sc)) [
      | inl nothing ↦
          rw nothing (basic-IsExpansion sonarr basic sc (search_titles-IsTitles sonarr k))
      | inr both ↦ rw both (
          joined-IsExpansion sonarr basic sc (anchor_of sonarr basic sc)
            (search_titles-IsTitles sonarr k) refl)
    ]
expanded_search_titles_lem radarr k sc rc =
    let basic = search_titles radarr k in
    elim (Bool-cases (no_titles basic || no_candidates rc)) [
      | inl nothing ↦
          rw nothing (basic-IsExpansion radarr basic rc (search_titles-IsTitles radarr k))
      | inr both ↦ rw both (
          joined-IsExpansion radarr basic rc (anchor_of radarr basic rc)
            (search_titles-IsTitles radarr k) refl)
    ]
