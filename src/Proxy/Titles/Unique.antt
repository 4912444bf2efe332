-- ===== src/Proxy/Titles/Unique.antt =====
-- uniqueNonEmpty: distinct, trimmed texts, none blank (internal/proxy/format.go).
use jproxy_go.Common.{
  ◌≡◌, refl, inl, inr, Bool, true, false, ◌&&◌, ◌||◌, not, List, [], ◌∷◌, ◌++◌, arith, Bool-cases,
  All, Text, text_eq, text_eq_refl, text_eq_iff, is_empty, trim_space, trim_space-trim_space, mem,
  Distinct,
}
use jproxy_go.Proxy.Patterns.{remove_year, remove_episode}
use jproxy_go.Proxy.Titles.{unique_from, unique_non_empty, Kind, search_titles, sonarr, radarr}

-- Whether the list holds a text, but for white space around it.
abbrev pub mem_trimmed : Text → List Text → Bool
mem_trimmed t [] = false
mem_trimmed t (x ∷ xs) = text_eq (trim_space x) t || mem_trimmed t xs

mem-unique_from :
    (t : Text) (seen xs : List Text)
    → mem t (unique_from seen xs) ≡ (not (mem t seen) && not (is_empty t) && mem_trimmed t xs)
unfolding unique_from mem
mem-unique_from t seen [] = ground arith
mem-unique_from t seen (raw ∷ xs) = ground (
  arith,
  mem-unique_from t seen xs,
  mem-unique_from t (trim_space raw ∷ seen) xs,
  text_eq_iff (trim_space raw) t,
)

unique_from-Distinct : (seen xs : List Text) → Distinct (unique_from seen xs)
unfolding unique_from mem
unique_from-Distinct seen [] = tt
unique_from-Distinct seen (raw ∷ xs) = ground (
  arith,
  unique_from-Distinct seen xs,
  unique_from-Distinct (trim_space raw ∷ seen) xs,
  mem-unique_from (trim_space raw) (trim_space raw ∷ seen) xs,
  text_eq_refl (trim_space raw),
)

-- What a list of titles is that uniqueNonEmpty made.
pub record IsTitles (titles : List Text) : Type 0 where
  pub distinct : Distinct titles
  pub none_blank : (t : Text) → mem t titles ≡ true → is_empty t ≡ false
  pub all_trimmed : (t : Text) → mem t titles ≡ true → trim_space t ≡ t

mem_trimmed-trim : (t : Text) (xs : List Text) → mem_trimmed t xs ≡ true → trim_space t ≡ t
mem_trimmed-trim t [] h = absurd (ground arith)
mem_trimmed-trim t (x ∷ xs) h = elim (Bool-cases (text_eq (trim_space x) t)) [
  | inl same ↦ rw (← (text_eq_iff (trim_space x) t).0 same) (trim_space-trim_space x)
  | inr other ↦ mem_trimmed-trim t xs (ground arith)
]

pub unique_non_empty-IsTitles : (xs : List Text) → IsTitles (unique_non_empty xs)
unfolding unique_non_empty mem
unique_non_empty-IsTitles xs = record {
  distinct = unique_from-Distinct [] xs;
  none_blank = λ t h. ground (arith, mem-unique_from t [] xs);
  all_trimmed = λ t h. mem_trimmed-trim t xs (ground (arith, mem-unique_from t [] xs));
}

pub search_titles-IsTitles : (kind : Kind) (k : Text) → IsTitles (search_titles kind k)
unfolding search_titles
search_titles-IsTitles sonarr k = unique_non_empty-IsTitles (remove_episode k ∷ [])
search_titles-IsTitles radarr k = unique_non_empty-IsTitles (k ∷ remove_year k ∷ [])

mem_trimmed-append :
    (t : Text) (xs ys : List Text)
    → mem_trimmed t (xs ++ ys) ≡ (mem_trimmed t xs || mem_trimmed t ys)
mem_trimmed-append t [] ys = refl
mem_trimmed-append t (x ∷ xs) ys = ground (arith, mem_trimmed-append t xs ys)

mem_trimmed-mem :
    (t : Text) (xs : List Text) → All (λ x. trim_space x ≡ x) xs → mem_trimmed t xs ≡ mem t xs
unfolding mem
mem_trimmed-mem t [] v = refl
mem_trimmed-mem t (x ∷ xs) v = ground (arith, v.0, mem_trimmed-mem t xs v.1)

All-of_mem :
    (basic : List Text)
    → ((t : Text) → mem t basic ≡ true → trim_space t ≡ t)
    → All (λ x. trim_space x ≡ x) basic
unfolding mem
All-of_mem [] v = tt
All-of_mem (x ∷ basic) v =
    (v x (ground (arith, text_eq_refl x)), All-of_mem basic (λ t h. v t (ground arith)))

mem_trimmed-basic :
    (basic : List Text) (t : Text) → IsTitles basic → mem_trimmed t basic ≡ mem t basic
mem_trimmed-basic basic t v = mem_trimmed-mem t basic (All-of_mem basic v.all_trimmed)

-- Basic titles that are fit and not met before stay in front of what is joined to them.
unique_from-front :
    (seen basic more : List Text)
    → ((t : Text) → mem t basic ≡ true → mem t seen ≡ false)
    → Distinct basic
    → ((t : Text) → mem t basic ≡ true → is_empty t ≡ false)
    → ((t : Text) → mem t basic ≡ true → trim_space t ≡ t)
    → (rest : List Text) × (unique_from seen (basic ++ more) ≡ basic ++ rest)
unfolding unique_from mem
unique_from-front seen [] more fresh d b v = (unique_from seen more, refl)
unique_from-front seen (x ∷ basic) more fresh d b v =
    let here : mem x (x ∷ basic) ≡ true = ground (arith, text_eq_refl x) in
    let (rest, e) =
      unique_from-front (x ∷ seen) basic more (λ t m. ground (arith, fresh t, d.0, text_eq_iff x t))
        d.1 (λ t m. b t (ground (arith, m))) (λ t m. v t (ground (arith, m))) in
    (rest, ground (arith, e, fresh x here, b x here, v x here))

pub unique_non_empty-front :
    (basic more : List Text)
    → IsTitles basic
    → (rest : List Text) × (unique_non_empty (basic ++ more) ≡ basic ++ rest)
unfolding unique_non_empty mem
unique_non_empty-front basic more v =
    unique_from-front [] basic more (λ t m. refl) v.distinct v.none_blank v.all_trimmed

pub mem-joined :
    (t : Text) (basic more : List Text)
    → IsTitles basic
    → mem t (unique_non_empty (basic ++ more))
      ≡ (not (is_empty t) && (mem t basic || mem_trimmed t more))
unfolding unique_non_empty mem
mem-joined t basic more v = ground (
  arith,
  mem-unique_from t [] (basic ++ more),
  mem_trimmed-append t basic more,
  mem_trimmed-basic basic t v,
)
