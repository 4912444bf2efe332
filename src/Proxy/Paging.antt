-- ===== src/Proxy/Paging.antt =====
-- internal/proxy/server.go, executeExpandedSearch: the titles of a search as one list of results, that
-- a client reads in pages. The end of what each title gave so far is cached as `offsets`.
pub mod Start
pub mod Requests
pub mod Bounds
pub mod Turns
mod Examples
use jproxy_go.Common.{
  ℕ, zero, suc, Bool, true, false, ◌&&◌, ◌||◌, Option, none, some, List, [], ◌∷◌, map, ℤ, pos_part,
  ◌+ℤ◌, ◌-ℤ◌, ltb_ℤ, leb_ℤ, eq_ℤ, wrap, pos, ltb, ◌==◌, if◌then◌else◌, length, drop, get_elem?,
  Text, codes, is_empty, replace_first, itoa,
}
use mathlib.Core.Option
use jproxy_go.Proxy.Patterns.{remove_season_episode}
use jproxy_go.Proxy.Xml.{count_items, merge_xml, trim_xml_items}
use jproxy_go.Proxy.Query.{Query, get_param, set_param, int_param}

-- The loop of calculateCurrentIndex, from an index on.
unfoldable pub reaching_from : ℕ → ℤ → List ℤ → Option ℕ
reaching_from i offset [] = none
reaching_from i offset (v ∷ offsets) =
    let rest = reaching_from (suc i) offset offsets in if leb_ℤ offset v then some i else rest

unfoldable pub calculate_current_index : ℤ → List ℤ → ℤ
calculate_current_index offset offsets =
    if eq_ℤ offset (pos 0) then pos 0 else elim (reaching_from 0 offset offsets) [
      | some i ↦ pos i
      | none ↦ pos (length offsets) -ℤ pos 1
    ]

-- offsets[i] = v; `none` is a panic.
unfoldable pub set_elem : List ℤ → ℕ → ℤ → Option (List ℤ)
set_elem [] i v = none
set_elem (x ∷ xs) zero v = some (v ∷ xs)
set_elem (x ∷ xs) (suc i) v = Option.map (λ ys. x ∷ ys) (set_elem xs i v)

-- What the loop does not change.
pub record Search : Type 0 where
  pub q : Query
  pub titles : List Text
  pub min_count : ℤ

-- What it does; `asked` has the requests made, the last one first, and `saved` the values that the
-- offset cache got.
pub record Progress : Type 0 where
  pub offset : ℤ
  pub limit : ℤ
  pub offsets : List ℤ
  pub merged : Text
  pub asked : List Query
  pub saved : List (List ℤ)

pub data Outcome : Type 0 where
  finished : Progress → Outcome
  failed : Progress → Outcome
  panicked : Outcome

abbrev head_title : List Text → Text
head_title [] = []
head_title (x ∷ xs) = x

-- if idx > 0 { localQ.Set("q", …); localQ.Set("offset", …) }, where `before` is offsets[idx-1]
unfoldable pub shifted_query : Search → Text → ℤ → ℤ → Query
shifted_query p title offset before = set_param (codes "offset") (itoa (wrap (offset -ℤ before))) (
    set_param (codes "q") (replace_first (get_param p.q (codes "q")) (head_title p.titles) title)
      p.q)

-- The test of the last title, and what it does to the query.
abbrev pub widens : Search → ℕ → ℤ → Bool
widens p idx before =
    ltb 2 (length p.titles)
    && suc idx == length p.titles
    && ltb_ℤ (pos 0) p.min_count
    && ltb_ℤ before p.min_count

unfoldable pub widened_query : Query → Query
widened_query q =
    let q₁ = set_param (codes "season") [] q in
    let q₂ = set_param (codes "ep") [] q₁ in
    set_param (codes "q") (remove_season_episode (get_param q₂ (codes "q"))) q₂

-- localQ; `none` is a panic at offsets[idx-1].
unfoldable pub local_query : Search → ℕ → Text → Progress → Option Query
local_query p zero title s = some p.q
local_query p (suc i) title s = elim (get_elem? s.offsets i) [
  | none ↦ none
  | some before ↦
      let q = shifted_query p title s.offset before in
      some (if widens p (suc i) before then widened_query q else q)
]

-- The count of an answer, and the answer, cut to the limit, which is positive in the loop.
unfoldable pub counted : Text → ℤ → ℕ × Text
counted xml limit =
    if ltb_ℤ limit (pos (count_items xml))
    then (pos_part limit, trim_xml_items xml limit)
    else (count_items xml, xml)

-- What the loop body does with an answer, but for the offsets.
unfoldable pub took : Query → ℕ × Text → List ℤ → Progress → Progress
took local (count, xml) offsets s = record {
  offset = wrap (s.offset +ℤ pos count);
  limit = wrap (s.limit -ℤ pos count);
  offsets = offsets;
  merged = if ltb 0 count || is_empty s.merged then merge_xml s.merged xml else s.merged;
  asked = local ∷ s.asked;
  saved = offsets ∷ s.saved;
}

-- offsets = make([]int, n)
unfoldable pub zeros : ℕ → List ℤ
zeros zero = []
zeros (suc n) = pos 0 ∷ zeros n

-- What the offset cache had, if it fits the titles.
unfoldable pub start_offsets : Option (List ℤ) → ℕ → List ℤ
start_offsets none n = zeros n
start_offsets (some offsets) n = if length offsets == n then offsets else zeros n

unfoldable pub start_progress : Search → Option (List ℤ) → Progress
start_progress p cached = record {
  offset = int_param p.q (codes "offset") (pos 0);
  limit = int_param p.q (codes "limit") (pos 100);
  offsets = start_offsets cached (length p.titles);
  merged = [];
  asked = [];
  saved = [];
}

-- executeRequest of the queries asked before and the one asked now; `none` is an error.
module _ (execute : List Query → Query → Option Text) where
  -- One turn of the loop.
  unfoldable pub turn : Search → ℕ → Text → Progress → Outcome
  turn p idx title s = elim (local_query p idx title s) [
    | none ↦ panicked
    | some local ↦ elim (execute s.asked local) [
      | none ↦ failed (record s { asked = local ∷ s.asked })
      | some xml ↦
          let answer = counted xml s.limit in
          elim (set_elem s.offsets idx (wrap (s.offset +ℤ pos answer.0))) [
            | none ↦ panicked
            | some offsets ↦ finished (took local answer offsets s)
          ]
    ]
  ]

  -- for ; idx < len(titles) && limit > 0; idx++, over the titles that are left
  unfoldable pub turns : Search → ℕ → List Text → Progress → Outcome
  turns p idx [] s = finished s
  turns p idx (title ∷ titles) s = elim (ltb_ℤ (pos 0) s.limit) [
    | false ↦ finished s
    | true ↦ elim (turn p idx title s) [
      | finished t ↦ turns p (suc idx) titles t
      | failed t ↦ failed t
      | panicked ↦ panicked
    ]
  ]

  -- The loop, for titles that are not none; `cached` is the answer of the offset cache.
  unfoldable pub paged_search : Search → Option (List ℤ) → Outcome
  paged_search p cached =
      let s = start_progress p cached in
      let idx = pos_part (calculate_current_index s.offset s.offsets) in
      turns p idx (drop idx p.titles) s
