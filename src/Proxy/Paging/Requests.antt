-- ===== src/Proxy/Paging/Requests.antt =====
-- The requests of the paging loop, and what one answer does to its progress
-- (internal/proxy/server.go, executeExpandedSearch).
use mathlib.Core.Path.{subst}
use mathlib.Core.Option
use jproxy_go.Common.{
  ℕ, zero, suc, ◌+◌, ◌-◌, ◌<◌, ◌≡◌, refl, ap, ◌∙◌, ◌⊎◌, inl, inr, false, Option, none, some, List,
  [], ◌∷◌, arith, ℤ, pos_part, neg_part, ◌+ℤ◌, ◌-ℤ◌, ◌≤ℤ◌, +ℤ_parts, -ℤ_parts, eq_of_parts, wrap,
  Fits, wrap-Fits, pos, Bool-cases, length, get_elem?, All, Text, codes, text_eq, digits, itoa,
}
use jproxy_go.Proxy.Patterns.{remove_season_episode}
use jproxy_go.Proxy.Query.{Query, get_param, set_param, get_param-set_param}
use jproxy_go.Proxy.Paging.{
  set_elem, Search, Progress, shifted_query, widens, widened_query, local_query, counted, took,
}

-- The request has an offset that is not negative.
abbrev pub HasOffset : Query → Type 0
HasOffset q = (n : ℕ) × (get_param q (codes "offset") ≡ digits n)

-- An integer that is not negative.
abbrev pub IsCounted : ℤ → Type 0
IsCounted z = pos 0 ≤ℤ z

-- What a search has done since its start.
pub record IsProgress (p : Search) (start s : Progress) : Type 0 where
  pub same_titles : length s.offsets ≡ length p.titles
  pub accounted : s.offset +ℤ s.limit ≡ start.offset +ℤ start.limit
  pub forward : start.offset ≤ℤ s.offset
  pub room : pos 0 ≤ℤ start.limit → pos 0 ≤ℤ s.limit
  pub requests : All (λ q. (q ≡ p.q) ⊎ HasOffset q) s.asked
  pub kept :
      IsCounted start.offset
      → All IsCounted start.offsets
      → All IsCounted s.offsets × All (All IsCounted) s.saved

-- The title before the current one ends where the search stands, or before, and not too far before.
abbrev pub EndsBefore : ℕ → Progress → Type 0
EndsBefore zero s = Unit
EndsBefore (suc i) s =
    (v : ℤ) → get_elem? s.offsets i ≡ some v → (v ≤ℤ s.offset) × Fits (s.offset -ℤ v)

get_elem?-some : (i : ℕ) (xs : List ℤ) → i < length xs → (v : ℤ) × (get_elem? xs i ≡ some v)
get_elem?-some i [] h = absurd (omega (arith, h))
get_elem?-some zero (x ∷ xs) h = (x, refl)
get_elem?-some (suc i) (x ∷ xs) h = get_elem?-some i xs (omega (arith, h))

pub set_elem-some :
    (i : ℕ) (v : ℤ) (xs : List ℤ)
    → i < length xs
    → (ys : List ℤ) × (set_elem xs i v ≡ some ys)
      × (length ys ≡ length xs)
      × (get_elem? ys i ≡ some v)
unfolding set_elem
set_elem-some i v [] h = absurd (omega (arith, h))
set_elem-some zero v (x ∷ xs) h = (v ∷ xs, refl, refl, refl)
set_elem-some (suc i) v (x ∷ xs) h =
    let (ys, set, same, got) = set_elem-some i v xs (omega (arith, h)) in
    (x ∷ ys, rw set refl, ap suc same, got)

cons_set :
    (x : ℤ) (o : Option (List ℤ)) (ys : List ℤ)
    → IsCounted x
    → ((zs : List ℤ) → o ≡ some zs → All IsCounted zs)
    → Option.map (λ zs. x ∷ zs) o ≡ some ys
    → All IsCounted ys
cons_set x none ys k later e = cc
cons_set x (some zs) ys k later e = subst (All IsCounted) (Option.some_inj.0 e) (k, later zs refl)

set_elem-IsCounted :
    (i : ℕ) (v : ℤ) (xs ys : List ℤ)
    → set_elem xs i v ≡ some ys
    → IsCounted v
    → All IsCounted xs
    → All IsCounted ys
unfolding set_elem
set_elem-IsCounted i v [] ys set h k = cc
set_elem-IsCounted zero v (x ∷ xs) ys set h k = ground (arith, set)
set_elem-IsCounted (suc i) v (x ∷ xs) ys set h k =
    cons_set x (set_elem xs i v) ys k.0 (λ zs e. set_elem-IsCounted i v xs zs e h k.1) set

pub counted_le : (xml : Text) (limit : ℤ) → pos 0 ≤ℤ limit → pos (counted xml limit).0 ≤ℤ limit
unfolding counted
counted_le xml limit h = ground arith

itoa_forward : (a b : ℤ) → b ≤ℤ a → (n : ℕ) × (itoa (a -ℤ b) ≡ digits n)
unfolding itoa ◌-ℤ◌
itoa_forward a b h = (pos_part a + neg_part b - (neg_part a + pos_part b), ground arith)

shifted_query-HasOffset :
    (p : Search) (title : Text) (offset before : ℤ)
    → before ≤ℤ offset
    → Fits (offset -ℤ before)
    → HasOffset (shifted_query p title offset before)
unfolding shifted_query text_eq
shifted_query-HasOffset p title offset before h fits =
    let (n, same) = itoa_forward offset before h in
    (
      n,
      get_param-set_param (codes "offset") (codes "offset") (itoa (wrap (offset -ℤ before))) _
          ∙ ap itoa (wrap-Fits (offset -ℤ before) fits)
          ∙ same,
    )

set_param_other :
    (key j value : Text) (q : Query)
    → text_eq key j ≡ false
    → get_param (set_param key value q) j ≡ get_param q j
set_param_other key j value q h = ground (arith, get_param-set_param key j value q)

widened_query-HasOffset : (q : Query) → HasOffset q → HasOffset (widened_query q)
unfolding widened_query text_eq
widened_query-HasOffset q h =
    let q₁ = set_param (codes "season") [] q in
    let q₂ = set_param (codes "ep") [] q₁ in
    (
      h.0,
      set_param_other (codes "q") (codes "offset")
            (remove_season_episode (get_param q₂ (codes "q"))) q₂ refl
          ∙ set_param_other (codes "ep") (codes "offset") [] q₁ refl
          ∙ set_param_other (codes "season") (codes "offset") [] q refl
          ∙ h.1,
    )

-- The query of a turn, where the index is in range.
pub local_query_lem :
    (p : Search) (idx : ℕ) (title : Text) (s : Progress)
    → idx < length s.offsets
    → EndsBefore idx s
    → (q : Query) × (local_query p idx title s ≡ some q) × ((q ≡ p.q) ⊎ HasOffset q)
unfolding local_query
local_query_lem p zero title s h b = (p.q, refl, inl refl)
local_query_lem p (suc i) title s h b =
    let (before, got) = get_elem?-some i s.offsets (omega (arith, h)) in
    let shifted = shifted_query p title s.offset before in
    let fits : HasOffset shifted =
      shifted_query-HasOffset p title s.offset before (b before got).0 (b before got).1 in
    elim (Bool-cases (widens p (suc i) before)) [
      | inl wide ↦ (widened_query shifted, ground arith, inr (widened_query-HasOffset shifted fits))
      | inr narrow ↦ (shifted, ground arith, inr fits)
    ]

pub took-IsProgress :
    (p : Search) (start s : Progress) (local : Query) (answer : ℕ × Text) (offsets : List ℤ)
    (idx : ℕ)
    → IsProgress p start s
    → set_elem s.offsets idx (wrap (s.offset +ℤ pos answer.0)) ≡ some offsets
    → length offsets ≡ length s.offsets
    → pos answer.0 ≤ℤ s.limit
    → (local ≡ p.q) ⊎ HasOffset local
    → wrap (s.offset +ℤ pos answer.0) ≡ s.offset +ℤ pos answer.0
    → wrap (s.limit -ℤ pos answer.0) ≡ s.limit -ℤ pos answer.0
    → IsProgress p start (took local answer offsets s)
unfolding took
took-IsProgress p start s local (count, xml) offsets idx v set same fits asks far less = record {
  same_titles = same ∙ v.same_titles;
  accounted =
      rw (far, less)
        (eq_of_parts _ _ (
          omega (
            arith,
            +ℤ_parts (s.offset +ℤ pos count) (s.limit -ℤ pos count),
            +ℤ_parts s.offset (pos count),
            -ℤ_parts s.limit (pos count),
            +ℤ_parts s.offset s.limit,
            +ℤ_parts start.offset start.limit,
            ap pos_part v.accounted,
            ap neg_part v.accounted,
          )));
  forward = rw far (omega (arith, +ℤ_parts s.offset (pos count), v.forward));
  room = λ h. rw less (omega (arith, -ℤ_parts s.limit (pos count), fits));
  requests = (asks, v.requests);
  kept = λ h k.
      let (before, saved) = v.kept h k in
      let end_counted : IsCounted (wrap (s.offset +ℤ pos count)) =
        rw far (omega (arith, h, +ℤ_parts s.offset (pos count), v.forward)) in
      let now =
        set_elem-IsCounted idx (wrap (s.offset +ℤ pos count)) s.offsets offsets set end_counted
          before in
      (now, (now, saved));
}
