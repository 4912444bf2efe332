-- ===== src/Sync/Title/Numbering.antt =====
-- The ids of the rows that the mappers make.
use jproxy_go.Common.{
  ℕ, suc, ◌^◌, ◌<◌, ◌≡◌, refl, ap, ◌∙◌, inl, inr, Bool, true, false, ◌&&◌, not, Option, none, some,
  List, [], ◌∷◌, ◌++◌, arith, ℤ, pos, negsuc, if◌then◌else◌, Bool-cases, Option-cases, All,
  All-append, Text, is_empty,
}
use jproxy_go.Sync.Title.{
  stable_id, mem_id, Taken, take_place, in_front, all_in_front, map_candidates, AlternateTitle,
  Series, Movie, SonarrTitleRow, RadarrTitleRow, sonarr_row, sonarr_series, radarr_row,
  radarr_movie, map_values, nothing_taken, map_sonarr, map_radarr,
}
use jproxy_go.Format.Cleaning.{Engine}

-- Whether ids are distinct, and none is one of those before them.
unfoldable pub all_new : List ℕ → List ℕ → Bool
all_new taken [] = true
all_new taken (n ∷ ns) = not (mem_id n taken) && all_new (n ∷ taken) ns

abbrev push : List ℕ → List ℕ → List ℕ
push [] taken = taken
push (n ∷ ns) taken = push ns (n ∷ taken)

push-append : (ms ns taken : List ℕ) → push (ms ++ ns) taken ≡ push ns (push ms taken)
push-append [] ns taken = refl
push-append (m ∷ ms) ns taken = push-append ms ns (m ∷ taken)

all_new-append :
    (ms ns taken : List ℕ)
    → all_new taken ms ≡ true
    → all_new (push ms taken) ns ≡ true
    → all_new taken (ms ++ ns) ≡ true
unfolding all_new
all_new-append [] ns taken h k = k
all_new-append (m ∷ ms) ns taken h k =
    ground (arith, h, all_new-append ms ns (m ∷ taken) (ground (arith, h)) k)

take_place_lem :
    (external : ℤ) (sno id : ℕ) (taken after : Taken)
    → take_place external sno taken ≡ some (id, after)
    → (stable_id external sno ≡ some id)
      × (mem_id id taken.ids ≡ false)
      × (after.ids ≡ id ∷ taken.ids)
unfolding take_place
take_place_lem external sno id taken after h = ground arith

stable_id_lt : (external : ℤ) (sno id : ℕ) → stable_id external sno ≡ some id → id < 2 ^ 31
unfolding stable_id
stable_id_lt (pos n) sno id h = ground arith
stable_id_lt (negsuc n) sno id h = ground arith

-- A way to read off a row its id, its external id and its index.
pub record Reading (R : Type 0) : Type 0 where
  pub id_of : R → ℕ
  pub external_of : R → ℤ
  pub sno_of : R → ℕ

module _ {R : Type 0} (reading : Reading R) where
  abbrev pub ids_of : List R → List ℕ
  ids_of [] = []
  ids_of (r ∷ rs) = reading.id_of r ∷ ids_of rs

  ids_of-append : (rs ss : List R) → ids_of (rs ++ ss) ≡ ids_of rs ++ ids_of ss
  ids_of-append [] ss = refl
  ids_of-append (r ∷ rs) ss = ap (λ ns. reading.id_of r ∷ ns) (ids_of-append rs ss)

  -- A row has the id that its external id and its index give, and it fits into 32 bits.
  abbrev pub IsStable : R → Type 0
  IsStable r =
      (stable_id (reading.external_of r) (reading.sno_of r) ≡ some (reading.id_of r))
      × (reading.id_of r < 2 ^ 31)

  -- Rows have distinct ids, none of them taken before, each the one of its external id and index.
  abbrev IsNumbered : Taken → List R → Taken → Type 0
  IsNumbered before rows after =
      (all_new before.ids (ids_of rows) ≡ true)
      × (after.ids ≡ push (ids_of rows) before.ids)
      × All IsStable rows

  abbrev Numbers : Taken → Option (List R × Taken) → Type 0
  Numbers before none = Unit {0}
  Numbers before (some (rows, after)) = IsNumbered before rows after

  in_front-Numbers :
      (row : R) (before between : Taken) (o : Option (List R × Taken))
      → IsStable row
      → mem_id (reading.id_of row) before.ids ≡ false
      → between.ids ≡ reading.id_of row ∷ before.ids
      → Numbers between o
      → Numbers before (in_front row o)
  unfolding all_new
  in_front-Numbers row before between none stable new taken rest = tt
  in_front-Numbers row before between (some (rows, after)) stable new taken (fresh, pushed, all) =
      (ground (arith, new, taken, fresh), pushed ∙ ap (push (ids_of rows)) taken, (stable, all))

  module _ {C : Type 0} (title_of : C → Text) (make : ℕ → ℕ → C → R) (external : ℤ)
      (made : (id sno : ℕ) (c : C)
        → (reading.id_of (make id sno c) ≡ id)
          × (reading.external_of (make id sno c) ≡ external)
          × (reading.sno_of (make id sno c) ≡ sno)) where
    made-IsStable :
        (id sno : ℕ) (c : C) → stable_id external sno ≡ some id → IsStable (make id sno c)
    made-IsStable id sno c h = ground (arith, made id sno c, h, stable_id_lt external sno id h)

    pub map_candidates-Numbers :
        (sno : ℕ) (cs : List C) (before : Taken)
        → Numbers before (map_candidates title_of make external sno cs before)
    unfolding map_candidates all_new
    map_candidates-Numbers sno [] before = (refl, refl, tt)
    map_candidates-Numbers sno (c ∷ cs) before = elim (Bool-cases (is_empty (title_of c))) [
      | inl blank ↦ rw blank tt
      | inr named ↦ elim (Option-cases (take_place external sno before)) [
        | inl refused ↦ rw (named, refused) tt
        | inr ((id, between), placed) ↦
            let (stable, new, taken) = take_place_lem external sno id before between placed in
            let (same, _, _) = made id sno c in
            rw (named, placed)
              (in_front-Numbers (make id sno c) before between
                (map_candidates title_of make external (suc sno) cs between)
                (made-IsStable id sno c stable) (ground (arith, same, new))
                (ground (arith, same, taken)) (map_candidates-Numbers (suc sno) cs between))
      ]
    ]

  -- Rows that are mapped, from what is taken.
  abbrev pub AllNumbered : Taken → Option (List R) → Type 0
  AllNumbered before none = Unit {0}
  AllNumbered before (some rows) = (all_new before.ids (ids_of rows) ≡ true) × All IsStable rows

  all_in_front-AllNumbered :
      (rows : List R) (before between : Taken) (o : Option (List R))
      → IsNumbered before rows between
      → AllNumbered between o
      → AllNumbered before (all_in_front rows o)
  all_in_front-AllNumbered rows before between none first rest = tt
  all_in_front-AllNumbered rows before between (some more) (fresh, pushed, all) (later, others) = (
    rw (ids_of-append rows more)
        (all_new-append (ids_of rows) (ids_of more) before.ids fresh (rw⁻¹ pushed later)),
    All-append IsStable rows more all others,
  )

  map_values-AllNumbered :
      {V : Type 0} (one : V → Taken → Option (List R × Taken))
      → ((v : V) (before : Taken) → Numbers before (one v before))
      → (vs : List V) (before : Taken) → AllNumbered before (map_values one vs before)
  unfolding map_values all_new
  map_values-AllNumbered one numbers [] before = (refl, tt)
  map_values-AllNumbered one numbers (v ∷ vs) before =
      go (one v before) (numbers v before)
        (λ between. map_values-AllNumbered one numbers vs between)
    where
      go :
          (o : Option (List R × Taken))
          → Numbers before o
          → ((between : Taken) → AllNumbered between (map_values one vs between))
          → AllNumbered before
              (elim o [ none ↦ none | some rows ↦ all_in_front rows.0 (map_values one vs rows.1) ])
      go none first more = tt
      go (some (rows, between)) first more =
          all_in_front-AllNumbered rows before between (map_values one vs between) first
            (more between)

abbrev pub sonarr_reading : Reading SonarrTitleRow
sonarr_reading = record { id_of = λ r. r.id; external_of = λ r. r.tvdb_id; sno_of = λ r. r.sno }

abbrev pub radarr_reading : Reading RadarrTitleRow
radarr_reading = record { id_of = λ r. r.id; external_of = λ r. r.tmdb_id; sno_of = λ r. r.sno }

guarded-Numbers :
    {R : Type 0} (reading : Reading R) (refused : Bool) (before : Taken)
    (o : Option (List R × Taken))
    → Numbers reading before o
    → Numbers reading before (if refused then none else o)
guarded-Numbers reading true before o h = tt
guarded-Numbers reading false before o h = h

sonarr_series-Numbers :
    (engine : Engine) (clean_regex : Text) (value : Series) (before : Taken)
    → Numbers sonarr_reading before (sonarr_series engine clean_regex value before)
unfolding sonarr_series sonarr_row
sonarr_series-Numbers engine clean_regex value before = guarded-Numbers sonarr_reading _ before _ (
    map_candidates-Numbers sonarr_reading (λ (c : AlternateTitle). c.title)
      (sonarr_row engine clean_regex value) value.tvdb_id (λ id sno c. (refl, refl, refl)) 0 _
      before)

radarr_movie-Numbers :
    (engine : Engine) (clean_regex : Text) (value : Movie) (before : Taken)
    → Numbers radarr_reading before (radarr_movie engine clean_regex value before)
unfolding radarr_movie radarr_row
radarr_movie-Numbers engine clean_regex value before = guarded-Numbers radarr_reading _ before _ (
    map_candidates-Numbers radarr_reading (λ (t : Text). t) (radarr_row engine clean_regex value)
      value.tmdb_id (λ id sno c. (refl, refl, refl)) 0 _ before)

-- The rows that a synchronisation of titles makes, if it makes any, have distinct ids. Each id is the one of
-- the row's external id and index, and fits into 32 bits. So it is for Sonarr and for Radarr.
pub map_titles_lem :
    (engine : Engine) (clean_regex : Text) (series : List Series) (movies : List Movie)
    → AllNumbered sonarr_reading nothing_taken (map_sonarr engine clean_regex series)
      × AllNumbered radarr_reading nothing_taken (map_radarr engine clean_regex movies)
unfolding map_sonarr map_radarr
map_titles_lem engine clean_regex series movies = (
  map_values-AllNumbered sonarr_reading (sonarr_series engine clean_regex)
      (sonarr_series-Numbers engine clean_regex) series nothing_taken,
  map_values-AllNumbered radarr_reading (radarr_movie engine clean_regex)
      (radarr_movie-Numbers engine clean_regex) movies nothing_taken,
)
