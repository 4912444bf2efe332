-- ===== src/Runtime/Registry/Names.antt =====
-- The cache names of invalidationPlan (internal/runtime/registry.go), by their spelling.
use mathlib.Core.Path.{subst}
use jproxy_go.Common.{
  ◌≡◌, refl, sym, ◌∙◌, inl, inr, Bool, true, false, ◌&&◌, ◌||◌, none, some, List, [], ◌∷◌, arith,
  Bool-cases, Text, codes, text_eq, text_eq_iff, trim_space,
}
use jproxy_go.Runtime.Registry.{Target, target_of, indexer_result, indexer_offset, sync_marker}
use jproxy_go.Runtime.Registry.Planning.{names_target, same_target, names_marker}

-- Some name of the list, without the white space around it, is this one.
abbrev pub is_named : Text → List Text → Bool
is_named name [] = false
is_named name (raw ∷ names) = text_eq (trim_space raw) name || is_named name names

-- The markers of the three kinds of title synchronisation.
abbrev pub is_sync_marker : Text → Bool
is_sync_marker m =
    text_eq m (codes "sonarr_title_sync_interval")
    || text_eq m (codes "tmdb_title_sync_interval")
    || text_eq m (codes "radarr_title_sync_interval")

-- Whether a name has a target.
abbrev has_target : Target → Text → Bool
has_target u name = elim (target_of name) [ none ↦ false | some t ↦ same_target u t ]

result_itself : has_target indexer_result (codes "indexer_result") ≡ true
unfolding target_of text_eq
result_itself = refl

offset_itself : has_target indexer_offset (codes "indexer_search_offset") ≡ true
unfolding target_of text_eq
offset_itself = refl

sonarr_itself : has_target sync_marker (codes "sonarr_title_sync_interval") ≡ true
unfolding target_of text_eq
sonarr_itself = refl

tmdb_itself : has_target sync_marker (codes "tmdb_title_sync_interval") ≡ true
unfolding target_of text_eq
tmdb_itself = refl

radarr_itself : has_target sync_marker (codes "radarr_title_sync_interval") ≡ true
unfolding target_of text_eq
radarr_itself = refl

-- A target that holds of its own name holds of any name that is the same.
has_target_eq :
    (u : Target) (own name : Text)
    → has_target u own ≡ true
    → text_eq name own ≡ true
    → has_target u name ≡ true
has_target_eq u own name h e =
    subst (λ n. has_target u n ≡ true) (sym ((text_eq_iff name own).0 e)) h

is_result : (name : Text) → has_target indexer_result name ≡ text_eq name (codes "indexer_result")
unfolding target_of
is_result name = elim (Bool-cases (text_eq name (codes "indexer_result"))) [
  | inl same ↦
      (has_target_eq indexer_result (codes "indexer_result") name result_itself same ∙ sym same)
  | inr other ↦ ground arith
]

is_offset :
    (name : Text) → has_target indexer_offset name ≡ text_eq name (codes "indexer_search_offset")
unfolding target_of
is_offset name = elim (Bool-cases (text_eq name (codes "indexer_search_offset"))) [
  | inl same ↦
      (has_target_eq indexer_offset (codes "indexer_search_offset") name offset_itself same
        ∙ sym same)
  | inr other ↦ ground arith
]

is_marker : (name : Text) → has_target sync_marker name ≡ is_sync_marker name
unfolding target_of
is_marker name = elim (Bool-cases (text_eq name (codes "sonarr_title_sync_interval"))) [
  | inl sonarr ↦ ground (arith, has_target_eq sync_marker _ name sonarr_itself sonarr)
  | inr not_sonarr ↦ elim (Bool-cases (text_eq name (codes "tmdb_title_sync_interval"))) [
    | inl tmdb ↦ ground (arith, has_target_eq sync_marker _ name tmdb_itself tmdb)
    | inr not_tmdb ↦ elim (Bool-cases (text_eq name (codes "radarr_title_sync_interval"))) [
      | inl radarr ↦ ground (arith, has_target_eq sync_marker _ name radarr_itself radarr)
      | inr not_radarr ↦ ground arith
    ]
  ]
]

pub names_result :
    (names : List Text)
    → names_target (same_target indexer_result) names ≡ is_named (codes "indexer_result") names
unfolding names_target
names_result [] = refl
names_result (raw ∷ names) = ground (arith, names_result names, is_result (trim_space raw))

pub names_offset :
    (names : List Text)
    → names_target (same_target indexer_offset) names
      ≡ is_named (codes "indexer_search_offset") names
unfolding names_target
names_offset [] = refl
names_offset (raw ∷ names) = ground (arith, names_offset names, is_offset (trim_space raw))

pub names_sync :
    (m : Text) (names : List Text) → names_marker m names ≡ (is_sync_marker m && is_named m names)
unfolding names_marker
names_sync m [] = ground arith
names_sync m (raw ∷ names) =
    ground (arith, names_sync m names, is_marker (trim_space raw), text_eq_iff (trim_space raw) m)
