-- ===== src/Runtime/Registry/Planning.antt =====
-- What invalidationPlan (internal/runtime/registry.go) makes of a list of names: the order and
-- repetitions of the names do not matter.
use mathlib.Core.Path.{subst}
use jproxy_go.Common.{
  ◌≡◌, refl, sym, inl, inr, Bool, true, false, ◌&&◌, ◌||◌, Option, none, some, List, [], ◌∷◌, ◌++◌,
  arith, Bool-cases, Option-cases, All, All-map, Text, text_eq, text_eq_refl, text_eq_iff, is_empty,
  trim_space, mem, mem-append,
}
use jproxy_go.Runtime.Registry.{
  Plan, empty_plan, Target, target_of, add_target, plan_from, invalidation_plan, system_config,
  sonarr_titles, radarr_titles, sonarr_rules, radarr_rules, indexer_result, indexer_offset,
  sync_marker,
}

-- Some name of the list, without the spaces around it, has a target that passes the test.
unfoldable pub names_target : (Target → Bool) → List Text → Bool
names_target test [] = false
names_target test (raw ∷ names) =
    elim (target_of (trim_space raw)) [ none ↦ false | some t ↦ test t ] || names_target test names

-- Some name of the list is blank or unknown.
unfoldable pub names_unknown : List Text → Bool
names_unknown [] = false
names_unknown (raw ∷ names) =
    elim (target_of (trim_space raw)) [ none ↦ true | some t ↦ false ] || names_unknown names

unfoldable pub is_some_text : List Text → Bool
is_some_text [] = false
is_some_text (x ∷ xs) = true

is_some_text-append : (xs : List Text) (x : Text) → is_some_text (xs ++ x ∷ []) ≡ true
unfolding is_some_text
is_some_text-append [] x = refl
is_some_text-append (y ∷ ys) x = refl

-- The parts of a plan, read by a target.
abbrev pub wants : Plan → Target → Bool
wants p system_config = p.scopes.system_config
wants p sonarr_titles = p.scopes.sonarr_titles
wants p radarr_titles = p.scopes.radarr_titles
wants p sonarr_rules = p.scopes.sonarr_rules
wants p radarr_rules = p.scopes.radarr_rules
wants p indexer_result = p.clear_results
wants p indexer_offset = p.clear_offsets
wants p sync_marker = is_some_text p.markers

abbrev pub same_target : Target → Target → Bool
same_target system_config system_config = true
same_target sonarr_titles sonarr_titles = true
same_target radarr_titles radarr_titles = true
same_target sonarr_rules sonarr_rules = true
same_target radarr_rules radarr_rules = true
same_target indexer_result indexer_result = true
same_target indexer_offset indexer_offset = true
same_target sync_marker sync_marker = true
same_target _ _ = false

-- Some name of the list, without the spaces around it, is this marker.
unfoldable pub names_marker : Text → List Text → Bool
names_marker m [] = false
names_marker m (raw ∷ names) =
    (text_eq (trim_space raw) m
      && elim (target_of (trim_space raw)) [ none ↦ false | some t ↦ same_target sync_marker t ])
    || names_marker m names

-- A name met is known, and its target is in the plan.
record IsCovered (p : Plan) (name : Text) : Type 0 where
  target : Target
  known : target_of name ≡ some target
  wanted : wants p target ≡ true
  marked : same_target sync_marker target ≡ true → mem name p.markers ≡ true

same_target-eq : (t u : Target) → same_target t u ≡ true → t ≡ u
same_target-eq t u h = ground arith

wants-add_target :
    (t u : Target) (name : Text) (p : Plan)
    → wants (add_target t name p) u ≡ (same_target u t || wants p u)
wants-add_target sync_marker sync_marker name p = ground (arith, is_some_text-append p.markers name)
wants-add_target _ _ name p = ground arith

mem-add_target :
    (t : Target) (m name : Text) (p : Plan)
    → mem m (add_target t name p).markers
      ≡ (text_eq name m && same_target sync_marker t || mem m p.markers)
unfolding mem
mem-add_target sync_marker m name p = ground (arith, mem-append m p.markers (name ∷ []))
mem-add_target _ m name p = ground arith

add_target-IsCovered :
    (t : Target) (name other : Text) (p : Plan)
    → IsCovered p other
    → IsCovered (add_target t name p) other
add_target-IsCovered t name other p c = record {
  target = c.target;
  known = c.known;
  wanted = rw (wants-add_target t c.target name p) (ground (arith, c.wanted));
  marked = λ h. rw (mem-add_target t other name p) (ground (arith, c.marked h));
}

new-IsCovered :
    (t : Target) (name : Text) (p : Plan)
    → target_of name ≡ some t
    → IsCovered (add_target t name p) name
new-IsCovered t name p h = record {
  target = t;
  known = h;
  wanted = rw (wants-add_target t t name p) (ground (arith, itself t));
  marked = λ m. rw (mem-add_target t name name p) (ground (arith, m, text_eq_refl name));
}
  where
    itself : (t : Target) → same_target t t ≡ true
    itself system_config = refl
    itself _ = refl

IsCovered-mem :
    (p : Plan) (name : Text) (seen : List Text)
    → All (IsCovered p) seen
    → mem name seen ≡ true
    → IsCovered p name
unfolding mem
IsCovered-mem p name [] h m = absurd (cc)
IsCovered-mem p name (x ∷ seen) h m = elim (Bool-cases (text_eq x name)) [
  | inl same ↦ subst (IsCovered p) ((text_eq_iff x name).0 same) h.0
  | inr other ↦ IsCovered-mem p name seen h.1 (ground arith)
]

-- What invalidationPlan promises for the names, from a plan `p` that was begun.
record IsPlanned (p : Plan) (names : List Text) (q : Plan) : Type 0 where
  targets : (u : Target) → wants q u ≡ (wants p u || names_target (same_target u) names)
  markers : (m : Text) → mem m q.markers ≡ (mem m p.markers || names_marker m names)

abbrev Outcome : Plan → List Text → Option Plan → Type 0
Outcome p names none = names_unknown names ≡ true
Outcome p names (some q) = (names_unknown names ≡ false) × IsPlanned p names q

empty_unknown : (name : Text) → is_empty name ≡ true → target_of name ≡ none
unfolding target_of text_eq
empty_unknown [] h = refl
empty_unknown (c ∷ name) h = cc

Outcome-unknown :
    (p : Plan) (raw : Text) (names : List Text)
    → target_of (trim_space raw) ≡ none
    → Outcome p (raw ∷ names) none
unfolding names_unknown
Outcome-unknown p raw names h = ground arith

Outcome-again :
    (p : Plan) (raw : Text) (names : List Text) (o : Option Plan)
    → IsCovered p (trim_space raw)
    → Outcome p names o
    → Outcome p (raw ∷ names) o
unfolding names_unknown names_target names_marker
Outcome-again p raw names none c h = ground (arith, c.known)
Outcome-again p raw names (some q) c h = (
  ground (arith, c.known),
  record {
    targets = λ u. ground (arith, h.1.targets u, c.known, c.wanted, same_target-eq u c.target);
    markers = λ m. ground (arith, h.1.markers m, c.known, c.marked, text_eq_iff (trim_space raw) m);
  },
)

Outcome-new :
    (p : Plan) (raw : Text) (names : List Text) (t : Target) (o : Option Plan)
    → target_of (trim_space raw) ≡ some t
    → Outcome (add_target t (trim_space raw) p) names o
    → Outcome p (raw ∷ names) o
unfolding names_unknown names_target names_marker
Outcome-new p raw names t none k h = ground arith
Outcome-new p raw names t (some q) k h = (
  ground arith,
  record {
    targets = λ u. ground (arith, h.1.targets u, wants-add_target t u (trim_space raw) p);
    markers = λ m. ground (arith, h.1.markers m, mem-add_target t m (trim_space raw) p);
  },
)

module _ (seen : List Text) (p : Plan) (raw : Text) (names : List Text) where
  plan_from_blank : is_empty (trim_space raw) ≡ true → plan_from seen p (raw ∷ names) ≡ none
  unfolding plan_from
  plan_from_blank h = ground arith

  plan_from_met :
      is_empty (trim_space raw) ≡ false
      → mem (trim_space raw) seen ≡ true
      → plan_from seen p (raw ∷ names) ≡ plan_from seen p names
  unfolding plan_from
  plan_from_met h m = ground arith

  plan_from_unknown :
      mem (trim_space raw) seen ≡ false
      → target_of (trim_space raw) ≡ none
      → plan_from seen p (raw ∷ names) ≡ none
  unfolding plan_from
  plan_from_unknown m u = ground arith

  plan_from_new :
      (t : Target)
      → is_empty (trim_space raw) ≡ false
      → mem (trim_space raw) seen ≡ false
      → target_of (trim_space raw) ≡ some t
      → plan_from seen p (raw ∷ names)
        ≡ plan_from (trim_space raw ∷ seen) (add_target t (trim_space raw) p) names
  unfolding plan_from
  plan_from_new t h m k = ground arith

plan_from-Outcome :
    (seen : List Text) (p : Plan) (names : List Text)
    → All (IsCovered p) seen
    → Outcome p names (plan_from seen p names)
unfolding plan_from names_unknown names_target names_marker
plan_from-Outcome seen p [] c =
    (refl, record { targets = λ u. ground arith; markers = λ m. ground arith })
plan_from-Outcome seen p (raw ∷ names) c =
    let name = trim_space raw in
    let again = plan_from-Outcome seen p names c in
    elim (Bool-cases (is_empty name)) [
      | inl blank ↦
          subst (Outcome p (raw ∷ names)) (sym (plan_from_blank seen p raw names blank))
            (Outcome-unknown p raw names (empty_unknown name blank))
      | inr text ↦ elim (Bool-cases (mem name seen)) [
        | inl met ↦
            subst (Outcome p (raw ∷ names)) (sym (plan_from_met seen p raw names text met)) (
              Outcome-again p raw names (plan_from seen p names) (IsCovered-mem p name seen c met)
                again)
        | inr fresh ↦ elim (Option-cases (target_of name)) [
          | inl unknown ↦
              subst (Outcome p (raw ∷ names))
                (sym (plan_from_unknown seen p raw names fresh unknown))
                (Outcome-unknown p raw names unknown)
          | inr (t, known) ↦
              subst (Outcome p (raw ∷ names))
                (sym (plan_from_new seen p raw names t text fresh known))
                (Outcome-new p raw names t (plan_from (name ∷ seen) (add_target t name p) names)
                  known
                  (plan_from-Outcome (name ∷ seen) (add_target t name p) names (
                    new-IsCovered t name p known,
                    All-map (IsCovered p) (IsCovered (add_target t name p))
                        (λ o. add_target-IsCovered t name o p) seen c,
                  )))
        ]
      ]
    ]

Outcome-plan :
    (names : List Text) (o : Option Plan)
    → Outcome empty_plan names o
    → (names_unknown names ≡ true → o ≡ none)
      × (names_unknown names ≡ false
          → (p : Plan) × (o ≡ some p)
            × ((t : Target) → wants p t ≡ names_target (same_target t) names)
            × ((m : Text) → mem m p.markers ≡ names_marker m names))
unfolding mem is_some_text
Outcome-plan names none h = (λ u. refl, λ k. absurd (cc))
Outcome-plan names (some q) h = (λ u. absurd (cc), λ k. (q, refl, targets, h.1.markers))
  where
    targets : (t : Target) → wants q t ≡ names_target (same_target t) names
    targets system_config = h.1.targets system_config
    targets sonarr_titles = h.1.targets sonarr_titles
    targets radarr_titles = h.1.targets radarr_titles
    targets sonarr_rules = h.1.targets sonarr_rules
    targets radarr_rules = h.1.targets radarr_rules
    targets indexer_result = h.1.targets indexer_result
    targets indexer_offset = h.1.targets indexer_offset
    targets sync_marker = h.1.targets sync_marker

-- A list with a blank or unknown name has no plan. Any other has one, and it holds just what the
-- names ask for, wherever and however often they stand: each scope and each cache if a name for
-- it is there, and each marker whose name is there.
pub invalidation_plan_lem :
    (names : List Text)
    → (names_unknown names ≡ true → invalidation_plan names ≡ none)
      × (names_unknown names ≡ false
          → (p : Plan) × (invalidation_plan names ≡ some p)
            × ((t : Target) → wants p t ≡ names_target (same_target t) names)
            × ((m : Text) → mem m p.markers ≡ names_marker m names))
unfolding invalidation_plan
invalidation_plan_lem names =
    Outcome-plan names (plan_from [] empty_plan names) (plan_from-Outcome [] empty_plan names tt)
