-- ===== src/Runtime/Registry/Invalidation.antt =====
-- What Invalidate and InvalidateAll (internal/runtime/registry.go) do to the caches and the gate.
use jproxy_go.Common.{
  ◌≡◌, refl, sym, ◌∙◌, ◌≢◌, ◌↔◌, inl, inr, true, false, ◌&&◌, Option, none, some, List, [], ◌∷◌,
  arith, if◌then◌else◌, Bool-cases, Text, codes, text_eq, lookup, lookup-insert, lookup-delete, mem,
}
use jproxy_go.Cache
use jproxy_go.Cache.{Cache}
use jproxy_go.Runtime.Gate
use jproxy_go.Runtime.Gate.{Gate}
use jproxy_go.Runtime.Registry.{
  Registry, Plan, Target, invalidation_plan, clear_markers, clear_caches, apply, InvalidateError,
  invalidate, indexer_result, indexer_offset, unknown_cache_name, refresh_failed,
}
use jproxy_go.Runtime.Snapshot.{Snapshot}
use jproxy_go.Runtime.Snapshot.Refresh.{RefreshError, Answers, refresh}
use jproxy_go.Runtime.Registry.Names.{
  is_named, is_sync_marker, names_result, names_offset, names_sync,
}
use jproxy_go.Runtime.Registry.Planning.{
  names_target, names_unknown, wants, same_target, names_marker, invalidation_plan_lem,
}

lookup-delete_locked :
    (marker m : Text) (c : Cache (Unit {0}))
    → lookup m (Cache.delete_locked marker c).m ≡ (if text_eq marker m then none else lookup m c.m)
unfolding Cache.delete_locked
lookup-delete_locked marker m c = lookup-delete marker m c.m

lookup-clear :
    (marker m : Text) (g : Gate.Gate)
    → text_eq marker m ≡ false
    → lookup m (Gate.clear marker g).states ≡ lookup m g.states
unfolding Gate.clear
lookup-clear marker m g h =
    ground (arith, lookup-insert marker m (Gate.cleared_state (Gate.state_of marker g)) g.states)

-- The markers of the list are gone, and all else is as it was.
record IsMarkersCleared (markers : List Text) (r t : Registry) : Type 0 where
  same_snapshot : t.snapshot ≡ r.snapshot
  same_results : t.results ≡ r.results
  same_offsets : t.offsets ≡ r.offsets
  gone : (m : Text) → lookup m t.markers.m ≡ (if mem m markers then none else lookup m r.markers.m)
  others : (m : Text) → mem m markers ≡ false → lookup m t.gate.states ≡ lookup m r.gate.states

clear_markers_lem :
    (markers : List Text) (r : Registry) → IsMarkersCleared markers r (clear_markers markers r)
unfolding clear_markers mem
clear_markers_lem [] r = record {
  same_snapshot = refl;
  same_results = refl;
  same_offsets = refl;
  gone = λ m. refl;
  others = λ m h. refl;
}
clear_markers_lem (marker ∷ markers) r =
    let r₁ = record r {
      markers = Cache.delete_locked marker r.markers;
      gate = Gate.clear marker r.gate;
    } in
    let c = clear_markers_lem markers r₁ in
    record {
      same_snapshot = c.same_snapshot;
      same_results = c.same_results;
      same_offsets = c.same_offsets;
      gone = λ m. ground (arith, c.gone m, lookup-delete_locked marker m r.markers);
      others = λ m h. ground (arith, c.others m, lookup-clear marker m r.gate);
    }

-- What a successful Invalidate has done.
pub record IsInvalidated (names : List Text) (r t : Registry) : Type 0 where
  pub results :
      t.results
      ≡ (if is_named (codes "indexer_result") names then Cache.clear r.results else r.results)
  pub offsets : t.offsets ≡ (
      if is_named (codes "indexer_search_offset") names then Cache.clear r.offsets else r.offsets)
  pub markers :
      (m : Text)
      → lookup m t.markers.m
        ≡ (if is_sync_marker m && is_named m names then none else lookup m r.markers.m)
  pub other_gates :
      (m : Text)
      → (is_sync_marker m && is_named m names) ≡ false
      → lookup m t.gate.states ≡ lookup m r.gate.states

-- The fields after clear_caches.
record IsCachesCleared (p : Plan) (r t : Registry) : Type 0 where
  same_markers : t.markers ≡ r.markers
  same_gate : t.gate ≡ r.gate
  results : t.results ≡ (if p.clear_results then Cache.clear r.results else r.results)
  offsets : t.offsets ≡ (if p.clear_offsets then Cache.clear r.offsets else r.offsets)

clear_caches_lem : (p : Plan) (r : Registry) → IsCachesCleared p r (clear_caches p r)
unfolding clear_caches
clear_caches_lem p r = ground arith

apply-IsInvalidated :
    (names : List Text) (p : Plan) (r : Registry)
    → ((t : Target) → wants p t ≡ names_target (same_target t) names)
    → ((m : Text) → mem m p.markers ≡ names_marker m names)
    → IsInvalidated names r (apply p r)
unfolding apply
apply-IsInvalidated names p r targets marked =
    let c = clear_caches_lem p r in
    let d = clear_markers_lem p.markers (clear_caches p r) in
    record {
      results =
          ground (arith, d.same_results, c.results, targets indexer_result, names_result names);
      offsets =
          ground (arith, d.same_offsets, c.offsets, targets indexer_offset, names_offset names);
      markers = λ m. ground (arith, d.gone m, c.same_markers, marked m, names_sync m names);
      other_gates = λ m h. ground (arith, d.others m, c.same_gate, marked m, names_sync m names);
    }

invalidate_unplanned :
    (names : List Text) (answers : Answers) (r : Registry)
    → names_unknown names ≡ true
    → invalidate names answers r ≡ (r, some unknown_cache_name)
unfolding invalidate
invalidate_unplanned names answers r h = ground (arith, (invalidation_plan_lem names).0 h)

-- The refresh of a planned Invalidate, and what comes of it.
abbrev finished :
    Plan → Registry → Snapshot × Option RefreshError → Registry × Option InvalidateError
finished p r (s, some failure) = (record r { snapshot = s }, some (refresh_failed failure))
finished p r (s, none) = (apply p (record r { snapshot = s }), none)

invalidate_planned :
    (names : List Text) (answers : Answers) (r : Registry) (p : Plan)
    → invalidation_plan names ≡ some p
    → invalidate names answers r ≡ finished p r (refresh r.has_loader p.scopes answers r.snapshot)
unfolding invalidate
invalidate_planned names answers r p h = ground (arith, h)

finished_failed :
    (p : Plan) (answers : Answers) (r t : Registry) (e : InvalidateError)
    → finished p r (refresh r.has_loader p.scopes answers r.snapshot) ≡ (t, some e)
    → (t ≡ r) × (e ≢ unknown_cache_name)
unfolding refresh
finished_failed p answers r t e h = (ground arith, λ q. ground arith)

-- An Invalidate that fails has changed nothing. It reports an unknown name exactly if a name is
-- blank or unknown.
pub invalidate_failed :
    (names : List Text) (answers : Answers) (r t : Registry) (e : InvalidateError)
    → invalidate names answers r ≡ (t, some e)
    → (t ≡ r) × ((names_unknown names ≡ true) ↔ (e ≡ unknown_cache_name))
invalidate_failed names answers r t e h = elim (Bool-cases (names_unknown names)) [
  | inl unknown ↦
      let done = invalidate_unplanned names answers r unknown in
      (ground (arith, done), ((λ _. ground (arith, done)), (λ _. unknown)))
  | inr known ↦
      let (p, planned, _, _) = (invalidation_plan_lem names).1 known in
      let (same, other) =
        finished_failed p answers r t e (sym (invalidate_planned names answers r p planned) ∙ h) in
      (same, ((λ u. cc), (λ q. absurd (other q))))
]

finished_done :
    (p : Plan) (r t : Registry) (o : Snapshot × Option RefreshError)
    → finished p r o ≡ (t, none)
    → t ≡ apply p (record r { snapshot = o.0 })
finished_done p r t (s, none) h = ground arith
finished_done p r t (s, some e) h = ground arith

-- An Invalidate that succeeds has cleared the result cache just if the list had "indexer_result", the
-- offset cache just if it had "indexer_search_offset", and each of the three markers just if it had the
-- marker; white space around a name does not count. It left the gates of the other markers alone.
pub invalidate_exact :
    (names : List Text) (answers : Answers) (r t : Registry)
    → invalidate names answers r ≡ (t, none)
    → (names_unknown names ≡ false) × IsInvalidated names r t
invalidate_exact names answers r t h = elim (Bool-cases (names_unknown names)) [
  | inl unknown ↦ absurd (ground (arith, invalidate_unplanned names answers r unknown))
  | inr known ↦
      let (p, planned, targets, marked) = (invalidation_plan_lem names).1 known in
      let o = refresh r.has_loader p.scopes answers r.snapshot in
      let done = finished_done p r t o (sym (invalidate_planned names answers r p planned) ∙ h) in
      let i = apply-IsInvalidated names p (record r { snapshot = o.0 }) targets marked in
      (
        known,
        rw done (record {
          results = i.results;
          offsets = i.offsets;
          markers = i.markers;
          other_gates = i.other_gates;
        }),
      )
]
