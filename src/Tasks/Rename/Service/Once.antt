-- ===== src/Tasks/Rename/Service/Once.antt =====
-- A run of Sonarr renames a torrent at most once.
use jproxy_go.Common.{
  ℕ, ◌+◌, ◌≤◌, Bool, true, Option, none, some, List, [], ◌∷◌, arith, ℤ, ◌-ℤ◌, if◌then◌else◌, Text,
  text_eq, text_eq_iff, mem, Result, ok, err,
}
use jproxy_go.Tasks.Rename.{FileRename, PlanResult, invalid_path, in_place, planned}
use jproxy_go.Tasks.Rename.History.{Event, Endpoint}
use jproxy_go.Tasks.Rename.Service.{
  Command, RunError, Options, Run, Progress, unless_failed, unless_stopped, unless_over, is_wanted,
  ask, rename_files, file_plan, rename_planned, plan_of, rename_in_client, rename_event, take_event,
  run_events, run_fetched, run, rename_in_transmission, rename_in_qbittorrent, rename_file,
}

-- The renames of a torrent that were asked for.
unfoldable pub renames : Text → List Command → ℕ
renames hash [] = 0
renames hash (rename_in_transmission h title ∷ log) =
    (if text_eq hash h then 1 else 0) + renames hash log
renames hash (rename_in_qbittorrent h title ∷ log) =
    (if text_eq hash h then 1 else 0) + renames hash log
renames hash (rename_file h file ∷ log) = renames hash log

module _ {W E : Type 0} (options : Options W E) (hash : Text) where
  -- How often a torrent is renamed between two points of a run.
  abbrev Adds : ℕ → Run W → Run W → Type 0
  Adds n r s = renames hash s.log ≤ n + renames hash r.log

  unless_failed-Adds :
      (m n : ℕ) (r : Run W) (a : Option (RunError E) × Run W)
      (next : Run W → Option (RunError E) × Run W)
      → Adds m r a.1
      → ((s : Run W) → Adds n s (next s).1)
      → Adds (m + n) r (unless_failed a next).1
  unfolding unless_failed
  unless_failed-Adds m n r (some e, s) next one more = omega (arith, one)
  unless_failed-Adds m n r (none, s) next one more = omega (arith, one, more s)

  unless_stopped-Adds :
      (n : ℕ) (e : Option E) (r : Run W) (next : Run W → Option (RunError E) × Run W)
      → ((s : Run W) → Adds n s (next s).1)
      → Adds n r (unless_stopped e r next).1
  unfolding unless_stopped
  unless_stopped-Adds n (some e) r next more = omega arith
  unless_stopped-Adds n none r next more = more r

  rename_files-Adds :
      (h : Text) (plan : List FileRename) (r : Run W) → Adds 0 r (rename_files options h plan r).1
  unfolding rename_files ask renames
  rename_files-Adds h [] r = omega arith
  rename_files-Adds h (file ∷ plan) r = unless_stopped-Adds 0 (options.cancelled r.world) r _ (λ s.
      unless_failed-Adds 0 0 s (ask options (rename_file h file) s) _ (omega arith)
        (rename_files-Adds h plan))

  -- The renames that an event may add.
  abbrev may_add : Event → ℕ
  may_add event = if text_eq hash event.hash then 1 else 0

  rename_planned-Adds :
      (event : Event) (plan : PlanResult) (r : Run W)
      → Adds (may_add event) r (rename_planned options event plan r).1
  unfolding rename_planned ask renames
  rename_planned-Adds event invalid_path r = omega arith
  rename_planned-Adds event in_place r = omega arith
  rename_planned-Adds event (planned plan) r = omega (
    arith,
    unless_failed-Adds (may_add event) 0 r
        (ask options (rename_in_qbittorrent event.hash event.source_title) r)
        (rename_files options event.hash plan) (omega arith) (rename_files-Adds event.hash plan),
  )

  plan_of-Adds :
      (event : Event) (sonarr : Bool) (listed : Result E (List Text)) (r : Run W)
      → Adds (may_add event) r (plan_of options event sonarr listed r).1
  unfolding plan_of
  plan_of-Adds event sonarr (err e) r = omega arith
  plan_of-Adds event sonarr (ok files) r =
      rename_planned-Adds event (file_plan options event.source_title files sonarr) r

  rename_event-Adds :
      (event : Event) (sonarr : Bool) (r : Run W)
      → Adds (may_add event) r (rename_event options event sonarr r).1
  unfolding rename_event rename_in_client ask renames
  rename_event-Adds event sonarr r =
      let listed = options.list_files event.hash r.world in
      ground (
        arith,
        rename_planned-Adds event in_place r,
        plan_of-Adds event sonarr listed.0 (record r { world = listed.1 }),
      )

  -- A torrent that was seen was renamed at most once, any other not at all.
  abbrev IsCounted : Progress W E → Type 0
  IsCounted p = renames hash p.made.log ≤ (if mem hash p.seen then 1 else 0)

  take_event-IsCounted :
      (event : Event) (p : Progress W E) → IsCounted p → IsCounted (take_event options true event p)
  unfolding take_event is_wanted mem
  take_event-IsCounted event p counted =
      ground (arith, counted, text_eq_iff hash event.hash, rename_event-Adds event true p.made)

  unless_over-IsCounted :
      (e : Option E) (p : Progress W E) (next : Progress W E → Progress W E)
      → IsCounted p
      → ((q : Progress W E) → IsCounted q → IsCounted (next q))
      → IsCounted (unless_over e p next)
  unfolding unless_over
  unless_over-IsCounted (some e) p next counted steps = counted
  unless_over-IsCounted none p next counted steps = steps p counted

  run_events-IsCounted :
      (events : List Event) (p : Progress W E)
      → IsCounted p
      → IsCounted (run_events options true events p)
  unfolding run_events
  run_events-IsCounted [] p counted = counted
  run_events-IsCounted (event ∷ events) p counted =
      unless_over-IsCounted (options.cancelled p.made.world) p _ counted (λ q good.
        run_events-IsCounted events (take_event options true event q)
          (take_event-IsCounted event q good))

  run_fetched_once :
      (fetched : Result E (List Event)) (w : W)
      → renames hash (run_fetched options true fetched w).1.log ≤ 1
  unfolding run_fetched renames mem
  run_fetched_once (err e) w = omega arith
  run_fetched_once (ok events) w =
      let fresh : Run W = record { log = []; world = w } in
      let start : Progress W E = record { seen = []; errors = []; made = fresh } in
      ground (arith, run_events-IsCounted events start (omega arith))

  -- However often the history names a torrent by the same hash, a run of Sonarr asks to rename it at most once.
  pub rename_run_once :
      (endpoint : Endpoint) (fallback : ℤ) (w : W)
      → renames hash (run options endpoint fallback true w).1.log ≤ 1
  unfolding run renames
  rename_run_once endpoint fallback w =
      let fetched = options.history endpoint (options.now w -ℤ fallback) w in
      ground (arith, run_fetched_once fetched.0 fetched.1)
