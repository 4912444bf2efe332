-- ===== src/Tasks/Rename/Service/Commands.antt =====
-- What a run asks of the downloaders: names and paths that are valid.
use jproxy_go.Common.{
  ◌≡◌, inl, inr, Bool, true, ◌||◌, not, Option, none, some, List, [], ◌∷◌, arith, ℤ, ◌-ℤ◌, ltb_ℤ,
  pos, Bool-cases, All, Text, is_empty, trim_space, Result, ok, err,
}
use jproxy_go.Tasks.Rename.{
  FileRename, valid_name, PlanResult, radarr_name, invalid_path, in_place, planned,
}
use jproxy_go.Tasks.Rename.Confinement.{IsConfined, IsPlan, plan_files-IsPlan}
use jproxy_go.Tasks.Rename.History.{Event, Endpoint, valid_torrent_hash}
use jproxy_go.Tasks.Rename.Service.{
  Command, RunError, Options, Run, Progress, unless_failed, unless_stopped, unless_over, is_wanted,
  ask, rename_files, file_plan, rename_planned, plan_of, rename_in_client, rename_event, take_event,
  run_events, run_fetched, run, rename_in_transmission, rename_in_qbittorrent, rename_file,
}

-- A torrent is named by a valid hash, and gets a valid name; a file stays in the directory of such a name.
abbrev pub IsFine : Command → Type 0
IsFine (rename_in_transmission hash title) =
    (valid_torrent_hash hash ≡ true) × (valid_name title ≡ true)
IsFine (rename_in_qbittorrent hash title) =
    (valid_torrent_hash hash ≡ true) × (valid_name title ≡ true)
IsFine (rename_file hash file) =
    (valid_torrent_hash hash ≡ true)
    × ((title : Text) × (valid_name title ≡ true) × IsConfined title file)

module _ {W E : Type 0} (options : Options W E) where
  abbrev pub AreFine : Run W → Type 0
  AreFine r = All IsFine r.log

  ask-AreFine : (c : Command) (r : Run W) → IsFine c → AreFine r → AreFine (ask options c r).1
  unfolding ask
  ask-AreFine c r new fine = (new, fine)

  unless_failed-AreFine :
      (a : Option (RunError E) × Run W) (next : Run W → Option (RunError E) × Run W)
      → AreFine a.1
      → ((r : Run W) → AreFine r → AreFine (next r).1)
      → AreFine (unless_failed a next).1
  unfolding unless_failed
  unless_failed-AreFine (some e, r) next fine steps = fine
  unless_failed-AreFine (none, r) next fine steps = steps r fine

  unless_stopped-AreFine :
      (e : Option E) (r : Run W) (next : Run W → Option (RunError E) × Run W)
      → AreFine r
      → ((s : Run W) → AreFine s → AreFine (next s).1)
      → AreFine (unless_stopped e r next).1
  unfolding unless_stopped
  unless_stopped-AreFine (some e) r next fine steps = fine
  unless_stopped-AreFine none r next fine steps = steps r fine

  rename_files-AreFine :
      (hash title : Text) (plan : List FileRename)
      → valid_torrent_hash hash ≡ true
      → valid_name title ≡ true
      → All (IsConfined title) plan
      → (r : Run W) → AreFine r
      → AreFine (rename_files options hash plan r).1
  unfolding rename_files
  rename_files-AreFine hash title [] h t confined r fine = fine
  rename_files-AreFine hash title (file ∷ plan) h t confined r fine =
      unless_stopped-AreFine (options.cancelled r.world) r _ fine (λ s good.
        unless_failed-AreFine (ask options (rename_file hash file) s) _
          (ask-AreFine (rename_file hash file) s (h, (title, t, confined.0)) good)
          (rename_files-AreFine hash title plan h t confined.1))

  abbrev IsAllowed : Event → Type 0
  IsAllowed event = (valid_torrent_hash event.hash ≡ true) × (valid_name event.source_title ≡ true)

  rename_planned-AreFine :
      (event : Event) (files : List Text) (plan : PlanResult) (r : Run W)
      → IsAllowed event
      → IsPlan event.source_title files plan
      → AreFine r
      → AreFine (rename_planned options event plan r).1
  unfolding rename_planned
  rename_planned-AreFine event files invalid_path r allowed made fine = fine
  rename_planned-AreFine event files in_place r allowed made fine =
      ask-AreFine (rename_in_qbittorrent event.hash event.source_title) r allowed fine
  rename_planned-AreFine event files (planned plan) r allowed made fine =
      let first = rename_in_qbittorrent event.hash event.source_title in
      unless_failed-AreFine (ask options first r) _ (ask-AreFine first r allowed fine)
        (rename_files-AreFine event.hash event.source_title plan allowed.0 allowed.1 made.1)

  file_plan-IsPlan :
      (title : Text) (files : List Text) (sonarr : Bool)
      → IsPlan title files (file_plan options title files sonarr)
  unfolding file_plan
  file_plan-IsPlan title files sonarr =
      elim (Bool-cases (not sonarr || is_empty (trim_space options.sonarr_format))) [
        | inl radarr ↦ rw radarr (
            (plan_files-IsPlan (radarr_name options.extension_of options.is_subtitle title) title
              files).0)
        | inr formatted ↦
            rw formatted ((plan_files-IsPlan (options.sonarr_name title) title files).0)
      ]

  plan_of-AreFine :
      (event : Event) (sonarr : Bool) (listed : Result E (List Text)) (r : Run W)
      → IsAllowed event
      → AreFine r
      → AreFine (plan_of options event sonarr listed r).1
  unfolding plan_of
  plan_of-AreFine event sonarr (err e) r allowed fine = fine
  plan_of-AreFine event sonarr (ok files) r allowed fine =
      rename_planned-AreFine event files (file_plan options event.source_title files sonarr) r
        allowed (file_plan-IsPlan event.source_title files sonarr) fine

  rename_in_client-AreFine :
      (event : Event) (sonarr : Bool) (r : Run W)
      → IsAllowed event
      → AreFine r
      → AreFine (rename_in_client options event sonarr r).1
  unfolding rename_in_client plan_of file_plan rename_planned ask rename_files
  rename_in_client-AreFine event sonarr r allowed fine =
      let listed = options.list_files event.hash r.world in
      elim (Bool-cases options.files_enabled) [
        | inl on ↦
            rw on
              (plan_of-AreFine event sonarr listed.0 (record r { world = listed.1 }) allowed fine)
        | inr off ↦ rw off (rename_planned-AreFine event [] in_place r allowed tt fine)
      ]

  rename_event-AreFine :
      (event : Event) (sonarr : Bool) (r : Run W)
      → IsAllowed event
      → AreFine r
      → AreFine (rename_event options event sonarr r).1
  unfolding rename_event
  rename_event-AreFine event sonarr r allowed fine =
      let c = rename_in_transmission event.hash event.source_title in
      ground (
        arith,
        fine,
        ask-AreFine c r allowed fine,
        rename_in_client-AreFine event sonarr r allowed fine,
      )

  take_event-AreFine :
      (deduplicate : Bool) (event : Event) (p : Progress W E)
      → AreFine p.made
      → AreFine (take_event options deduplicate event p).made
  unfolding take_event is_wanted
  take_event-AreFine deduplicate event p fine =
      elim (Bool-cases (is_wanted deduplicate p.seen event)) [
        | inr passed ↦ rw passed fine
        | inl wanted ↦ rw wanted (
            rename_event-AreFine event deduplicate p.made
              (ground (arith, wanted), ground (arith, wanted)) fine)
      ]

  unless_over-AreFine :
      (e : Option E) (p : Progress W E) (next : Progress W E → Progress W E)
      → AreFine p.made
      → ((q : Progress W E) → AreFine q.made → AreFine (next q).made)
      → AreFine (unless_over e p next).made
  unfolding unless_over
  unless_over-AreFine (some e) p next fine steps = fine
  unless_over-AreFine none p next fine steps = steps p fine

  run_events-AreFine :
      (deduplicate : Bool) (events : List Event) (p : Progress W E)
      → AreFine p.made
      → AreFine (run_events options deduplicate events p).made
  unfolding run_events
  run_events-AreFine deduplicate [] p fine = fine
  run_events-AreFine deduplicate (event ∷ events) p fine =
      unless_over-AreFine (options.cancelled p.made.world) p _ fine (λ q good.
        run_events-AreFine deduplicate events (take_event options deduplicate event q)
          (take_event-AreFine deduplicate event q good))

  run_fetched-AreFine :
      (deduplicate : Bool) (fetched : Result E (List Event)) (w : W)
      → AreFine (run_fetched options deduplicate fetched w).1
  unfolding run_fetched
  run_fetched-AreFine deduplicate (err e) w = tt
  run_fetched-AreFine deduplicate (ok events) w =
      let fresh : Run W = record { log = []; world = w } in
      run_events-AreFine deduplicate events (record { seen = []; errors = []; made = fresh }) tt

  -- Whatever the history and the downloaders answer: a run asks only for torrents with a valid hash, which
  -- get a valid name, and moves a file only into the directory of a valid name, to a valid path.
  pub rename_run-AreFine :
      (endpoint : Endpoint) (fallback : ℤ) (deduplicate : Bool) (w : W)
      → AreFine (run options endpoint fallback deduplicate w).1
  unfolding run
  rename_run-AreFine endpoint fallback deduplicate w =
      let fetched = options.history endpoint (options.now w -ℤ fallback) w in
      elim (Bool-cases (ltb_ℤ fallback (pos 0))) [
        | inl negative ↦ rw negative tt
        | inr positive ↦ rw positive (run_fetched-AreFine deduplicate fetched.0 fetched.1)
      ]
