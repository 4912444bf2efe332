-- ===== src/Tasks/Rename/Service.antt =====
-- internal/tasks/rename/service.go: the runs that rename what the history says was grabbed. The history, the
-- clock, the configuration and the downloaders are a type of worlds with their answers; the log of what the
-- downloaders were asked is not in the code.
pub mod Commands
pub mod Once
mod Examples
use jproxy_go.Common.{
  ℕ, Bool, ◌&&◌, ◌||◌, not, Option, none, some, List, [], ◌∷◌, ◌++◌, ℤ, ◌-ℤ◌, ltb_ℤ, pos,
  if◌then◌else◌, Text, codes, is_empty, trim_space, mem, Result, ok, err,
}
use jproxy_go.Tasks.Rename.{
  FileRename, valid_name, PlanResult, plan_files, radarr_name, invalid_path, in_place, planned,
}
use jproxy_go.Tasks.Rename.History.{Event, Endpoint, valid_torrent_hash, qbittorrent, transmission}

-- What a downloader is asked to change.
pub data Command : Type 0 where
  rename_in_transmission : Text → Text → Command
  rename_in_qbittorrent : Text → Text → Command
  rename_file : Text → FileRename → Command

-- The errors of a run; E is the type of the errors of the parts that it calls.
pub data RunError (E : Type 0) : Type 0 where
  negative_fallback : RunError E
  no_config : RunError E
  bad_plan : RunError E
  called : E → RunError E

-- ServiceOptions: which parts there are, and what they answer. `extension_of` and `is_subtitle` are the
-- expressions of plan.go, `sonarr_name` is sonarrName with its rules, and `cancelled` the error of the context.
pub record Options (W E : Type 0) : Type 0 where
  pub has_qbittorrent : Bool
  pub has_transmission : Bool
  pub has_config : Bool
  pub files_enabled : Bool
  pub sonarr_format : Text
  pub extension_of : Text → Option Text
  pub is_subtitle : Text → Bool
  pub sonarr_name : Text → Text → ℕ → Text × ℕ
  pub now : W → ℤ
  pub cancelled : W → Option E
  pub value_by_key : Text → W → Result E Text × W
  pub history : Endpoint → ℤ → W → Result E (List Event) × W
  pub list_files : Text → W → Result E (List Text) × W
  pub command : Command → W → Option E × W

-- What the downloaders were asked so far, the last first, and the world.
pub record Run (W : Type 0) : Type 0 where
  pub log : List Command
  pub world : W

abbrev pub errors_of : {E : Type 0} → Option (RunError E) → List (RunError E)
errors_of none = []
errors_of (some e) = e ∷ []

-- The progress of the loop of run: the hashes that were seen, the errors, and what was asked.
pub record Progress (W E : Type 0) : Type 0 where
  pub seen : List Text
  pub errors : List (RunError E)
  pub made : Run W

module _ {W E : Type 0} where
  -- Goes on unless there was an error, or unless the context is over.
  unfoldable pub unless_failed :
      Option (RunError E) × Run W
      → (Run W → Option (RunError E) × Run W)
      → Option (RunError E) × Run W
  unless_failed (some e, r) next = (some e, r)
  unless_failed (none, r) next = next r

  unfoldable pub unless_stopped :
      Option E → Run W → (Run W → Option (RunError E) × Run W) → Option (RunError E) × Run W
  unless_stopped (some e) r next = (some (called e), r)
  unless_stopped none r next = next r

  unfoldable pub unless_over :
      Option E → Progress W E → (Progress W E → Progress W E) → Progress W E
  unless_over (some e) p next = record p { errors = p.errors ++ called e ∷ [] }
  unless_over none p next = next p

-- The events of a run that are not passed over.
unfoldable pub is_wanted : Bool → List Text → Event → Bool
is_wanted deduplicate seen event =
    valid_torrent_hash event.hash
    && valid_name event.source_title
    && not (deduplicate && mem event.hash seen)

module _ {W E : Type 0} (options : Options W E) where
  unfoldable pub ask : Command → Run W → Option (RunError E) × Run W
  ask c r =
      let answer = options.command c r.world in
      (
        elim answer.0 [ none ↦ none | some e ↦ some (called e) ],
        record { log = c ∷ r.log; world = answer.1 },
      )

  -- The loop over the plan, in renameEvent.
  unfoldable pub rename_files : Text → List FileRename → Run W → Option (RunError E) × Run W
  rename_files hash [] r = (none, r)
  rename_files hash (file ∷ plan) r =
      unless_stopped (options.cancelled r.world) r
        (λ s. unless_failed (ask (rename_file hash file) s) (rename_files hash plan))

  -- filePlan
  unfoldable pub file_plan : Text → List Text → Bool → PlanResult
  file_plan title files sonarr =
      if not sonarr || is_empty (trim_space options.sonarr_format)
      then plan_files (radarr_name options.extension_of options.is_subtitle title) title files
      else plan_files (options.sonarr_name title) title files

  -- The end of renameEvent for qBittorrent, with the plan.
  unfoldable pub rename_planned : Event → PlanResult → Run W → Option (RunError E) × Run W
  rename_planned event invalid_path r = (some bad_plan, r)
  rename_planned event in_place r = ask (rename_in_qbittorrent event.hash event.source_title) r
  rename_planned event (planned plan) r =
      unless_failed (ask (rename_in_qbittorrent event.hash event.source_title) r)
        (rename_files event.hash plan)

  -- What renameEvent makes of the files of a torrent.
  unfoldable pub plan_of : Event → Bool → Result E (List Text) → Run W → Option (RunError E) × Run W
  plan_of event sonarr (err e) r = (some (called e), r)
  plan_of event sonarr (ok files) r =
      rename_planned event (file_plan event.source_title files sonarr) r

  -- renameEvent for qBittorrent
  unfoldable pub rename_in_client : Event → Bool → Run W → Option (RunError E) × Run W
  rename_in_client event sonarr r =
      let listed = options.list_files event.hash r.world in
      if not options.files_enabled
      then rename_planned event in_place r
      else plan_of event sonarr listed.0 (record r { world = listed.1 })

  -- renameEvent
  unfoldable pub rename_event : Event → Bool → Run W → Option (RunError E) × Run W
  rename_event event sonarr r = elim event.downloader [
    | transmission ↦
        if options.has_transmission
        then ask (rename_in_transmission event.hash event.source_title) r
        else (none, r)
    | qbittorrent ↦ if options.has_qbittorrent then rename_in_client event sonarr r else (none, r)
  ]

  -- The body of the loop of run, for an event that is not passed over and for one that is.
  unfoldable pub take_event : Bool → Event → Progress W E → Progress W E
  take_event deduplicate event p =
      let renamed = rename_event event deduplicate p.made in
      if not (is_wanted deduplicate p.seen event) then p else record {
        seen = if deduplicate then event.hash ∷ p.seen else p.seen;
        errors = p.errors ++ errors_of renamed.0;
        made = renamed.1;
      }

  -- The loop of run.
  unfoldable pub run_events : Bool → List Event → Progress W E → Progress W E
  run_events deduplicate [] p = p
  run_events deduplicate (event ∷ events) p =
      unless_over (options.cancelled p.made.world) p
        (λ q. run_events deduplicate events (take_event deduplicate event q))

  -- run, from the answer of the history.
  unfoldable pub run_fetched : Bool → Result E (List Event) → W → List (RunError E) × Run W
  run_fetched deduplicate (err e) w = (called e ∷ [], record { log = []; world = w })
  run_fetched deduplicate (ok events) w =
      let fresh : Run W = record { log = []; world = w } in
      let p = run_events deduplicate events (record { seen = []; errors = []; made = fresh }) in
      (p.errors, p.made)

  -- run; RunSonarr deduplicates, RunRadarr does not.
  unfoldable pub run : Endpoint → ℤ → Bool → W → List (RunError E) × Run W
  run endpoint fallback deduplicate w =
      let fetched = options.history endpoint (options.now w -ℤ fallback) w in
      if ltb_ℤ fallback (pos 0)
      then (negative_fallback ∷ [], record { log = []; world = w })
      else run_fetched deduplicate fetched.0 fetched.1

  -- The method endpoint
  unfoldable pub configured_endpoint : Text → Text → W → Result (RunError E) Endpoint × W
  configured_endpoint url_key api_key_key w =
      if not options.has_config
      then (err no_config, w)
      else let url = options.value_by_key url_key w in
        elim url.0 [
          | err e ↦ (err (called e), url.1)
          | ok u ↦
              let key = options.value_by_key api_key_key url.1 in
              elim key.0 [
                | err e ↦ (err (called e), key.1)
                | ok k ↦ (ok (record { url = u; api_key = k }), key.1)
              ]
        ]

  -- RunConfiguredSonarr and RunConfiguredRadarr
  unfoldable pub run_configured : Bool → ℤ → W → List (RunError E) × Run W
  run_configured sonarr fallback w =
      let found =
        if sonarr
        then configured_endpoint (codes "sonarrUrl") (codes "sonarrApikey") w
        else configured_endpoint (codes "radarrUrl") (codes "radarrApikey") w in
      elim found.0 [
        | err e ↦ (e ∷ [], record { log = []; world = found.1 })
        | ok endpoint ↦ run endpoint fallback sonarr found.1
      ]
