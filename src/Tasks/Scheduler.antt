-- ===== src/Tasks/Scheduler.antt =====
-- internal/tasks/scheduler.go: the runs of the jobs. startRun starts a goroutine for each run that it does
-- not skip; a step of a goroutine is what it does between two points where others can come in between: the
-- semaphore, and the mutex of its job's state. A job is its index; timers are not modelled, so that any job
-- may be started at any time.
pub mod Counting
pub mod Exclusion
pub mod Limit
mod Examples
use jproxy_go.Common.{
  ℕ, suc, ◌-◌, ◌≡◌, Bool, true, false, ◌&&◌, ◌||◌, not, Option, none, some, List, [], ◌∷◌, ◌++◌, ℤ,
  pos_part, ltb_ℤ, pos, ltb, ◌==◌, if◌then◌else◌,
}

-- jobState
pub record JobState : Type 0 where
  pub running : Bool
  pub waiting : Bool
  pub failure_episode : Bool

-- Where a goroutine stands: before the semaphore, behind it, in the callback, behind the callback with the
-- semaphore still held, or on its way out with the job's state still waiting.
pub data Stage : Type 0 where
  asking : Stage
  holding : Stage
  calling : Stage
  releasing : Stage
  leaving : Stage

pub record Run : Type 0 where
  pub job : ℕ
  pub stage : Stage

-- The state of all jobs, the places of the semaphore and those in use, the goroutines, and the jobs whose
-- failures were logged, the last one first.
pub record Scheduler : Type 0 where
  pub limit : ℕ
  pub used : ℕ
  pub states : ℕ → JobState
  pub runs : List Run
  pub failures_logged : List ℕ

-- NewScheduler
unfoldable pub new_scheduler : ℤ → Scheduler
new_scheduler max_concurrency = record {
  limit = if ltb_ℤ max_concurrency (pos 1) then 1 else pos_part max_concurrency;
  used = 0;
  states = λ j. record { running = false; waiting = false; failure_episode = false };
  runs = [];
  failures_logged = [];
}

abbrev pub update : ℕ → JobState → (ℕ → JobState) → ℕ → JobState
update j s states i = if i == j then s else states i

-- The first critical section of startRun; a job that is running or waiting is skipped.
unfoldable pub start_run : ℕ → Scheduler → Scheduler
start_run j w = if (w.states j).running || (w.states j).waiting then w else record w {
  states = update j (record (w.states j) { waiting = true }) w.states;
  runs = record { job = j; stage = asking } ∷ w.runs;
}

-- What decides a step: whether the context is cancelled, and how the callback ended (err != nil,
-- runContext.Err() != nil, ctx.Err() != nil).
pub data Choice : Type 0 where
  cancelled : Choice
  goes_on : Choice
  ended : Bool → Bool → Bool → Choice

-- clearWaiting
unfoldable pub clear_waiting : ℕ → Scheduler → Scheduler
clear_waiting j w = record w {
  states = update j (record (w.states j) { waiting = false }) w.states;
}

-- state.waiting = false; state.running = true
unfoldable pub enter_call : ℕ → Scheduler → Scheduler
enter_call j w = record w {
  states = update j (record (w.states j) { waiting = false; running = true }) w.states;
  runs = record { job = j; stage = calling } ∷ w.runs;
}

-- The critical section behind the callback.
unfoldable pub leave_call : ℕ → Bool → Bool → Bool → Scheduler → Scheduler
leave_call j call_err run_err ctx_err w =
    let failed = call_err && not ctx_err in
    let succeeded = not failed && not run_err && not ctx_err in
    let was = (w.states j).failure_episode in
    record w {
      states =
          update j
            (record (w.states j) {
              running = false;
              failure_episode = not succeeded && (failed || was);
            })
            w.states;
      runs = record { job = j; stage = releasing } ∷ w.runs;
      failures_logged = if failed && not was then j ∷ w.failures_logged else w.failures_logged;
    }

-- A step of a goroutine, which is not among `runs` then; `none` is a step that it cannot take.
unfoldable pub move : Stage → Choice → ℕ → Scheduler → Option Scheduler
move asking goes_on j w =
    if ltb w.used w.limit
    then some (record w { used = suc w.used; runs = record { job = j; stage = holding } ∷ w.runs })
    else none
move asking cancelled j w = some (clear_waiting j w)
move holding cancelled j w =
    some (record w { used = w.used - 1; runs = record { job = j; stage = leaving } ∷ w.runs })
move holding goes_on j w = some (enter_call j w)
move calling (ended call_err run_err ctx_err) j w = some (leave_call j call_err run_err ctx_err w)
move releasing goes_on j w = some (record w { used = w.used - 1 })
move leaving goes_on j w = some (clear_waiting j w)
move _ _ j w = none

-- The steps of all goroutines.
pub data Step : Scheduler → Scheduler → Type 0 where
  started : (j : ℕ) (w : Scheduler) → Step w (start_run j w)
  moved :
      (w v : Scheduler) (before after : List Run) (r : Run) (c : Choice)
      → w.runs ≡ before ++ r ∷ after
      → move r.stage c r.job (record w { runs = before ++ after }) ≡ some v
      → Step w v

-- The schedulers that come up.
pub data Reached (max_concurrency : ℤ) : Scheduler → Type 0 where
  at_start : Reached max_concurrency (new_scheduler max_concurrency)
  step : {w v : Scheduler} → Reached max_concurrency w → Step w v → Reached max_concurrency v
