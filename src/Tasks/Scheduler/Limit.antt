-- ===== src/Tasks/Scheduler/Limit.antt =====
-- How many callbacks run at a time (internal/tasks/scheduler.go).
use jproxy_go.Common.{
  ℕ, ◌+◌, ◌≤◌, ◌≡◌, refl, ◌∙◌, some, List, [], ◌∷◌, ◌++◌, arith, ℤ, pos_part, ltb_ℤ, pos,
  if◌then◌else◌,
}
use jproxy_go.Tasks.Scheduler.{
  JobState, Stage, Run, Scheduler, new_scheduler, start_run, Choice, clear_waiting, enter_call,
  leave_call, move, Reached, asking, holding, calling, releasing, leaving, cancelled, goes_on,
  ended, started, moved, at_start, step,
}
use jproxy_go.Tasks.Scheduler.Counting.{holds, waits, calls, total, total_of}
use jproxy_go.Tasks.Scheduler.Exclusion.{Agrees, reached-IsValid}

start_run_limit : (j : ℕ) (w : Scheduler) → (start_run j w).limit ≡ w.limit
unfolding start_run
start_run_limit j w = ground arith

move_limit :
    (stage : Stage) (c : Choice) (job : ℕ) (w v : Scheduler)
    → move stage c job w ≡ some v
    → v.limit ≡ w.limit
unfolding move clear_waiting enter_call leave_call
move_limit asking goes_on job w v e = ground arith
move_limit asking cancelled job w v e = ground arith
move_limit asking (ended _ _ _) job w v e = absurd (ground arith)
move_limit holding goes_on job w v e = ground arith
move_limit holding cancelled job w v e = ground arith
move_limit holding (ended _ _ _) job w v e = absurd (ground arith)
move_limit calling goes_on job w v e = absurd (ground arith)
move_limit calling cancelled job w v e = absurd (ground arith)
move_limit calling (ended call_err run_err ctx_err) job w v e = ground arith
move_limit releasing goes_on job w v e = ground arith
move_limit releasing cancelled job w v e = absurd (ground arith)
move_limit releasing (ended _ _ _) job w v e = absurd (ground arith)
move_limit leaving goes_on job w v e = ground arith
move_limit leaving cancelled job w v e = absurd (ground arith)
move_limit leaving (ended _ _ _) job w v e = absurd (ground arith)

-- The number of callbacks that NewScheduler allows at a time.
abbrev pub allowed : ℤ → ℕ
allowed max_concurrency = if ltb_ℤ max_concurrency (pos 1) then 1 else pos_part max_concurrency

reached_limit : {n : ℤ} {w : Scheduler} → Reached n w → w.limit ≡ allowed n
unfolding new_scheduler
reached_limit at_start = refl
reached_limit (step r (started j w)) = start_run_limit j w ∙ reached_limit r
reached_limit (step r (moved w v before after run c e m)) =
    move_limit run.stage c run.job (record w { runs = before ++ after }) v m ∙ reached_limit r

calls_le : (stage : Stage) → calls stage ≤ holds stage
calls_le asking = omega arith
calls_le holding = omega arith
calls_le calling = omega arith
calls_le releasing = omega arith
calls_le leaving = omega arith

total-calls_le : (runs : List Run) → total calls runs ≤ total holds runs
unfolding total
total-calls_le [] = omega arith
total-calls_le (r ∷ runs) = omega (arith, calls_le r.stage, total-calls_le runs)

one_at_most : (s : JobState) (ws cs : ℕ) → Agrees s ws cs → ws + cs ≤ 1
one_at_most s ws cs a = ground (arith, a.waiting_one, a.calling_one, a.exclusive)

-- However starts and steps of goroutines come about: no more callbacks run at a time than
-- MaxConcurrency, or one if that is less than 1, and each job has at most one goroutine that is on its
-- way to its callback or in it.
pub reached_exclusion :
    (n : ℤ) (w : Scheduler) (j : ℕ)
    → Reached n w
    → (total calls w.runs ≤ allowed n) × (total_of waits j w.runs + total_of calls j w.runs ≤ 1)
reached_exclusion n w j r =
    let v = reached-IsValid r in
    (
      omega (arith, total-calls_le w.runs, v.in_use, v.bounded, reached_limit r),
      one_at_most (w.states j) (total_of waits j w.runs) (total_of calls j w.runs) (v.agrees j),
    )
