-- ===== src/Tasks/Scheduler/Examples.antt =====
-- A job whose run waits for a place.
use jproxy_go.Common.{◌+◌, ◌≤◌, ◌≡◌, refl, pos}
use jproxy_go.Tasks.Scheduler.{
  Scheduler, new_scheduler, start_run, Reached, started, at_start, step,
}
use jproxy_go.Tasks.Scheduler.Counting.{waits, calls, total, total_of}
use jproxy_go.Tasks.Scheduler.Limit.{reached_exclusion}

abbrev one_started : Scheduler
one_started = start_run 0 (new_scheduler (pos 2))

one_reached : Reached (pos 2) one_started
one_reached = step at_start (started 0 (new_scheduler (pos 2)))

second_start_skipped : (start_run 0 one_started).runs ≡ one_started.runs
unfolding start_run new_scheduler
second_start_skipped = refl

reached_exclusion_example :
    (total calls one_started.runs ≤ 2)
    × (total_of waits 0 one_started.runs + total_of calls 0 one_started.runs ≤ 1)
reached_exclusion_example = reached_exclusion (pos 2) one_started 0 one_reached
