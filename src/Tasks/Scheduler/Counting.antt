-- ===== src/Tasks/Scheduler/Counting.antt =====
-- Counting goroutines (internal/tasks/scheduler.go).
use jproxy_go.Common.{
  ℕ, ◌+◌, ◌≡◌, refl, Bool, true, false, List, [], ◌∷◌, ◌++◌, arith, ◌==◌, if◌then◌else◌,
}
use jproxy_go.Tasks.Scheduler.{Stage, Run, asking, holding, calling, releasing, leaving}

abbrev pub if_so : Bool → ℕ
if_so true = 1
if_so false = 0

-- Whether a stage holds a place of the semaphore, has its job waiting, or is in the callback.
abbrev pub holds : Stage → ℕ
holds asking = 0
holds holding = 1
holds calling = 1
holds releasing = 1
holds leaving = 0

abbrev pub waits : Stage → ℕ
waits asking = 1
waits holding = 1
waits calling = 0
waits releasing = 0
waits leaving = 1

abbrev pub calls : Stage → ℕ
calls asking = 0
calls holding = 0
calls calling = 1
calls releasing = 0
calls leaving = 0

-- How many goroutines a weight counts, over all jobs and of one job.
unfoldable pub total : (Stage → ℕ) → List Run → ℕ
total weight [] = 0
total weight (r ∷ runs) = weight r.stage + total weight runs

unfoldable pub total_of : (Stage → ℕ) → ℕ → List Run → ℕ
total_of weight j [] = 0
total_of weight j (r ∷ runs) = (if j == r.job then weight r.stage else 0) + total_of weight j runs

pub total-append :
    (weight : Stage → ℕ) (before : List Run) (r : Run) (after : List Run)
    → total weight (before ++ r ∷ after) ≡ weight r.stage + total weight (before ++ after)
unfolding total
total-append weight [] r after = refl
total-append weight (x ∷ before) r after = omega (arith, total-append weight before r after)

pub total_of-append :
    (weight : Stage → ℕ) (j : ℕ) (before : List Run) (r : Run) (after : List Run)
    → total_of weight j (before ++ r ∷ after)
      ≡ (if j == r.job then weight r.stage else 0) + total_of weight j (before ++ after)
unfolding total_of
total_of-append weight j [] r after = refl
total_of-append weight j (x ∷ before) r after =
    omega (arith, total_of-append weight j before r after)
