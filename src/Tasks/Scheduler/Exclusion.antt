-- ===== src/Tasks/Scheduler/Exclusion.antt =====
-- No job runs twice at a time, and no more jobs than the limit (internal/tasks/scheduler.go).
use mathlib.Core.Path.{subst}
use jproxy_go.Common.{
  ℕ, suc, ◌+◌, ◌-◌, ◌≤◌, ◌≡◌, refl, sym, ap, ◌∙◌, inl, inr, Bool, false, ◌&&◌, ◌||◌, some, List,
  ◌∷◌, ◌++◌, arith, ℤ, ltb, ◌==◌, if◌then◌else◌, ltb→lt, Bool-cases,
}
use jproxy_go.Tasks.Scheduler.{
  JobState, Stage, Run, Scheduler, new_scheduler, start_run, Choice, clear_waiting, enter_call,
  leave_call, move, Reached, asking, holding, calling, releasing, leaving, cancelled, goes_on,
  ended, started, moved, at_start, step,
}
use jproxy_go.Tasks.Scheduler.Counting.{
  if_so, holds, waits, calls, total, total_of, total-append, total_of-append,
}

-- The state of a job and its goroutines, which are `ws` waiting ones and `cs` in the callback.
pub record Agrees (s : JobState) (ws cs : ℕ) : Type 0 where
  pub waiting_one : ws ≡ if_so s.waiting
  pub calling_one : cs ≡ if_so s.running
  pub exclusive : (s.running && s.waiting) ≡ false

-- What holds between two steps.
pub record IsValid (w : Scheduler) : Type 0 where
  pub room : 1 ≤ w.limit
  pub in_use : w.used ≡ total holds w.runs
  pub bounded : w.used ≤ w.limit
  pub agrees : (j : ℕ) → Agrees (w.states j) (total_of waits j w.runs) (total_of calls j w.runs)

-- The same with one goroutine taken out of `runs`.
record IsTaken (stage : Stage) (job : ℕ) (w : Scheduler) : Type 0 where
  room : 1 ≤ w.limit
  in_use : w.used ≡ holds stage + total holds w.runs
  bounded : w.used ≤ w.limit
  agrees :
      (j : ℕ)
      → Agrees
          (w.states j)
          ((if j == job then waits stage else 0) + total_of waits j w.runs)
          ((if j == job then calls stage else 0) + total_of calls j w.runs)

take_out :
    (w : Scheduler) (before after : List Run) (r : Run)
    → w.runs ≡ before ++ r ∷ after
    → IsValid w
    → IsTaken r.stage r.job (record w { runs = before ++ after })
take_out w before after r e v = record {
  room = v.room;
  in_use = v.in_use ∙ ap (total holds) e ∙ total-append holds before r after;
  bounded = v.bounded;
  agrees = λ j. record {
    waiting_one =
        sym (total_of-append waits j before r after)
        ∙ sym (ap (total_of waits j) e)
        ∙ (v.agrees j).waiting_one;
    calling_one =
        sym (total_of-append calls j before r after)
        ∙ sym (ap (total_of calls j) e)
        ∙ (v.agrees j).calling_one;
    exclusive = (v.agrees j).exclusive;
  };
}

start_run-IsValid : (j : ℕ) (w : Scheduler) → IsValid w → IsValid (start_run j w)
unfolding start_run total total_of
start_run-IsValid j w v = elim (Bool-cases ((w.states j).running || (w.states j).waiting)) [
  | inl busy ↦ rw busy v
  | inr idle ↦ rw idle (record {
    room = v.room;
    in_use = omega (arith, v.in_use);
    bounded = v.bounded;
    agrees = λ i. record {
      waiting_one = ground (arith, (v.agrees i).waiting_one);
      calling_one = ground (arith, (v.agrees i).calling_one);
      exclusive = ground (arith, (v.agrees i).exclusive);
    };
  })
]

clear_waiting-IsValid :
    (stage : Stage) (job : ℕ) (w : Scheduler)
    → holds stage ≡ 0
    → waits stage ≡ 1
    → calls stage ≡ 0
    → IsTaken stage job w
    → IsValid (clear_waiting job w)
unfolding clear_waiting
clear_waiting-IsValid stage job w h s c v = record {
  room = v.room;
  in_use = omega (arith, v.in_use, h);
  bounded = v.bounded;
  agrees = λ j. record {
    waiting_one = ground (arith, v.agrees j, (v.agrees j).waiting_one, s);
    calling_one = ground (arith, v.agrees j, (v.agrees j).calling_one, c);
    exclusive = ground (arith, v.agrees j, (v.agrees j).exclusive);
  };
}

enter_call-IsValid : (job : ℕ) (w : Scheduler) → IsTaken holding job w → IsValid (enter_call job w)
unfolding enter_call total total_of
enter_call-IsValid job w v = record {
  room = v.room;
  in_use = omega (arith, v.in_use);
  bounded = v.bounded;
  agrees = λ j. record {
    waiting_one = ground (arith, (v.agrees j).waiting_one);
    calling_one =
        ground (arith, (v.agrees j).calling_one, (v.agrees j).waiting_one, (v.agrees j).exclusive);
    exclusive = ground (arith, (v.agrees j).exclusive);
  };
}

leave_call-IsValid :
    (call_err run_err ctx_err : Bool) (job : ℕ) (w : Scheduler)
    → IsTaken calling job w
    → IsValid (leave_call job call_err run_err ctx_err w)
unfolding leave_call total total_of
leave_call-IsValid call_err run_err ctx_err job w v = record {
  room = v.room;
  in_use = v.in_use;
  bounded = v.bounded;
  agrees = λ j. record {
    waiting_one = ground (arith, (v.agrees j).waiting_one);
    calling_one = ground (arith, (v.agrees j).calling_one);
    exclusive = ground (arith, (v.agrees j).exclusive);
  };
}

-- A goroutine that only takes or gives back a place, and stands at another stage then.
to_stage-IsValid :
    (stage next : Stage) (used job : ℕ) (w : Scheduler)
    → waits stage ≡ waits next
    → calls stage ≡ calls next
    → used ≡ holds next + total holds w.runs
    → used ≤ w.limit
    → IsTaken stage job w
    → IsValid (record w { used = used; runs = record { job = job; stage = next } ∷ w.runs })
unfolding total total_of
to_stage-IsValid stage next used job w s c u b v = record {
  room = v.room;
  in_use = u;
  bounded = b;
  agrees = λ j. record {
    waiting_one = ground (arith, (v.agrees j).waiting_one, s);
    calling_one = ground (arith, (v.agrees j).calling_one, c);
    exclusive = (v.agrees j).exclusive;
  };
}

released-IsValid :
    (job : ℕ) (w : Scheduler) → IsTaken releasing job w → IsValid (record w { used = w.used - 1 })
released-IsValid job w v = record {
  room = v.room;
  in_use = omega (arith, v.in_use);
  bounded = omega (arith, v.bounded);
  agrees = λ j. record {
    waiting_one = ground (arith, (v.agrees j).waiting_one);
    calling_one = ground (arith, (v.agrees j).calling_one);
    exclusive = (v.agrees j).exclusive;
  };
}

acquired-IsValid :
    (job : ℕ) (w v : Scheduler)
    → IsTaken asking job w
    → move asking goes_on job w ≡ some v
    → IsValid v
unfolding move
acquired-IsValid job w v t e = elim (Bool-cases (ltb w.used w.limit)) [
  | inl free ↦ subst IsValid (ground arith) (
      to_stage-IsValid asking holding (suc w.used) job w refl refl (omega (arith, t.in_use))
        (ltb→lt w.used w.limit free) t)
  | inr full ↦ absurd (ground arith)
]

some_of : {w v : Scheduler} → some w ≡ some v → w ≡ v
some_of e = ground arith

move-IsValid :
    (stage : Stage) (c : Choice) (job : ℕ) (w v : Scheduler)
    → IsTaken stage job w
    → move stage c job w ≡ some v
    → IsValid v
unfolding move
move-IsValid asking goes_on job w v t e = acquired-IsValid job w v t e
move-IsValid asking cancelled job w v t e =
    subst IsValid (some_of e) (clear_waiting-IsValid asking job w refl refl refl t)
move-IsValid asking (ended _ _ _) job w v t e = absurd (ground arith)
move-IsValid holding cancelled job w v t e = subst IsValid (some_of e) (
    to_stage-IsValid holding leaving (w.used - 1) job w refl refl (omega (arith, t.in_use))
      (omega (arith, t.bounded)) t)
move-IsValid holding goes_on job w v t e = subst IsValid (some_of e) (enter_call-IsValid job w t)
move-IsValid holding (ended _ _ _) job w v t e = absurd (ground arith)
move-IsValid calling (ended call_err run_err ctx_err) job w v t e =
    subst IsValid (some_of e) (leave_call-IsValid call_err run_err ctx_err job w t)
move-IsValid calling cancelled job w v t e = absurd (ground arith)
move-IsValid calling goes_on job w v t e = absurd (ground arith)
move-IsValid releasing goes_on job w v t e = subst IsValid (some_of e) (released-IsValid job w t)
move-IsValid releasing cancelled job w v t e = absurd (ground arith)
move-IsValid releasing (ended _ _ _) job w v t e = absurd (ground arith)
move-IsValid leaving goes_on job w v t e =
    subst IsValid (some_of e) (clear_waiting-IsValid leaving job w refl refl refl t)
move-IsValid leaving cancelled job w v t e = absurd (ground arith)
move-IsValid leaving (ended _ _ _) job w v t e = absurd (ground arith)

new_scheduler-IsValid : (max_concurrency : ℤ) → IsValid (new_scheduler max_concurrency)
unfolding new_scheduler total total_of
new_scheduler-IsValid max_concurrency = record {
  room = ground arith;
  in_use = refl;
  bounded = omega arith;
  agrees = λ j. record { waiting_one = refl; calling_one = refl; exclusive = refl };
}

pub reached-IsValid : {n : ℤ} {w : Scheduler} → Reached n w → IsValid w
reached-IsValid {n} at_start = new_scheduler-IsValid n
reached-IsValid (step r (started j w)) = start_run-IsValid j w (reached-IsValid r)
reached-IsValid (step r (moved w v before after run c e m)) =
    move-IsValid run.stage c run.job (record w { runs = before ++ after }) v
      (take_out w before after run e (reached-IsValid r)) m
