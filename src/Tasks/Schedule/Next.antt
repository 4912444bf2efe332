-- ===== src/Tasks/Schedule/Next.antt =====
-- What Next finds (internal/tasks/schedule.go, nextMatching).
use mathlib.Core.Path.{subst}
use jproxy_go.Common.{
  ℕ, zero, suc, ◌+◌, ◌*◌, ◌≤◌, ◌<◌, ◌≡◌, ◌∙◌, ◌⊎◌, inl, inr, Bool, true, false, ◌||◌, some, arith,
  ltb, Bool-cases,
}
use jproxy_go.Tasks.Schedule.{
  Clock, Schedule, time_second, schedule_search_limit, matches, search_matching, next_second,
  next_matching, next,
}

-- `found` is the first candidate that passes the test, or the first one past the limit.
pub record IsFirst (test : ℕ → Bool) (limit start found : ℕ) : Type 0 where
  pub steps : ℕ
  pub in_steps : found ≡ start + steps * time_second
  pub hits : (test found ≡ true) ⊎ (limit < found)
  pub not_before : (i : ℕ) → i < steps → test (start + i * time_second) ≡ false
  pub bounded : found ≤ start ⊎ found ≤ limit + time_second

search_here :
    (fuel : ℕ) (test : ℕ → Bool) (limit start : ℕ)
    → (ltb limit start || test start) ≡ true
    → search_matching (suc fuel) test limit start ≡ some start
unfolding search_matching
search_here fuel test limit start h = ground arith

search_later :
    (fuel : ℕ) (test : ℕ → Bool) (limit start : ℕ)
    → (ltb limit start || test start) ≡ false
    → search_matching (suc fuel) test limit start
      ≡ search_matching fuel test limit (start + time_second)
unfolding search_matching
search_later fuel test limit start h = ground arith

before_later :
    (test : ℕ → Bool) (start steps : ℕ)
    → test start ≡ false
    → ((i : ℕ) → i < steps → test (start + time_second + i * time_second) ≡ false)
    → (i : ℕ) → i < suc steps
    → test (start + i * time_second) ≡ false
before_later test start steps here later zero l =
    subst (λ t. test t ≡ false) (the_same_instant start) here
  where
    the_same_instant : (n : ℕ) → n ≡ n + 0 * time_second
    the_same_instant n = omega arith
before_later test start steps here later (suc i) l =
    subst (λ t. test t ≡ false) (one_second_on start i) (later i (omega (arith, l)))
  where
    one_second_on : (n k : ℕ) → n + time_second + k * time_second ≡ n + suc k * time_second
    one_second_on n k = omega arith

later-IsFirst :
    (test : ℕ → Bool) (limit start found : ℕ)
    → (ltb limit start || test start) ≡ false
    → IsFirst test limit (start + time_second) found
    → IsFirst test limit start found
later-IsFirst test limit start found h v = record {
  steps = suc v.steps;
  in_steps = omega (arith, v.in_steps);
  hits = v.hits;
  not_before = before_later test start v.steps (ground arith) v.not_before;
  bounded = elim v.bounded [ inl near ↦ inr (ground arith) | inr far ↦ inr far ];
}

here-IsFirst :
    (test : ℕ → Bool) (limit start : ℕ)
    → (ltb limit start || test start) ≡ true
    → IsFirst test limit start start
here-IsFirst test limit start h = record {
  steps = 0;
  in_steps = omega arith;
  hits = elim (Bool-cases (test start)) [
    | inl yes_here ↦ inl yes_here
    | inr past ↦ inr (ground arith)
  ];
  not_before = λ i l. absurd (omega (arith, l));
  bounded = inl (omega arith);
}

search_matching_lem :
    (fuel : ℕ) (test : ℕ → Bool) (limit start : ℕ)
    → limit < start + fuel * time_second
    → (found : ℕ) × (search_matching (suc fuel) test limit start ≡ some found)
      × IsFirst test limit start found
search_matching_lem zero test limit start h =
    let past : (ltb limit start || test start) ≡ true = ground arith in
    (start, search_here zero test limit start past, here-IsFirst test limit start past)
search_matching_lem (suc fuel) test limit start h =
    elim (Bool-cases (ltb limit start || test start)) [
      | inl stops ↦ (
        start,
        search_here (suc fuel) test limit start stops,
        here-IsFirst test limit start stops,
      )
      | inr more ↦
          let (found, same, v) =
            search_matching_lem fuel test limit (start + time_second) (omega (arith, h)) in
          (
            found,
            search_later (suc fuel) test limit start more ∙ same,
            later-IsFirst test limit start found more v,
          )
    ]

next_second_bounds :
    (from : ℕ) → (from < next_second from) × (next_second from ≤ from + time_second)
unfolding next_second
next_second_bounds from = (omega arith, omega arith)

-- What a schedule's next instant is: later than `from`, at most 72 hours and a second later, and the
-- first whole second after `from` that the schedule matches, unless the 72 hours have none.
pub record IsNext (clock : Clock) (schedule : Schedule) (from found : ℕ) : Type 0 where
  pub later : from < found
  pub soon : found ≤ from + schedule_search_limit + time_second
  pub first :
      IsFirst (matches clock schedule) (from + schedule_search_limit) (next_second from) found

-- Next always ends, with the first whole second that matches.
pub next_lem :
    (clock : Clock) (schedule : Schedule) (from : ℕ)
    → (found : ℕ) × (next clock schedule from ≡ some found) × IsNext clock schedule from found
unfolding next next_matching
next_lem clock schedule from =
    let (found, same, v) =
      search_matching_lem 259201 (matches clock schedule) (from + schedule_search_limit)
        (next_second from) (omega (arith, next_second_bounds from)) in
    (
      found,
      same,
      record {
        later = omega (arith, v.in_steps, next_second_bounds from);
        soon = elim v.bounded [
          | inl near ↦ omega (arith, near, next_second_bounds from)
          | inr far ↦ far
        ];
        first = v;
      },
    )
