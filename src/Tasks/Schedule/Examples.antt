-- ===== src/Tasks/Schedule/Examples.antt =====
-- Schedules on the clock of UTC.
use jproxy_go.Common.{ℕ, ◌/◌, ◌%◌, ◌≡◌, refl, inl, inr, some, pos}
use jproxy_go.Tasks.Schedule.{
  Clock, new_every_seconds, matches, search_matching, next, every_minutes, every_seconds,
  interval_field,
}
use jproxy_go.Tasks.Schedule.Next.{IsNext, next_lem}

abbrev utc : Clock
utc = record {
  hour = λ t. t / 3600000000000 % 24;
  minute = λ t. t / 60000000000 % 60;
  second = λ t. t / 1000000000 % 60;
}

every_30_accepted : new_every_seconds (pos 30) ≡ inl (every_seconds 30)
unfolding new_every_seconds
every_30_accepted = refl

every_45_refused : new_every_seconds (pos 45) ≡ inr interval_field
unfolding new_every_seconds
every_45_refused = refl

half_past :
    search_matching 40 (matches utc (every_seconds 30)) 100000000000 1000000000 ≡ some 30000000000
unfolding search_matching matches
half_past = refl

next_lem_example :
    (found : ℕ) × (next utc (every_minutes 5 0) 90000000001 ≡ some found)
    × IsNext utc (every_minutes 5 0) 90000000001 found
next_lem_example = next_lem utc (every_minutes 5 0) 90000000001
