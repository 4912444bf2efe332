-- ===== src/Runtime/Gate/Examples.antt =====
-- The theorems about the gate at concrete inputs, and tests.
use jproxy_go.Common.{
  ◌≡◌, refl, ◌↔◌, Bool, true, List, [], ◌∷◌, Memᴰ, arith, All, codes, text_eq, lookup, insert,
}
use jproxy_go.Runtime.Gate.{
  sonarr_title_sync_interval, tmdb_title_sync_interval, radarr_title_sync_interval, Attempt, idle,
  Gate, new_gate, begun_state, begin, finish, started, unknown_name, too_frequent,
}
use jproxy_go.Runtime.Gate.Attempts.{without_id, Reached, Apart, fresh, began, finished, cleared}
use jproxy_go.Runtime.Gate.Exclusion.{open_attempts-Apart}
use jproxy_go.Runtime.Gate.Retention.{Event, happen_all, clears, begin-finish, cleared, begun}

abbrev tmdb_attempt : Attempt
tmdb_attempt = record { marker = tmdb_title_sync_interval; generation = 0; id = 1 }

-- The new gate with an attempt in flight.
abbrev busy : Gate
busy = record {
  states =
      (sonarr_title_sync_interval, idle)
      ∷ (tmdb_title_sync_interval, begun_state 1 idle)
      ∷ (radarr_title_sync_interval, idle)
      ∷ [];
  next_id = 1;
}

begin_tmdb : begin tmdb_title_sync_interval new_gate ≡ (busy, started tmdb_attempt)
unfolding begin new_gate lookup insert text_eq
begin_tmdb = refl

begin_unknown : (begin (codes "sonarr") new_gate).1 ≡ unknown_name
unfolding begin new_gate lookup text_eq
begin_unknown = refl

reached_busy : Reached busy (tmdb_attempt ∷ []) []
unfolding new_gate
reached_busy = began tmdb_title_sync_interval fresh begin_tmdb (omega arith)

reached_done : Reached (finish tmdb_attempt true busy) [] (tmdb_attempt ∷ [])
unfolding without_id
reached_done = finished tmdb_attempt true reached_busy (Memᴰ.head refl)

open_attempts-Apart_example :
    Apart (tmdb_attempt ∷ [])
    × All (λ a. (begin a.marker busy).1 ≡ too_frequent) (tmdb_attempt ∷ [])
open_attempts-Apart_example = open_attempts-Apart reached_busy

-- While the attempt runs, another kind is cleared and begins, and a third is begun twice.
abbrev meanwhile : List Event
meanwhile =
    cleared sonarr_title_sync_interval
    ∷ begun sonarr_title_sync_interval
    ∷ begun radarr_title_sync_interval
    ∷ begun tmdb_title_sync_interval
    ∷ cleared tmdb_title_sync_interval
    ∷ cleared tmdb_title_sync_interval
    ∷ []

begin-finish_example :
    ((begin tmdb_title_sync_interval (finish tmdb_attempt true (happen_all meanwhile busy))).1
      ≡ too_frequent)
    ↔ (◌≡◌ {A = Bool} true true × (clears tmdb_title_sync_interval meanwhile ≡ 0))
unfolding text_eq
begin-finish_example =
    begin-finish tmdb_title_sync_interval new_gate busy tmdb_attempt meanwhile true begin_tmdb
      (omega arith) (tt, (tt, (tt, (tt, (tt, (tt, tt)))))) (omega arith)
