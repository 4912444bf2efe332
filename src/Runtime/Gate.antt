-- ===== src/Runtime/Gate.antt =====
-- internal/runtime/title_sync_gate.go: one title synchronisation of each kind at a time, and none
-- behind one that succeeded until its marker is cleared. Every method holds the lock throughout.
pub mod Attempts
pub mod Exclusion
pub mod Retention
pub mod Clearing
mod Examples
use jproxy_go.Common.{
  ℕ, ◌+◌, ◌%◌, ◌≡◌, inl, inr, Bool, true, false, ◌||◌, not, none, some, List, [], ◌∷◌, arith, ◌==◌,
  if◌then◌else◌, Option-cases, Text, codes, Map, lookup, insert,
}

abbrev pub sonarr_title_sync_interval : Text
sonarr_title_sync_interval = codes "sonarr_title_sync_interval"

abbrev pub tmdb_title_sync_interval : Text
tmdb_title_sync_interval = codes "tmdb_title_sync_interval"

abbrev pub radarr_title_sync_interval : Text
radarr_title_sync_interval = codes "radarr_title_sync_interval"

-- titleSyncMarkers
abbrev pub title_sync_markers : List Text
title_sync_markers =
    sonarr_title_sync_interval ∷ tmdb_title_sync_interval ∷ radarr_title_sync_interval ∷ []

-- TitleSyncAttempt
pub record Attempt : Type 0 where
  pub marker : Text
  pub generation : ℕ
  pub id : ℕ

-- titleSyncState; the counters are uint64
pub record SyncState : Type 0 where
  pub in_flight : Bool
  pub retained_success : Bool
  pub generation : ℕ
  pub attempt_id : ℕ

-- The zero value, which a map yields for a missing key.
abbrev pub idle : SyncState
idle = record { in_flight = false; retained_success = false; generation = 0; attempt_id = 0 }

-- titleSyncGate
pub record Gate : Type 0 where
  pub states : Map SyncState
  pub next_id : ℕ

-- The outcomes of BeginTitleSync: an attempt, ErrUnknownCacheName, ErrTitleSyncTooFrequent.
pub data Begun : Type 0 where
  started : Attempt → Begun
  unknown_name : Begun
  too_frequent : Begun

abbrev pub u64 : ℕ → ℕ
u64 n = n % 18446744073709551616

unfoldable pub new_gate : Gate
new_gate = record {
  states =
      (sonarr_title_sync_interval, idle)
      ∷ (tmdb_title_sync_interval, idle)
      ∷ (radarr_title_sync_interval, idle)
      ∷ [];
  next_id = 0;
}

abbrev pub begun_state : ℕ → SyncState → SyncState
begun_state id state = record state { in_flight = true; attempt_id = id }

unfoldable pub begin : Text → Gate → Gate × Begun
begin marker g = elim (lookup marker g.states) [
  | none ↦ (g, unknown_name)
  | some state ↦ if state.in_flight || state.retained_success then (g, too_frequent) else (
    record {
      states = insert marker (begun_state (u64 (g.next_id + 1)) state) g.states;
      next_id = u64 (g.next_id + 1);
    },
    started (record { marker = marker; generation = state.generation; id = u64 (g.next_id + 1) }),
  )
]

-- What the end of an attempt does to the state of its marker.
abbrev pub finished_state : Attempt → Bool → SyncState → SyncState
finished_state attempt succeeded state = record state {
  in_flight = false;
  retained_success =
      if state.generation == attempt.generation then succeeded else state.retained_success;
}

unfoldable pub finish : Attempt → Bool → Gate → Gate
finish attempt succeeded g = elim (lookup attempt.marker g.states) [
  | none ↦ g
  | some state ↦
      if not (state.attempt_id == attempt.id) || not state.in_flight then g else record g {
        states = insert attempt.marker (finished_state attempt succeeded state) g.states;
      }
]

-- g.states[marker], with the zero value for a missing key
abbrev pub state_of : Text → Gate → SyncState
state_of marker g = elim (lookup marker g.states) [ none ↦ idle | some state ↦ state ]

abbrev pub cleared_state : SyncState → SyncState
cleared_state state = record state {
  generation = u64 (state.generation + 1);
  retained_success = false;
}

unfoldable pub clear : Text → Gate → Gate
clear marker g = record g { states = insert marker (cleared_state (state_of marker g)) g.states }

-- The loop of clearAll, over any list of markers.
unfoldable pub clear_each : List Text → Gate → Gate
clear_each [] g = g
clear_each (marker ∷ markers) g = clear_each markers (clear marker g)

unfoldable pub clear_all : Gate → Gate
unfolding clear_each
clear_all = clear_each title_sync_markers

-- What a successful BeginTitleSync found, and what it did.
pub record IsStart (marker : Text) (g h : Gate) (a : Attempt) (state : SyncState) : Type 0 where
  pub found : lookup marker g.states ≡ some state
  pub was_free : state.in_flight ≡ false
  pub was_unmarked : state.retained_success ≡ false
  pub its_marker : a.marker ≡ marker
  pub its_generation : a.generation ≡ state.generation
  pub its_id : a.id ≡ u64 (g.next_id + 1)
  pub next : h.next_id ≡ u64 (g.next_id + 1)
  pub stored : h.states ≡ insert marker (begun_state (u64 (g.next_id + 1)) state) g.states

pub begin_started :
    (marker : Text) (g h : Gate) (a : Attempt)
    → begin marker g ≡ (h, started a)
    → (state : SyncState) × IsStart marker g h a state
unfolding begin
begin_started marker g h a e = elim (Option-cases (lookup marker g.states)) [
  | inl missing ↦ absurd (ground arith)
  | inr (state, found) ↦ (state, ground arith)
]
