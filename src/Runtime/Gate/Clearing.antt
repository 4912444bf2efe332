-- ===== src/Runtime/Gate/Clearing.antt =====
-- What clearing markers does to the begins of each kind (internal/runtime/title_sync_gate.go).
use mathlib.Core.Path.{subst}
use jproxy_go.Common.{
  ◌+◌, ◌≡◌, refl, inl, inr, false, some, List, [], ◌∷◌, Memᴰ, arith, Bool-cases, Text, text_eq,
  text_eq_refl, text_eq_iff, lookup, lookup-insert,
}
use jproxy_go.Runtime.Gate.{
  title_sync_markers, Attempt, SyncState, Gate, u64, begin, state_of, cleared_state, clear,
  clear_each, clear_all, started,
}

-- The map holds this state under the marker.
abbrev Holds : Text → SyncState → Gate → Type 0
Holds marker state g = lookup marker g.states ≡ some state

-- Clearing one marker does not touch the others.
pub begin-clear_ne :
    (marker other : Text) (g : Gate)
    → text_eq marker other ≡ false
    → (begin other (clear marker g)).1 ≡ (begin other g).1
unfolding begin clear
begin-clear_ne marker other g h =
    ground (arith, lookup-insert marker other (cleared_state (state_of marker g)) g.states)

-- A begin of this kind starts.
abbrev IsFree : Text → Gate → Type 0
IsFree marker g =
    (state : SyncState) × Holds marker state g
    × (state.in_flight ≡ false)
    × (state.retained_success ≡ false)

clear-IsFree : (marker other : Text) (g : Gate) → IsFree other g → IsFree other (clear marker g)
unfolding clear
clear-IsFree marker other g (state, held, free, unmarked) =
    elim (Bool-cases (text_eq marker other)) [
      | inl same ↦ (
        cleared_state state,
        ground (
          arith,
          lookup-insert marker other (cleared_state (state_of marker g)) g.states,
          text_eq_iff marker other,
        ),
        free,
        refl,
      )
      | inr not_same ↦ (
        state,
        ground (arith, lookup-insert marker other (cleared_state (state_of marker g)) g.states),
        free,
        unmarked,
      )
    ]

clear_each-IsFree :
    (markers : List Text) (other : Text) (g : Gate)
    → IsFree other g
    → IsFree other (clear_each markers g)
unfolding clear_each
clear_each-IsFree [] other g h = h
clear_each-IsFree (m ∷ ms) other g h =
    clear_each-IsFree ms other (clear m g) (clear-IsFree m other g h)

IsFree-clear :
    (marker : Text) (g : Gate)
    → (state_of marker g).in_flight ≡ false
    → IsFree marker (clear marker g)
unfolding clear
IsFree-clear marker g free = (
  cleared_state (state_of marker g),
  ground (
    arith,
    lookup-insert marker marker (cleared_state (state_of marker g)) g.states,
    text_eq_refl marker,
  ),
  free,
  refl,
)

idle-clear :
    (marker other : Text) (g : Gate)
    → (state_of other g).in_flight ≡ false
    → (state_of other (clear marker g)).in_flight ≡ false
unfolding clear
idle-clear marker other g h = ground (
  arith,
  lookup-insert marker other (cleared_state (state_of marker g)) g.states,
  text_eq_iff marker other,
)

IsFree-clear_each :
    (markers : List Text) (marker : Text) (g : Gate)
    → Memᴰ marker markers
    → (state_of marker g).in_flight ≡ false
    → IsFree marker (clear_each markers g)
unfolding clear_each
IsFree-clear_each [] marker g m h = elim m [ ]
IsFree-clear_each (k ∷ ks) marker g (Memᴰ.head e) h =
    clear_each-IsFree ks marker (clear k g)
      (subst (λ x. IsFree marker (clear x g)) e (IsFree-clear marker g h))
IsFree-clear_each (k ∷ ks) marker g (Memᴰ.tail m) h =
    IsFree-clear_each ks marker (clear k g) m (idle-clear k marker g h)

begin_free :
    (marker : Text) (g : Gate) → IsFree marker g → (a : Attempt) × ((begin marker g).1 ≡ started a)
unfolding begin
begin_free marker g (state, held, free, unmarked) = (
  record { marker = marker; generation = state.generation; id = u64 (g.next_id + 1) },
  ground arith,
)

-- After clearAll a begin of any of the three kinds starts, unless an attempt of that kind is in
-- flight.
pub begin-clear_all :
    (marker : Text) (g : Gate)
    → Memᴰ marker title_sync_markers
    → (state_of marker g).in_flight ≡ false
    → (a : Attempt) × ((begin marker (clear_all g)).1 ≡ started a)
unfolding clear_all
begin-clear_all marker g m free =
    begin_free marker (clear_each title_sync_markers g)
      (IsFree-clear_each title_sync_markers marker g m free)
