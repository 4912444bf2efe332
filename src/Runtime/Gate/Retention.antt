-- ===== src/Runtime/Gate/Retention.antt =====
-- A success holds further attempts back until its marker is cleared, and a clear that comes while
-- the attempt runs counts too (internal/runtime/title_sync_gate.go).
use mathlib.Core.Path.{subst}
use jproxy_go.Common.{
  ℕ, suc, ◌+◌, ◌<◌, ◌≡◌, refl, sym, ◌↔◌, inl, inr, Bool, true, false, ◌&&◌, some, List, [], ◌∷◌,
  arith, ◌==◌, if◌then◌else◌, Bool-cases, Option-cases, All, Text, text_eq, text_eq_refl,
  text_eq_iff, lookup, lookup-insert,
}
use jproxy_go.Runtime.Gate.{
  Attempt, SyncState, Gate, u64, begun_state, begin, finished_state, finish, state_of,
  cleared_state, clear, IsStart, begin_started, started, too_frequent,
}

-- The map holds this state under the marker.
abbrev Holds : Text → SyncState → Gate → Type 0
Holds marker state g = lookup marker g.states ≡ some state

finish_held :
    (a : Attempt) (succeeded : Bool) (state : SyncState) (g : Gate)
    → Holds a.marker state g
    → state.in_flight ≡ true
    → state.attempt_id ≡ a.id
    → Holds a.marker (finished_state a succeeded state) (finish a succeeded g)
unfolding finish
finish_held a succeeded state g h f i = ground (
  arith,
  lookup-insert a.marker a.marker (finished_state a succeeded state) g.states,
  text_eq_refl a.marker,
)

clear_held :
    (marker : Text) (state : SyncState) (g : Gate)
    → Holds marker state g
    → Holds marker (cleared_state state) (clear marker g)
unfolding clear
clear_held marker state g h =
    ground (arith, lookup-insert marker marker (cleared_state state) g.states, text_eq_refl marker)

begin_held :
    (marker : Text) (state : SyncState) (g : Gate)
    → Holds marker state g
    → state.in_flight ≡ false
    → ((begin marker g).1 ≡ too_frequent) ↔ (state.retained_success ≡ true)
unfolding begin
begin_held marker state g h f = ground arith

start_held :
    (marker : Text) (g h : Gate) (a : Attempt) (state : SyncState)
    → IsStart marker g h a state
    → Holds marker (begun_state a.id state) h
start_held marker g h a state s = ground (
  arith,
  lookup-insert marker marker (begun_state (u64 (g.next_id + 1)) state) g.states,
  text_eq_refl marker,
)

-- What callers may do while an attempt runs: clear a marker, begin, and end an attempt.
pub data Event : Type 0 where
  cleared : Text → Event
  begun : Text → Event
  ended : Attempt → Bool → Event

abbrev pub happen : Event → Gate → Gate
happen (cleared marker) g = clear marker g
happen (begun marker) g = (begin marker g).0
happen (ended attempt succeeded) g = finish attempt succeeded g

unfoldable pub happen_all : List Event → Gate → Gate
happen_all [] g = g
happen_all (e ∷ es) g = happen_all es (happen e g)

-- An event that does not end this attempt.
abbrev pub IsOther : Attempt → Event → Type 0
IsOther a (cleared marker) = Unit
IsOther a (begun marker) = Unit
IsOther a (ended b succeeded) = (text_eq b.marker a.marker && b.id == a.id) ≡ false

-- How often the events clear a marker.
abbrev pub clears : Text → List Event → ℕ
clears marker [] = 0
clears marker (cleared other ∷ es) =
    if text_eq other marker then suc (clears marker es) else clears marker es
clears marker (begun other ∷ es) = clears marker es
clears marker (ended b succeeded ∷ es) = clears marker es

-- The attempt runs, and its marker was cleared so often since it began.
record IsRunning (a : Attempt) (n : ℕ) (g : Gate) : Type 0 where
  state : SyncState
  held : Holds a.marker state g
  in_flight : state.in_flight ≡ true
  its_id : state.attempt_id ≡ a.id
  generation : state.generation ≡ u64 (a.generation + n)
  unmarked : state.retained_success ≡ false

clear_other :
    (a : Attempt) (n : ℕ) (marker : Text) (g : Gate)
    → IsRunning a n g
    → text_eq marker a.marker ≡ false
    → IsRunning a n (clear marker g)
unfolding clear
clear_other a n marker g r other = record {
  state = r.state;
  held =
      ground
        (arith, lookup-insert marker a.marker (cleared_state (state_of marker g)) g.states, r.held);
  in_flight = r.in_flight;
  its_id = r.its_id;
  generation = r.generation;
  unmarked = r.unmarked;
}

clear_same :
    (a : Attempt) (n : ℕ) (g : Gate) → IsRunning a n g → IsRunning a (suc n) (clear a.marker g)
clear_same a n g r = record {
  state = cleared_state r.state;
  held = clear_held a.marker r.state g r.held;
  in_flight = r.in_flight;
  its_id = r.its_id;
  generation = omega (arith, r.generation);
  unmarked = refl;
}

begin-IsRunning :
    (a : Attempt) (n : ℕ) (marker : Text) (g : Gate)
    → IsRunning a n g
    → IsRunning a n (begin marker g).0
unfolding begin
begin-IsRunning a n marker g r = record {
  state = r.state;
  held = elim (Option-cases (lookup marker g.states)) [
    | inl missing ↦ ground (arith, r.held)
    | inr (s, found) ↦ ground (
      arith,
      r.held,
      r.in_flight,
      text_eq_iff marker a.marker,
      lookup-insert marker a.marker (begun_state (u64 (g.next_id + 1)) s) g.states,
    )
  ];
  in_flight = r.in_flight;
  its_id = r.its_id;
  generation = r.generation;
  unmarked = r.unmarked;
}

finish_other :
    (a b : Attempt) (n : ℕ) (succeeded : Bool) (g : Gate)
    → IsRunning a n g
    → (text_eq b.marker a.marker && b.id == a.id) ≡ false
    → IsRunning a n (finish b succeeded g)
unfolding finish
finish_other a b n succeeded g r other = record {
  state = r.state;
  held = elim (Option-cases (lookup b.marker g.states)) [
    | inl missing ↦ ground (arith, r.held)
    | inr (s, found) ↦ ground (
      arith,
      r.held,
      r.its_id,
      text_eq_iff b.marker a.marker,
      lookup-insert b.marker a.marker (finished_state b succeeded s) g.states,
    )
  ];
  in_flight = r.in_flight;
  its_id = r.its_id;
  generation = r.generation;
  unmarked = r.unmarked;
}

happen_all-IsRunning :
    (a : Attempt) (n : ℕ) (es : List Event) (g : Gate)
    → IsRunning a n g
    → All (IsOther a) es
    → IsRunning a (n + clears a.marker es) (happen_all es g)
unfolding happen_all
happen_all-IsRunning a n [] g r h = subst (λ k. IsRunning a k g) (omega arith) r
happen_all-IsRunning a n (cleared marker ∷ es) g r h = elim (Bool-cases (text_eq marker a.marker)) [
  | inl same ↦
      let e = (text_eq_iff marker a.marker).0 same in
      subst (λ k. IsRunning a k (happen_all es (clear marker g))) (ground arith)
        (happen_all-IsRunning a (suc n) es (clear marker g)
          (subst (λ m. IsRunning a (suc n) (clear m g)) (sym e) (clear_same a n g r)) h.1)
  | inr other ↦
      subst (λ k. IsRunning a k (happen_all es (clear marker g))) (ground arith)
        (happen_all-IsRunning a n es (clear marker g) (clear_other a n marker g r other) h.1)
]
happen_all-IsRunning a n (begun marker ∷ es) g r h =
    happen_all-IsRunning a n es (begin marker g).0 (begin-IsRunning a n marker g r) h.1
happen_all-IsRunning a n (ended b succeeded ∷ es) g r h =
    happen_all-IsRunning a n es (finish b succeeded g) (finish_other a b n succeeded g r h.0) h.1

same_generation :
    (generation n : ℕ)
    → generation < 18446744073709551616
    → n < 18446744073709551616
    → u64 (generation + n) ≡ generation ↔ n ≡ 0
same_generation generation n b few = (λ h. omega (arith, h), λ h. omega (arith, h))

finish-IsRunning :
    (a : Attempt) (n : ℕ) (succeeded : Bool) (g : Gate)
    → IsRunning a n g
    → a.generation < 18446744073709551616
    → n < 18446744073709551616
    → ((begin a.marker (finish a succeeded g)).1 ≡ too_frequent) ↔ ((succeeded ≡ true) × (n ≡ 0))
finish-IsRunning a n succeeded g r b few =
    let refused =
      begin_held a.marker (finished_state a succeeded r.state) (finish a succeeded g)
        (finish_held a succeeded r.state g r.held r.in_flight r.its_id) refl in
    let kept : (u64 (a.generation + n) == a.generation) ≡ (n == 0) =
      ground (arith, same_generation a.generation n b few) in
    ground (arith, refused, r.generation, r.unmarked, kept)

-- An attempt begins; then anything happens, in any order, but for the end of this attempt: clears of its
-- marker (fewer than 2^64) and of others, begins and ends of attempts; and then it ends. The next begin
-- of its kind is refused exactly if the attempt succeeded and its marker was not cleared since it began.
-- The generation is a uint64.
pub begin-finish :
    (marker : Text) (g h : Gate) (a : Attempt) (es : List Event) (succeeded : Bool)
    → begin marker g ≡ (h, started a)
    → a.generation < 18446744073709551616
    → All (IsOther a) es
    → clears a.marker es < 18446744073709551616
    → ((begin a.marker (finish a succeeded (happen_all es h))).1 ≡ too_frequent)
      ↔ ((succeeded ≡ true) × (clears a.marker es ≡ 0))
begin-finish marker g h a es succeeded e bounded others few =
    let (state, s) = begin_started marker g h a e in
    let running : IsRunning a 0 h = record {
      state = begun_state a.id state;
      held =
          subst (λ k. Holds k (begun_state a.id state) h) (sym s.its_marker)
            (start_held marker g h a state s);
      in_flight = refl;
      its_id = refl;
      generation = omega (arith, s.its_generation, bounded);
      unmarked = s.was_unmarked;
    } in
    finish-IsRunning a (clears a.marker es) succeeded (happen_all es h)
      (subst (λ k. IsRunning a k (happen_all es h)) (omega arith)
        (happen_all-IsRunning a 0 es h running others))
      bounded few
