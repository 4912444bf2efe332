-- ===== src/Runtime/Gate/Attempts.antt =====
-- The gates that callers reach, with their attempts, and what one call does to an attempt
-- (internal/runtime/title_sync_gate.go).
use mathlib.Core.Path.{subst}
use jproxy_go.Common.{
  ℕ, ◌+◌, ◌≤◌, ◌<◌, ◌≡◌, refl, sym, inl, inr, Bool, true, false, List, [], ◌∷◌, Memᴰ, arith, ◌==◌,
  if◌then◌else◌, Bool-cases, All, All-Memᴰ, Text, text_eq, text_eq_refl, text_eq_iff, lookup-insert,
}
use jproxy_go.Runtime.Gate.{
  Attempt, Gate, u64, new_gate, begun_state, begin, finished_state, finish, state_of, cleared_state,
  clear, begin_started, started,
}

-- The attempts but those with this number.
unfoldable pub without_id : ℕ → List Attempt → List Attempt
without_id n [] = []
without_id n (a ∷ rest) = let others = without_id n rest in if a.id == n then others else a ∷ others

-- The gates that callers can reach, with the attempts that are open and those that are over. A
-- caller may finish an attempt again that is over. Fewer than 2^64 attempts are made.
pub data Reached : Gate → List Attempt → List Attempt → Type 0 where
  fresh : Reached new_gate [] []
  began :
      {g h : Gate} {open_ones over : List Attempt} {a : Attempt} (marker : Text)
      → Reached g open_ones over
      → begin marker g ≡ (h, started a)
      → g.next_id < 18446744073709551615
      → Reached h (a ∷ open_ones) over
  finished :
      {g : Gate} {open_ones over : List Attempt} (a : Attempt) (succeeded : Bool)
      → Reached g open_ones over
      → Memᴰ a open_ones
      → Reached (finish a succeeded g) (without_id a.id open_ones) (a ∷ over)
  repeated :
      {g : Gate} {open_ones over : List Attempt} (a : Attempt) (succeeded : Bool)
      → Reached g open_ones over
      → Memᴰ a over
      → Reached (finish a succeeded g) open_ones over
  cleared :
      {g : Gate} {open_ones over : List Attempt} (marker : Text)
      → Reached g open_ones over
      → Reached (clear marker g) open_ones over

-- The gate waits for this attempt.
abbrev pub IsCurrent : Gate → Attempt → Type 0
IsCurrent g a = ((state_of a.marker g).in_flight ≡ true) × ((state_of a.marker g).attempt_id ≡ a.id)

-- The gate no longer waits for this attempt.
abbrev pub IsOver : Gate → Attempt → Type 0
IsOver g a =
    (a.id ≤ g.next_id)
    × ((state_of a.marker g).attempt_id ≡ a.id → (state_of a.marker g).in_flight ≡ false)

-- No two attempts are of one kind.
abbrev pub Apart : List Attempt → Type 0
Apart [] = Unit
Apart (a ∷ rest) = All (λ b. text_eq b.marker a.marker ≡ false) rest × Apart rest

pub record IsExclusive (g : Gate) (open_ones over : List Attempt) : Type 0 where
  pub apart : Apart open_ones
  pub current : All (IsCurrent g) open_ones
  pub past : All (IsOver g) over
  pub numbered : All (λ a. a.id ≤ g.next_id) open_ones

module _ (P : Attempt → Type 0) where
  pub without_id-All : (n : ℕ) (xs : List Attempt) → All P xs → All P (without_id n xs)
  unfolding without_id
  without_id-All n [] h = tt
  without_id-All n (x ∷ xs) h = ground (arith, without_id-All n xs h.1)

pub without_id-Apart : (n : ℕ) (xs : List Attempt) → Apart xs → Apart (without_id n xs)
unfolding without_id
without_id-Apart n [] h = tt
without_id-Apart n (x ∷ xs) h = elim (Bool-cases (x.id == n)) [
  | inl same ↦ rw (same, without_id) (without_id-Apart n xs h.1)
  | inr other ↦
      rw (other, without_id)
        (
          without_id-All (λ b. text_eq b.marker x.marker ≡ false) n xs h.0,
          without_id-Apart n xs h.1,
        )
]

-- Apart from one attempt of a list, no attempt is of its kind.
pub without_id_others :
    (a : Attempt) (xs : List Attempt)
    → Memᴰ a xs
    → Apart xs
    → All (λ b. text_eq b.marker a.marker ≡ false) (without_id a.id xs)
unfolding without_id
without_id_others a [] m h = elim m [ ]
without_id_others a (x ∷ xs) (Memᴰ.head e) h =
    subst (λ c. All (λ b. text_eq b.marker c.marker ≡ false) (without_id c.id (x ∷ xs))) (sym e)
      (rw (itself, without_id)
        (without_id-All (λ b. text_eq b.marker x.marker ≡ false) x.id xs h.0))
  where
    itself : (x.id == x.id) ≡ true
    itself = ground arith
without_id_others a (x ∷ xs) (Memᴰ.tail m) h = ground (
  arith,
  without_id_others a xs m h.1,
  text_eq_iff x.marker a.marker,
  text_eq_iff a.marker x.marker,
  All-Memᴰ (λ b. text_eq b.marker x.marker ≡ false) a xs m h.0,
)

pub begin-IsCurrent :
    (marker : Text) (g h : Gate) (a b : Attempt)
    → begin marker g ≡ (h, started a)
    → IsCurrent g b
    → IsCurrent h b × (text_eq b.marker a.marker ≡ false)
begin-IsCurrent marker g h a b e c =
    let (state, s) = begin_started marker g h a e in
    ground (
      arith,
      lookup-insert marker b.marker (begun_state (u64 (g.next_id + 1)) state) g.states,
      text_eq_iff marker b.marker,
      text_eq_iff b.marker a.marker,
    )

pub begin-IsOver :
    (marker : Text) (g h : Gate) (a b : Attempt)
    → begin marker g ≡ (h, started a)
    → g.next_id < 18446744073709551615
    → IsOver g b
    → IsOver h b
begin-IsOver marker g h a b e l c =
    let (state, s) = begin_started marker g h a e in
    ground (
      arith,
      lookup-insert marker b.marker (begun_state (u64 (g.next_id + 1)) state) g.states,
      text_eq_iff marker b.marker,
    )

pub begin_new :
    (marker : Text) (g h : Gate) (a : Attempt)
    → begin marker g ≡ (h, started a)
    → g.next_id < 18446744073709551615
    → IsCurrent h a × (a.id ≡ h.next_id) × (h.next_id ≡ g.next_id + 1)
begin_new marker g h a e l =
    let (state, s) = begin_started marker g h a e in
    ground (
      arith,
      lookup-insert marker marker (begun_state (u64 (g.next_id + 1)) state) g.states,
      text_eq_refl marker,
    )

pub finish-IsCurrent :
    (a b : Attempt) (succeeded : Bool) (g : Gate)
    → text_eq b.marker a.marker ≡ false
    → IsCurrent g b
    → IsCurrent (finish a succeeded g) b
unfolding finish
finish-IsCurrent a b succeeded g h c = ground (
  arith,
  lookup-insert a.marker b.marker (finished_state a succeeded (state_of a.marker g)) g.states,
  text_eq_iff a.marker b.marker,
  text_eq_iff b.marker a.marker,
)

pub finish-IsOver :
    (a b : Attempt) (succeeded : Bool) (g : Gate) → IsOver g b → IsOver (finish a succeeded g) b
unfolding finish
finish-IsOver a b succeeded g c = ground (
  arith,
  lookup-insert a.marker b.marker (finished_state a succeeded (state_of a.marker g)) g.states,
  text_eq_iff a.marker b.marker,
)

pub finish-IsOver_current :
    (a : Attempt) (succeeded : Bool) (g : Gate)
    → IsCurrent g a
    → a.id ≤ g.next_id
    → IsOver (finish a succeeded g) a
unfolding finish
finish-IsOver_current a succeeded g c n = ground (
  arith,
  lookup-insert a.marker a.marker (finished_state a succeeded (state_of a.marker g)) g.states,
  text_eq_refl a.marker,
)

-- An attempt that is over cannot be finished again.
pub finish_again :
    (a : Attempt) (succeeded : Bool) (g : Gate) → IsOver g a → finish a succeeded g ≡ g
unfolding finish
finish_again a succeeded g c = ground arith

pub clear-IsCurrent :
    (marker : Text) (g : Gate) (a : Attempt) → IsCurrent g a → IsCurrent (clear marker g) a
unfolding clear
clear-IsCurrent marker g a c = ground (
  arith,
  lookup-insert marker a.marker (cleared_state (state_of marker g)) g.states,
  text_eq_iff marker a.marker,
)

pub clear-IsOver : (marker : Text) (g : Gate) (a : Attempt) → IsOver g a → IsOver (clear marker g) a
unfolding clear
clear-IsOver marker g a c = ground (
  arith,
  lookup-insert marker a.marker (cleared_state (state_of marker g)) g.states,
  text_eq_iff marker a.marker,
)

pub next_id-finish :
    (a : Attempt) (succeeded : Bool) (g : Gate) → (finish a succeeded g).next_id ≡ g.next_id
unfolding finish
next_id-finish a succeeded g = ground arith

pub next_id-clear : (marker : Text) (g : Gate) → (clear marker g).next_id ≡ g.next_id
unfolding clear
next_id-clear marker g = refl
