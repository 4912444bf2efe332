-- ===== src/Proxy/Paging/Turns.antt =====
-- The turns of the paging loop, from where a page starts
-- (internal/proxy/server.go, executeExpandedSearch).
use mathlib.Core.Path.{subst}
use jproxy_go.Common.{
  ℕ, zero, suc, ◌+◌, ◌≤◌, ◌<◌, ◌≡◌, refl, sym, ap, ◌∙◌, ◌⊎◌, inl, inr, true, false, Option, none,
  some, List, [], ◌∷◌, arith, ℤ, pos_part, ◌+ℤ◌, ◌-ℤ◌, ◌≤ℤ◌, ltb_ℤ, eq_ℤ, -ℤ_parts, wrap, max_int,
  Fits, sub_self, pos, Bool-cases, Option-cases, length, drop, get_elem?, All, length-drop, Text,
}
use jproxy_go.Proxy.Query.{Query}
use jproxy_go.Proxy.Paging.Start.{AllBelow, IsCurrent, calculate_current_index_lem}
use jproxy_go.Proxy.Paging.{
  set_elem, Search, Progress, Outcome, local_query, counted, took, zeros, start_offsets,
  start_progress, turn, turns, paged_search, finished, failed, panicked,
}
use jproxy_go.Proxy.Paging.Bounds.{IsBounded, offset_wraps, limit_wraps, All-get, start-IsBounded}
use jproxy_go.Proxy.Paging.Requests.{
  HasOffset, IsCounted, IsProgress, EndsBefore, set_elem-some, counted_le, local_query_lem,
  took-IsProgress,
}

-- A predicate holds of the progress that a loop ends with; it does not panic.
abbrev pub Ends : (Progress → Type 0) → Outcome → Type 0
Ends P (finished t) = P t
Ends P (failed t) = P t
Ends P panicked = ⊥

module _ (execute : List Query → Query → Option Text) (p : Search) (start : Progress)
    (bounded : IsBounded start) where
  -- After a turn: the progress, and where the next title starts.
  abbrev Turned : ℕ → Outcome → Type 0
  Turned idx (finished t) = IsProgress p start t × EndsBefore (suc idx) t
  Turned idx (failed t) = IsProgress p start t
  Turned idx panicked = ⊥

  reached : (w offset : ℤ) → w ≡ offset → (w ≤ℤ offset) × Fits (offset -ℤ w)
  reached w offset same =
      let zero_left : offset -ℤ w ≡ pos 0 = ap (λ u. offset -ℤ u) same ∙ sub_self offset in
      (ground (arith, same), subst Fits (sym zero_left) (omega arith, omega arith))

  answered :
      (idx : ℕ) (s : Progress) (local : Query) (xml : Text) (offsets : List ℤ)
      → IsProgress p start s
      → (local ≡ p.q) ⊎ HasOffset local
      → pos 0 ≤ℤ s.limit
      → set_elem s.offsets idx (wrap (s.offset +ℤ pos (counted xml s.limit).0)) ≡ some offsets
      → length offsets ≡ length s.offsets
      → get_elem? offsets idx ≡ some (wrap (s.offset +ℤ pos (counted xml s.limit).0))
      → Turned idx (finished (took local (counted xml s.limit) offsets s))
  unfolding took
  answered idx s local xml offsets v asks room set same got = (
    took-IsProgress p start s local (counted xml s.limit) offsets idx v set same
        (counted_le xml s.limit room) asks
        (offset_wraps p start s bounded v (counted xml s.limit).0 (counted_le xml s.limit room))
        (limit_wraps p start s bounded v (counted xml s.limit).0 (counted_le xml s.limit room)),
    λ w e. reached w (wrap (s.offset +ℤ pos (counted xml s.limit).0)) (ground (arith, got)),
  )

  refused :
      (idx : ℕ) (title : Text) (s : Progress) (q : Query)
      → IsProgress p start s
      → (q ≡ p.q) ⊎ HasOffset q
      → local_query p idx title s ≡ some q
      → execute s.asked q ≡ none
      → Turned idx (turn execute p idx title s)
  unfolding turn
  refused idx title s q v asks here none_came =
      let e : turn execute p idx title s ≡ failed (record s { asked = q ∷ s.asked }) =
        rw (turn, here, none_came) refl in
      subst (Turned idx) (sym e) (record {
        same_titles = v.same_titles;
        accounted = v.accounted;
        forward = v.forward;
        room = v.room;
        requests = (asks, v.requests);
        kept = v.kept;
      })

  stored :
      (idx : ℕ) (title : Text) (s : Progress) (q : Query) (xml : Text) (offsets : List ℤ)
      → local_query p idx title s ≡ some q
      → execute s.asked q ≡ some xml
      → set_elem s.offsets idx (wrap (s.offset +ℤ pos (counted xml s.limit).0)) ≡ some offsets
      → Turned idx (finished (took q (counted xml s.limit) offsets s))
      → Turned idx (turn execute p idx title s)
  unfolding turn
  stored idx title s q xml offsets here came set h =
      let e : turn execute p idx title s ≡ finished (took q (counted xml s.limit) offsets s) =
        rw (turn, here, came, set) refl in
      subst (Turned idx) (sym e) h

  turn_asked :
      (idx : ℕ) (title : Text) (s : Progress) (q : Query)
      → IsProgress p start s
      → idx < length p.titles
      → pos 0 ≤ℤ s.limit
      → (q ≡ p.q) ⊎ HasOffset q
      → local_query p idx title s ≡ some q
      → Turned idx (turn execute p idx title s)
  turn_asked idx title s q v r room asks here = elim (Option-cases (execute s.asked q)) [
    | inl none_came ↦ refused idx title s q v asks here none_came
    | inr (xml, came) ↦
        let (offsets, set, same, got) =
          set_elem-some idx (wrap (s.offset +ℤ pos (counted xml s.limit).0)) s.offsets
            (omega (arith, v.same_titles)) in
        stored idx title s q xml offsets here came set
          (answered idx s q xml offsets v asks room set same got)
  ]

  turn_lem :
      (idx : ℕ) (title : Text) (s : Progress)
      → IsProgress p start s
      → idx < length p.titles
      → pos 0 ≤ℤ s.limit
      → EndsBefore idx s
      → Turned idx (turn execute p idx title s)
  turn_lem idx title s v r room b =
      let (q, here, asks) = local_query_lem p idx title s (omega (arith, v.same_titles)) b in
      turn_asked idx title s q v r room asks here

  -- What a turn does to the rest of the loop.
  after_turn :
      (idx : ℕ) (titles : List Text) (o : Outcome)
      → ((t : Progress)
          → IsProgress p start t
          → EndsBefore (suc idx) t
          → Ends (IsProgress p start) (turns execute p (suc idx) titles t))
      → Turned idx o
      → Ends (IsProgress p start) (elim o [
        | finished t ↦ turns execute p (suc idx) titles t
        | failed t ↦ failed t
        | panicked ↦ panicked
      ])
  after_turn idx titles (finished t) next h = next t h.0 h.1
  after_turn idx titles (failed t) next h = h
  after_turn idx titles panicked next h = h

  turns_more :
      (idx : ℕ) (title : Text) (titles : List Text) (s : Progress)
      → ltb_ℤ (pos 0) s.limit ≡ true
      → turns execute p idx (title ∷ titles) s ≡ (elim (turn execute p idx title s) [
        | finished t ↦ turns execute p (suc idx) titles t
        | failed t ↦ failed t
        | panicked ↦ panicked
      ])
  unfolding turns
  turns_more idx title titles s more = ground arith

  turns_full :
      (idx : ℕ) (title : Text) (titles : List Text) (s : Progress)
      → ltb_ℤ (pos 0) s.limit ≡ false
      → turns execute p idx (title ∷ titles) s ≡ finished s
  unfolding turns
  turns_full idx title titles s full = ground arith

  turns_lem :
      (idx : ℕ) (titles : List Text) (s : Progress)
      → IsProgress p start s
      → idx + length titles ≤ length p.titles
      → EndsBefore idx s
      → Ends (IsProgress p start) (turns execute p idx titles s)
  unfolding turns
  turns_lem idx [] s v r b = v
  turns_lem idx (title ∷ titles) s v r b = elim (Bool-cases (ltb_ℤ (pos 0) s.limit)) [
    | inl more ↦ subst (Ends (IsProgress p start)) (sym (turns_more idx title titles s more)) (
        after_turn idx titles (turn execute p idx title s)
          (λ t w c. turns_lem (suc idx) titles t w (omega arith) c)
          (turn_lem idx title s v (omega arith) (ground arith) b))
    | inr full ↦ subst (Ends (IsProgress p start)) (sym (turns_full idx title titles s full)) v
  ]

length-zeros : (n : ℕ) → length (zeros n) ≡ n
unfolding zeros
length-zeros zero = refl
length-zeros (suc n) = ap suc (length-zeros n)

length-start_offsets : (cached : Option (List ℤ)) (n : ℕ) → length (start_offsets cached n) ≡ n
unfolding start_offsets
length-start_offsets none n = length-zeros n
length-start_offsets (some offsets) n = ground (arith, length-zeros n)

start-IsProgress :
    (p : Search) (cached : Option (List ℤ))
    → IsProgress p (start_progress p cached) (start_progress p cached)
unfolding start_progress
start-IsProgress p cached = record {
  same_titles = length-start_offsets cached (length p.titles);
  accounted = refl;
  forward = omega arith;
  room = λ h. h;
  requests = tt;
  kept = λ h k. (k, tt);
}

-- The last of the entries below an index.
AllBelow-get :
    (offset : ℤ) (i : ℕ) (offsets : List ℤ) (v : ℤ)
    → AllBelow offset (suc i) offsets
    → get_elem? offsets i ≡ some v
    → v ≤ℤ offset
AllBelow-get offset i [] v b e = absurd (ground arith)
AllBelow-get offset zero (x ∷ offsets) v b e = ground (arith, b.0)
AllBelow-get offset (suc i) (x ∷ offsets) v b e = AllBelow-get offset i offsets v b.1 e

start-EndsBefore :
    (i : ℕ) (s : Progress)
    → IsCurrent s.offset s.offsets i
    → (eq_ℤ s.offset (pos 0) ≡ true → i ≡ 0)
    → s.offset ≤ℤ max_int
    → All IsCounted s.offsets
    → EndsBefore i s
start-EndsBefore zero s c z top kept = tt
start-EndsBefore (suc i) s c z top kept = elim (Bool-cases (eq_ℤ s.offset (pos 0))) [
  | inl at_start ↦ λ v e. absurd (omega (arith, z at_start))
  | inr further ↦ λ v e.
      let before = AllBelow-get s.offset i s.offsets v (c.below further) e in
      let positive = All-get IsCounted i s.offsets v kept e in
      (
        before,
        (
          omega (arith, before, -ℤ_parts s.offset v),
          omega (arith, top, positive, -ℤ_parts s.offset v),
        ),
      )
]

-- A paged search of one title or more, whose offset and limit do not add up to more than an int of 64
-- bits holds, and whose cached offsets are not negative, does not panic. Whether it ends or fails at a
-- request, the offset and the limit that are left add up to those it began with, neither goes the wrong
-- way, and each request it made is the client's own or asks for an offset that is not negative. If the
-- offset it began with is not negative, then none that it leaves in the cache is.
pub paged_search_lem :
    (execute : List Query → Query → Option Text) (p : Search) (cached : Option (List ℤ))
    → 1 ≤ length p.titles
    → (start_progress p cached).offset +ℤ (start_progress p cached).limit ≤ℤ max_int
    → All IsCounted (start_progress p cached).offsets
    → Ends (IsProgress p (start_progress p cached)) (paged_search execute p cached)
unfolding paged_search
paged_search_lem execute p cached h total kept =
    let s = start_progress p cached in
    let v = start-IsProgress p cached in
    let bounded = start-IsBounded p cached total in
    let (i, found, current, z) =
      calculate_current_index_lem s.offset s.offsets (omega (arith, v.same_titles)) in
    subst
      (λ idx.
        Ends (IsProgress p s) (turns execute p (pos_part idx) (drop (pos_part idx) p.titles) s))
      (sym found)
      (turns_lem execute p s bounded i (drop i p.titles) s v
        (omega (arith, length-drop i p.titles, current.in_range, v.same_titles))
        (start-EndsBefore i s current z bounded.offset_fits.1 kept))
