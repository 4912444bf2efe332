-- ===== src/Auth/Revocations/Runs.antt =====
-- What the revocations remember over many calls (internal/auth/revocation.go): additions, and looks for
-- tokens, at any times.
use jproxy_go.Common.{
  ℕ, suc, ◌+◌, ◌≤◌, ◌<◌, ◌≡◌, refl, false, some, List, [], ◌∷◌, arith, ltb, length, All, Text,
  text_eq, is_empty, lookup, insert, lookup-insert,
}
use jproxy_go.Auth.Revocations.{Revocations, clean_entries, make_place, add, clean, contains_jti}
use jproxy_go.Auth.Revocations.Earliest.{
  lookup-clean_entries, length-clean_entries, has-clean_entries, clean_entries-DistinctKeys,
}
use jproxy_go.Auth.Revocations.Memory.{IsValid, length-insert_le, add-IsValid, lookup_added}

-- A call: a token is added, or one is looked for.
pub data Event : Type 0 where
  added : Text → ℕ → ℕ → Event
  looked : Text → ℕ → Event

abbrev pub happen : Event → Revocations → Revocations
happen (added jti exp now) r = add jti exp now r
happen (looked jti now) r = (contains_jti jti now r).0

unfoldable pub happen_all : List Event → Revocations → Revocations
happen_all [] r = r
happen_all (e ∷ es) r = happen_all es (happen e r)

-- How many tokens the events add.
abbrev pub additions : List Event → ℕ
additions [] = 0
additions (added jti exp now ∷ es) = suc (additions es)
additions (looked jti now ∷ es) = additions es

-- A call that comes before `end`, and adds a named token other than this one.
abbrev pub IsApart : Text → ℕ → Event → Type 0
IsApart jti end (added other exp now) =
    (now < end) × (text_eq other jti ≡ false) × (is_empty other ≡ false)
IsApart jti end (looked other now) = now < end

-- This token is revoked until `end`, and there are at most this many entries.
record Remembers (jti : Text) (end size : ℕ) (r : Revocations) : Type 0 where
  valid : IsValid r
  here : lookup jti r.entries ≡ some end
  few : length r.entries ≤ size

looked-Remembers :
    (jti other : Text) (end size now : ℕ) (r : Revocations)
    → Remembers jti end size r
    → now < end
    → Remembers jti end size (contains_jti other now r).0
unfolding contains_jti clean
looked-Remembers jti other end size now r m before = record {
  valid = record {
    room = m.valid.room;
    bounded = omega (arith, m.valid.bounded, length-clean_entries now r.entries);
    distinct = clean_entries-DistinctKeys now r.entries m.valid.distinct;
    named = has-clean_entries [] now r.entries m.valid.distinct m.valid.named;
  };
  here = ground (arith, lookup-clean_entries jti now r.entries m.valid.distinct, m.here);
  few = omega (arith, m.few, length-clean_entries now r.entries);
}

-- With room left nothing is evicted.
add_room :
    (jti : Text) (exp now : ℕ) (r : Revocations)
    → length (clean_entries now r.entries) < r.limit
    → add jti exp now r ≡ record r { entries = insert jti exp (clean_entries now r.entries) }
unfolding add make_place
add_room jti exp now r h = ground arith

added-Remembers :
    (jti other : Text) (end exp size now : ℕ) (r : Revocations)
    → Remembers jti end size r
    → IsApart jti end (added other exp now)
    → size < r.limit
    → Remembers jti end (suc size) (add other exp now r)
added-Remembers jti other end exp size now r m (before, apart, named) room =
    let small = length-clean_entries now r.entries in
    let e = add_room other exp now r (omega (arith, small, m.few)) in
    record {
      valid = add-IsValid other exp now r m.valid named;
      here = rw e (
          ground (
            arith,
            lookup-insert other jti exp (clean_entries now r.entries),
            lookup-clean_entries jti now r.entries m.valid.distinct,
            m.here,
          ));
      few =
          rw e
            (omega (arith, small, m.few, length-insert_le other exp (clean_entries now r.entries)));
    }

add_limit : (jti : Text) (exp now : ℕ) (r : Revocations) → (add jti exp now r).limit ≡ r.limit
unfolding add
add_limit jti exp now r = refl

happen_all-Remembers :
    (jti : Text) (end size : ℕ) (es : List Event) (r : Revocations)
    → Remembers jti end size r
    → All (IsApart jti end) es
    → size + additions es ≤ r.limit
    → Remembers jti end (size + additions es) (happen_all es r)
unfolding happen_all contains_jti clean
happen_all-Remembers jti end size [] r m apart room = record {
  valid = m.valid;
  here = m.here;
  few = omega (arith, m.few);
}
happen_all-Remembers jti end size (added other exp now ∷ es) r m (apart, rest) room =
    let next =
      happen_all-Remembers jti end (suc size) es (add other exp now r)
        (added-Remembers jti other end exp size now r m apart (omega (arith, room))) rest
        (omega (arith, room, add_limit other exp now r)) in
    record { valid = next.valid; here = next.here; few = omega (arith, next.few) }
happen_all-Remembers jti end size (looked other now ∷ es) r m (before, rest) room =
    happen_all-Remembers jti end size es (contains_jti other now r).0
      (looked-Remembers jti other end size now r m before) rest room

-- A token is revoked, and then other tokens are revoked and tokens are looked for, before it expires, and
-- all these fit beside those that were there. Then it is refused just until it expires.
pub contains_jti-happen_all :
    (jti : Text) (exp now later : ℕ) (r : Revocations) (es : List Event)
    → IsValid r
    → is_empty jti ≡ false
    → All (IsApart jti exp) es
    → length r.entries + 1 + additions es ≤ r.limit
    → (contains_jti jti later (happen_all es (add jti exp now r))).1 ≡ ltb later exp
unfolding contains_jti
contains_jti-happen_all jti exp now later r es v named apart room =
    let first : Remembers jti exp (length r.entries + 1) (add jti exp now r) = record {
      valid = add-IsValid jti exp now r v named;
      here = lookup_added jti exp now r;
      few = rw (add_room jti exp now r (omega (arith, room, length-clean_entries now r.entries))) (
          omega (
            arith,
            length-clean_entries now r.entries,
            length-insert_le jti exp (clean_entries now r.entries),
          ));
    } in
    let last =
      happen_all-Remembers jti exp (length r.entries + 1) es (add jti exp now r) first apart
        (omega (arith, room, add_limit jti exp now r)) in
    ground (
      arith,
      lookup-clean_entries jti later (happen_all es (add jti exp now r)).entries
          last.valid.distinct,
      last.here,
    )
