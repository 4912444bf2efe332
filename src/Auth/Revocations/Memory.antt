-- ===== src/Auth/Revocations/Memory.antt =====
-- What the revocations remember (internal/auth/revocation.go).
use mathlib.Core.Path.{subst}
use jproxy_go.Common.{
  ℕ, suc, ◌≤◌, ◌<◌, ◌≡◌, ◌⊎◌, inl, inr, true, false, ◌&&◌, some, [], arith, leb, leb→le, Bool-cases,
  length, Text, text_eq, text_eq_refl, text_eq_iff, is_empty, Map, lookup, insert, lookup-insert,
  lookup-delete, has, DistinctKeys, has-delete, has-insert, delete-DistinctKeys,
  insert-DistinctKeys, length-delete, length-insert_present, length-insert_absent,
}
use jproxy_go.Auth.Revocations.{Revocations, clean_entries, earliest_from, make_place, add}
use jproxy_go.Auth.Revocations.Earliest.{
  lookup-clean_entries, length-clean_entries, has-clean_entries, clean_entries-DistinctKeys,
  IsEarliest, earliest_from-IsEarliest,
}

-- What holds of the revocations between two calls; a token's jti is not empty.
pub record IsValid (r : Revocations) : Type 0 where
  pub room : 1 ≤ r.limit
  pub bounded : length r.entries ≤ r.limit
  pub distinct : DistinctKeys r.entries
  pub named : has [] r.entries ≡ false

length-make_place :
    (limit : ℕ) (m : Map ℕ)
    → 1 ≤ limit
    → length m ≤ limit
    → DistinctKeys m
    → has [] m ≡ false
    → length (make_place limit m) < limit
unfolding make_place
length-make_place limit m one h d n = elim (Bool-cases (leb limit (length m))) [
  | inl full ↦
      let e = earliest_from-IsEarliest m d (omega (arith, leb→le limit (length m) full)) n in
      ground (arith, length-delete (earliest_from [] 0 m).0 m d (ground (arith, e.entry)))
  | inr room_left ↦ ground arith
]

make_place-DistinctKeys :
    (limit : ℕ) (m : Map ℕ) → DistinctKeys m → DistinctKeys (make_place limit m)
unfolding make_place
make_place-DistinctKeys limit m d = ground (arith, delete-DistinctKeys (earliest_from [] 0 m).0 m d)

has-make_place :
    (jti : Text) (limit : ℕ) (m : Map ℕ) → has jti m ≡ false → has jti (make_place limit m) ≡ false
unfolding make_place
has-make_place jti limit m h = ground (arith, has-delete (earliest_from [] 0 m).0 jti m)

pub length-insert_le :
    (jti : Text) (exp : ℕ) (m : Map ℕ) → length (insert jti exp m) ≤ suc (length m)
length-insert_le jti exp m =
    ground (arith, length-insert_present jti exp m, length-insert_absent jti exp m)

-- Adding keeps the revocations valid: at most `limit` of them, each key once.
pub add-IsValid :
    (jti : Text) (exp now : ℕ) (r : Revocations)
    → IsValid r
    → is_empty jti ≡ false
    → IsValid (add jti exp now r)
unfolding add text_eq
add-IsValid jti exp now r v h = record {
  room = v.room;
  bounded = omega (arith, length-insert_le jti exp (make_place r.limit m), small);
  distinct =
      insert-DistinctKeys jti exp (make_place r.limit m) (make_place-DistinctKeys r.limit m d);
  named = ground (
    arith,
    has-insert jti [] exp (make_place r.limit m),
    has-make_place [] r.limit m n,
    text_eq_iff jti [],
  );
}
  where
    m : Map ℕ
    m = clean_entries now r.entries

    d : DistinctKeys m
    d = clean_entries-DistinctKeys now r.entries v.distinct

    n : has [] m ≡ false
    n = has-clean_entries [] now r.entries v.distinct v.named

    small : length (make_place r.limit m) < r.limit
    small =
        length-make_place r.limit m v.room
          (omega (arith, length-clean_entries now r.entries, v.bounded)) d n

pub lookup_added :
    (jti : Text) (exp now : ℕ) (r : Revocations) → lookup jti (add jti exp now r).entries ≡ some exp
unfolding add
lookup_added jti exp now r = ground (
  arith,
  lookup-insert jti jti exp (make_place r.limit (clean_entries now r.entries)),
  text_eq_refl jti,
)

-- How another token fares when one is added: it is forgotten only if it has expired, or if as many as
-- the limit are in force and it is among those that expire first.
pub add_others :
    (jti k : Text) (exp kept now : ℕ) (r : Revocations)
    → IsValid r
    → text_eq jti k ≡ false
    → lookup k r.entries ≡ some kept
    → (lookup k (add jti exp now r).entries ≡ some kept)
      ⊎ (kept ≤ now)
      ⊎ ((r.limit ≤ length (clean_entries now r.entries))
          × IsEarliest (clean_entries now r.entries) k)
unfolding add make_place
add_others jti k exp kept now r v other found = elim (Bool-cases (leb kept now)) [
  | inl expired ↦ inr (inl (leb→le kept now expired))
  | inr live ↦ elim (Bool-cases (leb r.limit (length m) && text_eq first k)) [
    | inl evicted ↦ inr (
        inr (
          ground arith,
          subst (IsEarliest m) (first_is_k (ground arith)) (
              earliest_from-IsEarliest m d
                (omega (arith, v.room, leb→le r.limit (length m) (ground arith)))
                (has-clean_entries [] now r.entries v.distinct v.named)),
        ))
    | inr stays ↦ inl (
        ground (
          arith,
          lookup-insert jti k exp (make_place r.limit m),
          lookup-delete first k m,
          lookup-clean_entries k now r.entries v.distinct,
        ))
  ]
]
  where
    m : Map ℕ
    m = clean_entries now r.entries

    d : DistinctKeys m
    d = clean_entries-DistinctKeys now r.entries v.distinct

    first : Text
    first = (earliest_from [] 0 m).0

    first_is_k : text_eq first k ≡ true → first ≡ k
    first_is_k = (text_eq_iff first k).0
