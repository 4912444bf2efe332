-- ===== src/Auth/Revocations/Earliest.antt =====
-- Cleaning, and the entry that a full list evicts (internal/auth/revocation.go).
use jproxy_go.Common.{
  ℕ, ◌≤◌, ◌≡◌, refl, ◌⊎◌, inl, inr, false, Option, none, some, [], ◌∷◌, arith, ltb, leb,
  if◌then◌else◌, Bool-cases, length, Text, text_eq, text_eq_refl, text_eq_iff, is_empty, Map,
  lookup, has, DistinctKeys,
}
use jproxy_go.Auth.Revocations.{clean_entries, earliest_from}

-- The entry of a key, if it is still in force.
abbrev pub in_force : ℕ → Option ℕ → Option ℕ
in_force now none = none
in_force now (some exp) = if leb exp now then none else some exp

pub lookup-clean_entries :
    (jti : Text) (now : ℕ) (m : Map ℕ)
    → DistinctKeys m
    → lookup jti (clean_entries now m) ≡ in_force now (lookup jti m)
unfolding clean_entries lookup
lookup-clean_entries jti now [] d = refl
lookup-clean_entries jti now ((k, exp) ∷ m) d =
    ground (arith, lookup-clean_entries jti now m d.1, text_eq_iff k jti, d.0)

pub length-clean_entries : (now : ℕ) (m : Map ℕ) → length (clean_entries now m) ≤ length m
unfolding clean_entries
length-clean_entries now [] = omega arith
length-clean_entries now ((k, exp) ∷ m) = ground (arith, length-clean_entries now m)

pub has-clean_entries :
    (jti : Text) (now : ℕ) (m : Map ℕ)
    → DistinctKeys m
    → has jti m ≡ false
    → has jti (clean_entries now m) ≡ false
has-clean_entries jti now m d h = ground (arith, lookup-clean_entries jti now m d)

pub clean_entries-DistinctKeys :
    (now : ℕ) (m : Map ℕ) → DistinctKeys m → DistinctKeys (clean_entries now m)
unfolding clean_entries
clean_entries-DistinctKeys now [] d = tt
clean_entries-DistinctKeys now ((k, exp) ∷ m) d =
    ground (arith, clean_entries-DistinctKeys now m d.1, has-clean_entries k now m d.1 d.0)

-- What the loop of `add` ends with is what it began with, or an entry of the map.
earliest_from_among :
    (jti : Text) (expiry : ℕ) (m : Map ℕ)
    → DistinctKeys m
    → (earliest_from jti expiry m ≡ (jti, expiry))
      ⊎ (lookup (earliest_from jti expiry m).0 m ≡ some (earliest_from jti expiry m).1)
unfolding earliest_from lookup
earliest_from_among jti expiry [] d = inl refl
earliest_from_among jti expiry ((k, exp) ∷ m) d = ground (
  arith,
  earliest_from_among k exp m d.1,
  earliest_from_among jti expiry m d.1,
  text_eq_refl k,
  text_eq_iff k (earliest_from k exp m).0,
  text_eq_iff k (earliest_from jti expiry m).0,
  d.0,
)

-- Once it stands at a key that is not empty, it never goes to a later expiry.
earliest_from_le :
    (jti : Text) (expiry : ℕ) (m : Map ℕ)
    → is_empty jti ≡ false
    → has [] m ≡ false
    → ((earliest_from jti expiry m).1 ≤ expiry)
      × ((k : Text) (exp : ℕ) → lookup k m ≡ some exp → (earliest_from jti expiry m).1 ≤ exp)
unfolding earliest_from lookup text_eq
earliest_from_le jti expiry [] h n = (omega arith, λ k exp f. absurd (ground arith))
earliest_from_le jti expiry (([], exp) ∷ m) h n = absurd (ground arith)
earliest_from_le jti expiry ((c ∷ k, exp) ∷ m) h n = elim (Bool-cases (ltb exp expiry)) [
  | inl earlier ↦
      let (le, all) = earliest_from_le (c ∷ k) exp m refl (ground arith) in
      (ground arith, λ j e f. ground (arith, all j e))
  | inr later ↦
      let (le, all) = earliest_from_le jti expiry m h (ground arith) in
      (ground arith, λ j e f. ground (arith, all j e))
]

-- The entry that `add` evicts: one of the map, and none ends before it.
pub record IsEarliest (m : Map ℕ) (jti : Text) : Type 0 where
  pub expiry : ℕ
  pub entry : lookup jti m ≡ some expiry
  pub none_earlier : (k : Text) (exp : ℕ) → lookup k m ≡ some exp → expiry ≤ exp

IsEarliest-cons :
    (c : ℕ) (k : Text) (exp : ℕ) (m : Map ℕ)
    → DistinctKeys ((c ∷ k, exp) ∷ m)
    → has [] m ≡ false
    → IsEarliest ((c ∷ k, exp) ∷ m) (earliest_from (c ∷ k) exp m).0
unfolding lookup
IsEarliest-cons c k exp m d n =
    let (le, all) = earliest_from_le (c ∷ k) exp m refl n in
    record {
      expiry = (earliest_from (c ∷ k) exp m).1;
      entry = ground (
        arith,
        earliest_from_among (c ∷ k) exp m d.1,
        text_eq_refl (c ∷ k),
        text_eq_iff (c ∷ k) (earliest_from (c ∷ k) exp m).0,
        d.0,
      );
      none_earlier = λ j e f. ground (arith, le, all j e);
    }

pub earliest_from-IsEarliest :
    (m : Map ℕ)
    → DistinctKeys m
    → 1 ≤ length m
    → has [] m ≡ false
    → IsEarliest m (earliest_from [] 0 m).0
unfolding earliest_from lookup text_eq
earliest_from-IsEarliest [] d h n = absurd (omega (arith, h))
earliest_from-IsEarliest (([], exp) ∷ m) d h n = absurd (ground arith)
earliest_from-IsEarliest ((c ∷ k, exp) ∷ m) d h n = IsEarliest-cons c k exp m d (ground arith)
