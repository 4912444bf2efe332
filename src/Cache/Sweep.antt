-- ===== src/Cache/Sweep.antt =====
-- The loop of removeExpiredLocked (internal/cache/cache.go).
use jproxy_go.Common.{
  ℕ, ◌≤◌, ◌≡◌, refl, ◌&&◌, Option, none, some, List, [], ◌∷◌, arith, if◌then◌else◌, length, Text,
  text_eq_iff, Map, lookup, delete, lookup-delete, length-delete-le, has, DistinctKeys,
  delete-DistinctKeys, mem, Distinct,
}
use jproxy_go.Cache.{Item, is_expired, sweep}

module _ {ℓ} {V : Type ℓ} where
  -- The entry of a key after the sweep, if the sweep reaches the key.
  abbrev pub unless_expired : ℕ → Option (Item V) → Option (Item V)
  unless_expired now none = none
  unless_expired now (some item) = if is_expired now item then none else some item

  pub lookup-sweep :
      (now : ℕ) (ks : List Text) (m : Map (Item V)) (j : Text)
      → lookup j (sweep now ks m).1
        ≡ (if mem j ks then unless_expired now (lookup j m) else lookup j m)
  unfolding sweep mem
  lookup-sweep now [] m j = refl
  lookup-sweep now (k ∷ ks) m j = ground (
    arith,
    lookup-sweep now ks m j,
    lookup-sweep now ks (delete k m) j,
    lookup-delete k j m,
    text_eq_iff k j,
  )

  pub mem-sweep :
      (now : ℕ) (ks : List Text) (m : Map (Item V)) (j : Text)
      → Distinct ks
      → mem j (sweep now ks m).0 ≡ (mem j ks && has j (sweep now ks m).1)
  unfolding sweep mem
  mem-sweep now [] m j d = refl
  mem-sweep now (k ∷ ks) m j d = ground (
    arith,
    mem-sweep now ks m j d.1,
    mem-sweep now ks (delete k m) j d.1,
    text_eq_iff k j,
    lookup-sweep now ks m j,
    lookup-sweep now ks (delete k m) j,
    lookup-delete k j m,
  )

  pub sweep-Distinct :
      (now : ℕ) (ks : List Text) (m : Map (Item V)) → Distinct ks → Distinct (sweep now ks m).0
  unfolding sweep mem
  sweep-Distinct now [] m d = tt
  sweep-Distinct now (k ∷ ks) m d = ground (
    arith,
    sweep-Distinct now ks m d.1,
    sweep-Distinct now ks (delete k m) d.1,
    mem-sweep now ks m k d.1,
  )

  pub sweep-DistinctKeys :
      (now : ℕ) (ks : List Text) (m : Map (Item V))
      → DistinctKeys m
      → DistinctKeys (sweep now ks m).1
  unfolding sweep
  sweep-DistinctKeys now [] m u = u
  sweep-DistinctKeys now (k ∷ ks) m u = ground (
    arith,
    sweep-DistinctKeys now ks m u,
    sweep-DistinctKeys now ks (delete k m) (delete-DistinctKeys k m u),
  )

  pub length-sweep-le :
      (now : ℕ) (ks : List Text) (m : Map (Item V)) → length (sweep now ks m).1 ≤ length m
  unfolding sweep
  length-sweep-le now [] m = omega arith
  length-sweep-le now (k ∷ ks) m =
      ground
        (arith, length-sweep-le now ks m, length-sweep-le now ks (delete k m), length-delete-le k m)
