-- ===== src/Cache/Room.antt =====
-- The loop of Set that makes room for a new key (internal/cache/cache.go).
use native.Mathlib.Decide.{dec_lt}
use jproxy_go.Common.{
  ℕ, zero, suc, ◌-◌, ◌≤◌, ◌<◌, ◌≡◌, refl, ◌∙◌, false, none, some, List, [], ◌∷◌, arith,
  if◌then◌else◌, length, drop, Text, text_eq_refl, text_eq_iff, Map, lookup, delete, lookup-delete,
  delete-DistinctKeys, mem, Enumerates-tail, length-Enumerates, mem-drop,
}
use jproxy_go.Cache.{Item, Cache, evict, evict_oldest_locked, make_room, IsCoherent}

module _ {ℓ} {V : Type ℓ} where
  -- `r` is `c` without its oldest keys, as few of them as leave a free place.
  pub record HasRoom (c r : Cache V) : Type ℓ where
    pub same_ttl : r.ttl ≡ c.ttl
    pub same_max : r.max_entries ≡ c.max_entries
    pub oldest_gone : r.order ≡ drop (suc (length c.order) - c.max_entries) c.order
    pub rest_kept : (j : Text) → lookup j r.m ≡ (if mem j r.order then lookup j c.m else none)
    pub coherent : IsCoherent r.order r.m

  evict_head :
      (k : Text) (ks : List Text) (m : Map (Item V))
      → IsCoherent (k ∷ ks) m
      → evict (k ∷ ks) m ≡ (ks, delete k m)
  unfolding evict mem
  evict_head k ks m c = ground (arith, c.enumerates k, text_eq_refl k)

  tail-IsCoherent :
      (k : Text) (ks : List Text) (m : Map (Item V))
      → IsCoherent (k ∷ ks) m
      → IsCoherent ks (delete k m)
  tail-IsCoherent k ks m c = record {
    distinct = c.distinct.1;
    distinct_keys = delete-DistinctKeys k m c.distinct_keys;
    enumerates = Enumerates-tail k ks m c.distinct.0 c.enumerates;
  }

  pub length_of_IsCoherent :
      (ks : List Text) (m : Map (Item V)) → IsCoherent ks m → length m ≡ length ks
  length_of_IsCoherent ks m c = length-Enumerates ks m c.distinct c.distinct_keys c.enumerates

  abbrev cache_of : ℕ → ℕ → List Text → Map (Item V) → Cache V
  cache_of ttl max order m = record { ttl = ttl; max_entries = max; m = m; order = order }

  enough_room :
      (ttl max : ℕ) (order : List Text) (m : Map (Item V))
      → IsCoherent order m
      → length m < max
      → HasRoom (cache_of ttl max order m) (cache_of ttl max order m)
  enough_room ttl max order m c h = record {
    same_ttl = refl;
    same_max = refl;
    oldest_gone = rw none_to_drop;
    rest_kept = λ j. ground (arith, c.enumerates j);
    coherent = c;
  }
    where
      none_to_drop : suc (length order) - max ≡ 0
      none_to_drop = omega (arith, length_of_IsCoherent order m c)

  one_more :
      (ttl max : ℕ) (k : Text) (ks : List Text) (m : Map (Item V)) (r : Cache V)
      → IsCoherent (k ∷ ks) m
      → max ≤ suc (length ks)
      → HasRoom (cache_of ttl max ks (delete k m)) r
      → HasRoom (cache_of ttl max (k ∷ ks) m) r
  one_more ttl max k ks m r c h later = record {
    same_ttl = later.same_ttl;
    same_max = later.same_max;
    oldest_gone = rw one_to_drop later.oldest_gone;
    rest_kept = λ j. ground (arith, later.rest_kept j, lookup-delete k j m, text_eq_iff k j, fresh);
    coherent = later.coherent;
  }
    where
      one_to_drop : suc (suc (length ks)) - max ≡ suc (suc (length ks) - max)
      one_to_drop = omega arith

      fresh : mem k r.order ≡ false
      fresh = rw later.oldest_gone (mem-drop (suc (length ks) - max) k ks c.distinct.0)

  make_room_stop :
      (fuel ttl max : ℕ) (order : List Text) (m : Map (Item V))
      → length m < max
      → make_room (suc fuel) (cache_of ttl max order m) ≡ some (cache_of ttl max order m)
  unfolding make_room
  make_room_stop fuel ttl max order m h = ground arith

  make_room_evict :
      (fuel ttl max : ℕ) (k : Text) (ks : List Text) (m : Map (Item V))
      → IsCoherent (k ∷ ks) m
      → max ≤ length m
      → make_room (suc fuel) (cache_of ttl max (k ∷ ks) m)
        ≡ make_room fuel (cache_of ttl max ks (delete k m))
  unfolding make_room evict_oldest_locked
  make_room_evict fuel ttl max k ks m c h = ground (arith, evict_head k ks m c)

  -- With more fuel than keys the loop ends, and drops the oldest keys only.
  pub make_room_lem :
      (fuel ttl max : ℕ) (order : List Text) (m : Map (Item V))
      → IsCoherent order m
      → 1 ≤ max
      → length order < fuel
      → (r : Cache V) × (make_room fuel (cache_of ttl max order m) ≡ some r)
        × HasRoom (cache_of ttl max order m) r
  make_room_lem zero ttl max order m c h f = absurd (omega arith)
  make_room_lem (suc fuel) ttl max [] m c h f =
      let few : length m < max = omega (arith, length_of_IsCoherent [] m c) in
      (cache_of ttl max [] m, make_room_stop fuel ttl max [] m few, enough_room ttl max [] m c few)
  make_room_lem (suc fuel) ttl max (k ∷ ks) m c h f = elim (dec_lt (length m) max) [
    | yes few ↦ (
      cache_of ttl max (k ∷ ks) m,
      make_room_stop fuel ttl max (k ∷ ks) m few,
      enough_room ttl max (k ∷ ks) m c few,
    )
    | no full ↦
        let (r, run, spec) =
          make_room_lem fuel ttl max ks (delete k m) (tail-IsCoherent k ks m c) h (omega arith) in
        let many : max ≤ length m = omega arith in
        (
          r,
          make_room_evict fuel ttl max k ks m c many ∙ run,
          one_more ttl max k ks m r c (omega (arith, length_of_IsCoherent (k ∷ ks) m c)) spec,
        )
  ]
