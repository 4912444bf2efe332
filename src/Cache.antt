-- ===== src/Cache.antt =====
-- internal/cache/cache.go: the TTL cache. Instants and durations are numbers of nanoseconds, and a
-- TTL is not negative; `time.Now()` is an argument. Each method holds the lock for its whole body
-- but `Get`, whose two critical sections are `read` and `delete_locked`.
pub mod Sweep
pub mod Room
pub mod Laws
pub mod Lookups
mod Examples
use jproxy_go.Common.{
  ℕ, zero, suc, ◌+◌, ◌≤◌, Bool, true, false, Option, none, some, List, [], ◌∷◌, ◌++◌, map, ℤ,
  pos_part, ltb_ℤ, pos, ltb, leb, if◌then◌else◌, length, Text, Map, lookup, insert, delete,
  DistinctKeys, Distinct, remove_first, Enumerates,
}
use mathlib.Core.Option

-- ttlItem
pub record Item {ℓ} (V : Type ℓ) : Type ℓ where
  pub value : V
  pub expires_at : ℕ

-- TTLCache
pub record Cache {ℓ} (V : Type ℓ) : Type ℓ where
  pub ttl : ℕ
  pub max_entries : ℕ
  pub m : Map (Item V)
  pub order : List Text

-- now.After(item.expiresAt)
abbrev pub is_expired {ℓ} : {V : Type ℓ} → ℕ → Item V → Bool
is_expired now item = ltb item.expires_at now

-- What one look at the map under the read lock finds.
pub data Found {ℓ} (V : Type ℓ) : Type ℓ where
  missing : Found V
  stale : Found V
  live : V → Found V

module _ {ℓ} {V : Type ℓ} where
  -- NewTTLCache
  unfoldable pub new : ℕ → ℤ → Cache V
  new ttl max_entries = record {
    ttl = ttl;
    max_entries = if ltb_ℤ max_entries (pos 1) then 1 else pos_part max_entries;
    m = [];
    order = [];
  }

  -- deleteLocked
  unfoldable pub delete_locked : Text → Cache V → Cache V
  delete_locked key c = record c { m = delete key c.m; order = remove_first key c.order }

  -- The loop of removeExpiredLocked: the keys kept, and the map.
  unfoldable pub sweep : ℕ → List Text → Map (Item V) → List Text × Map (Item V)
  sweep now [] m = ([], m)
  sweep now (key ∷ keys) m = elim (lookup key m) [
    | none ↦ sweep now keys m
    | some item ↦ elim (is_expired now item) [
      | true ↦ sweep now keys (delete key m)
      | false ↦ (key ∷ (sweep now keys m).0, (sweep now keys m).1)
    ]
  ]

  unfoldable pub remove_expired_locked : ℕ → Cache V → Cache V
  remove_expired_locked now c =
      let (kept, m) = sweep now c.order c.m in record c { m = m; order = kept }

  -- The loop of evictOldestLocked: keys with no entry are passed over.
  unfoldable pub evict : List Text → Map (Item V) → List Text × Map (Item V)
  evict [] m = ([], m)
  evict (key ∷ keys) m = elim (lookup key m) [
    | none ↦ evict keys m
    | some item ↦ (keys, delete key m)
  ]

  unfoldable pub evict_oldest_locked : Cache V → Cache V
  evict_oldest_locked c = let (order, m) = evict c.order c.m in record c { m = m; order = order }

  -- for len(c.m) >= c.maxEntries { c.evictOldestLocked() }; `none` means that the fuel ran out.
  unfoldable pub make_room : ℕ → Cache V → Option (Cache V)
  make_room zero c = none
  make_room (suc fuel) c = elim (leb c.max_entries (length c.m)) [
    | true ↦ make_room fuel (evict_oldest_locked c)
    | false ↦ some c
  ]

  -- c.m[key] = ttlItem{value: val, expiresAt: now.Add(c.ttl)}
  unfoldable pub store : Text → V → ℕ → Cache V → Cache V
  store key val now c = record c {
    m = insert key (record { value = val; expires_at = now + c.ttl }) c.m;
  }

  -- Set; the fuel is the number of entries and one more.
  unfoldable pub set : Text → V → ℕ → Cache V → Option (Cache V)
  set key val now c = elim (lookup key c.m) [
    | some item ↦ some (store key val now c)
    | none ↦
        Option.map (λ r. store key val now (record r { order = r.order ++ key ∷ [] }))
          (make_room (suc (length c.m)) (remove_expired_locked now c))
  ]

  -- The first critical section of Get, and its test of the expiry.
  unfoldable pub read : Text → ℕ → Cache V → Found V
  read key now c = elim (lookup key c.m) [
    | none ↦ missing
    | some item ↦ if is_expired now item then stale else live item.value
  ]

  -- Get with no other call between its two critical sections.
  unfoldable pub get : Text → ℕ → Cache V → Option V × Cache V
  get key now c = elim (read key now c) [
    | missing ↦ (none, c)
    | stale ↦ (none, delete_locked key c)
    | live v ↦ (some v, c)
  ]

  -- Clear
  unfoldable pub clear : Cache V → Cache V
  clear c = record c { m = []; order = [] }

  -- The order holds each key of the map once, and the map holds no key twice.
  pub record IsCoherent (order : List Text) (m : Map (Item V)) : Type ℓ where
    pub distinct : Distinct order
    pub distinct_keys : DistinctKeys m
    pub enumerates : Enumerates order m

  -- What holds of a cache between two critical sections.
  pub record IsValid (c : Cache V) : Type ℓ where
    pub room : 1 ≤ c.max_entries
    pub bounded : length c.m ≤ c.max_entries
    pub coherent : IsCoherent c.order c.m
