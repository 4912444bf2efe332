-- ===== src/Cache/Lookups.antt =====
-- What Get, Delete and Clear of internal/cache/cache.go return, alone, after Set, and in between.
use mathlib.Core.Path.{subst}
use jproxy_go.Common.{
  ℕ, suc, ◌+◌, ◌-◌, ◌≤◌, ◌≡◌, refl, inl, inr, Option, none, some, List, [], ◌∷◌, ◌++◌, arith, ℤ,
  leb, if◌then◌else◌, Bool-cases, length, drop, Text, text_eq, text_eq_refl, text_eq_iff, lookup,
  lookup-insert, lookup-delete, length-delete-le, has, has-delete, delete-DistinctKeys, mem,
  mem-remove_first, remove_first-Distinct,
}
use jproxy_go.Cache.{Cache, new, delete_locked, store, set, read, get, clear, IsValid, stale, live}
use jproxy_go.Cache.Laws.{live_keys, IsSetOf, set_lem}

-- One critical section of a goroutine that uses the cache.
pub data Op {ℓ} (V : Type ℓ) : Type ℓ where
  setting : Text → V → ℕ → Op V
  reading : Text → ℕ → Op V
  deleting : Text → Op V
  clearing : Op V

module _ {ℓ} {V : Type ℓ} where
  -- A Get that finds a stale entry is `reading`, and a `deleting` later.
  unfoldable pub step : Op V → Cache V → Option (Cache V)
  step (setting key val now) c = set key val now c
  step (reading key now) c = some c
  step (deleting key) c = some (delete_locked key c)
  step clearing c = some (clear c)

  unfoldable pub run : List (Op V) → Cache V → Option (Cache V)
  run [] c = some c
  run (op ∷ ops) c = elim (step op c) [ none ↦ none | some r ↦ run ops r ]

  new-IsValid : (ttl : ℕ) (max : ℤ) → IsValid (new {V = V} ttl max)
  unfolding new mem lookup
  new-IsValid ttl max = record {
    room = ground arith;
    bounded = ground arith;
    coherent = record { distinct = tt; distinct_keys = tt; enumerates = λ k. refl };
  }

  pub delete_locked-IsValid : (key : Text) (c : Cache V) → IsValid c → IsValid (delete_locked key c)
  unfolding delete_locked
  delete_locked-IsValid key c v = record {
    room = v.room;
    bounded = omega (arith, length-delete-le key c.m, v.bounded);
    coherent = record {
      distinct = remove_first-Distinct key c.order v.coherent.distinct;
      distinct_keys = delete-DistinctKeys key c.m v.coherent.distinct_keys;
      enumerates = λ k. ground (
        arith,
        mem-remove_first key k c.order v.coherent.distinct,
        has-delete key k c.m,
        v.coherent.enumerates k,
      );
    };
  }

  clear-IsValid : (c : Cache V) → IsValid c → IsValid (clear c)
  unfolding clear mem lookup
  clear-IsValid c v = record {
    room = v.room;
    bounded = omega arith;
    coherent = record { distinct = tt; distinct_keys = tt; enumerates = λ k. refl };
  }

  step-IsValid :
      (op : Op V) (c : Cache V) → IsValid c → (r : Cache V) × (step op c ≡ some r) × IsValid r
  unfolding step
  step-IsValid (setting key val now) c v =
      let (r, ran, spec) = set_lem key val now c v in (r, ran, spec.valid)
  step-IsValid (reading key now) c v = (c, refl, v)
  step-IsValid (deleting key) c v = (delete_locked key c, refl, delete_locked-IsValid key c v)
  step-IsValid clearing c v = (clear c, refl, clear-IsValid c v)

  run_from-IsValid :
      (ops : List (Op V)) (c : Cache V)
      → IsValid c
      → (r : Cache V) × (run ops c ≡ some r) × IsValid r
  unfolding run
  run_from-IsValid [] c v = (c, refl, v)
  run_from-IsValid (op ∷ ops) c v =
      let (d, ran, w) = step-IsValid op c v in
      let (r, rest, valid) = run_from-IsValid ops d w in (r, rw (ran, run) rest, valid)

  -- Whatever critical sections run on a new cache, in any order and at any times, none of them
  -- loops for ever, and the cache stays valid: at most `max_entries` entries, and an order that
  -- holds each key of the map once.
  pub run-IsValid :
      (ttl : ℕ) (max : ℤ) (ops : List (Op V))
      → (r : Cache V) × (run ops (new ttl max) ≡ some r) × IsValid r
  run-IsValid ttl max ops = run_from-IsValid ops (new ttl max) (new-IsValid ttl max)

  set-IsSetOf :
      (key : Text) (val : V) (now : ℕ) (c r : Cache V)
      → IsValid c
      → set key val now c ≡ some r
      → IsSetOf key val now c r
  set-IsSetOf key val now c r v h =
      let (d, ran, spec) = set_lem key val now c v in
      let same : d ≡ r = cc in subst (IsSetOf key val now c) same spec

  -- After a Set on a valid cache, a Get of the same key hits until the TTL has passed; a Get of
  -- another key returns what it did before if the key is still in the order, and misses if not.
  pub get-set :
      (key : Text) (val : V) (now : ℕ) (c r : Cache V) (j : Text) (t : ℕ)
      → IsValid c
      → set key val now c ≡ some r
      → (get j t r).0 ≡ (
          if text_eq key j
          then (if leb t (now + c.ttl) then some val else none)
          else if mem j r.order
          then (get j t c).0
          else none)
  unfolding get read
  get-set key val now c r j t v h = ground (arith, (set-IsSetOf key val now c r v h).entries j)

  -- Set of a key that a valid cache holds keeps the order. Set of a new key puts it last, behind
  -- the keys whose entries have not expired, of which it drops the oldest, and only as many as
  -- are too many for one more entry.
  pub order-set :
      (key : Text) (val : V) (now : ℕ) (c r : Cache V)
      → IsValid c
      → set key val now c ≡ some r
      → let kept = live_keys now c.m c.order in
        r.order ≡ (
          if has key c.m
          then c.order
          else drop (suc (length kept) - c.max_entries) kept ++ key ∷ [])
  order-set key val now c r v h =
      let spec = set-IsSetOf key val now c r v h in
      elim (Bool-cases (has key c.m)) [
        | inl old ↦ rw old (spec.order_present old)
        | inr new ↦ rw new (spec.order_absent new)
      ]

  -- The two critical sections of Get are not one: if a Get finds the entry of a key stale, and a
  -- Set stores a fresh one before that Get takes the write lock, then the Get deletes the fresh
  -- entry, and every later Get misses, though one right after the Set would have hit.
  pub get_race :
      (key : Text) (val : V) (now s t : ℕ) (c : Cache V)
      → read key now c ≡ stale
      → (r : Cache V) × (set key val s c ≡ some r)
        × (read key s r ≡ live val)
        × ((get key t (delete_locked key r)).0 ≡ none)
  unfolding read get set store delete_locked
  get_race key val now s t c h = (
    store key val s c,
    ground arith,
    ground (
      arith,
      lookup-insert key key (record { value = val; expires_at = s + c.ttl }) c.m,
      text_eq_refl key,
    ),
    ground (arith, lookup-delete key key (store key val s c).m, text_eq_refl key),
  )

  -- A Get drops what it finds stale, and no later Get, of any key, can tell.
  pub get-get :
      (key j : Text) (now t : ℕ) (c : Cache V)
      → now ≤ t
      → (get j t (get key now c).1).0 ≡ (get j t c).0
  unfolding get read delete_locked
  get-get key j now t c h = ground (arith, lookup-delete key j c.m, text_eq_iff key j)
