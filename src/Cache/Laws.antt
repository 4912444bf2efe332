-- ===== src/Cache/Laws.antt =====
-- Set of internal/cache/cache.go: it ends, keeps the cache valid, and drops what is expired or
-- oldest.
use jproxy_go.Common.{
  ℕ, suc, ◌+◌, ◌-◌, ◌≡◌, refl, sym, ap, ◌∙◌, inl, inr, true, false, ◌&&◌, none, some, List, [], ◌∷◌,
  ◌++◌, arith, if◌then◌else◌, Bool-cases, length, drop, length-drop, Text, text_eq, text_eq_refl,
  text_eq_iff, Map, lookup, insert, delete, lookup-insert, lookup-delete, has, has-insert,
  insert-DistinctKeys, length-insert_present, length-insert_absent, mem, Distinct, mem-append,
  snoc-Distinct, mem-drop,
}
use jproxy_go.Cache.{
  Item, Cache, new, sweep, remove_expired_locked, make_room, store, set, IsCoherent, IsValid,
}
use jproxy_go.Cache.Room.{HasRoom, length_of_IsCoherent, make_room_lem}
use jproxy_go.Cache.Sweep.{
  unless_expired, lookup-sweep, mem-sweep, sweep-Distinct, sweep-DistinctKeys, length-sweep-le,
}

-- The keys of a list whose entry in the map has not expired.
unfoldable pub live_keys {ℓ} : {V : Type ℓ} → ℕ → Map (Item V) → List Text → List Text
live_keys now m [] = []
live_keys now m (k ∷ ks) =
    let rest = live_keys now m ks in
    elim (unless_expired now (lookup k m)) [ none ↦ rest | some item ↦ k ∷ rest ]

module _ {ℓ} {V : Type ℓ} where
  live_keys-delete :
      (now : ℕ) (m : Map (Item V)) (k : Text) (ks : List Text)
      → mem k ks ≡ false
      → live_keys now (delete k m) ks ≡ live_keys now m ks
  unfolding live_keys mem
  live_keys-delete now m k [] h = refl
  live_keys-delete now m k (x ∷ ks) h =
      ground
        (arith, live_keys-delete now m k ks, lookup-delete k x m, text_eq_iff k x, text_eq_refl k)

  pub sweep-live_keys :
      (now : ℕ) (ks : List Text) (m : Map (Item V))
      → Distinct ks
      → (sweep now ks m).0 ≡ live_keys now m ks
  unfolding sweep live_keys
  sweep-live_keys now [] m d = refl
  sweep-live_keys now (k ∷ ks) m d = ground (
    arith,
    sweep-live_keys now ks m d.1,
    sweep-live_keys now ks (delete k m) d.1,
    live_keys-delete now m k ks d.0,
  )

  sweep-IsCoherent :
      (now : ℕ) (ks : List Text) (m : Map (Item V))
      → IsCoherent ks m
      → IsCoherent (sweep now ks m).0 (sweep now ks m).1
  sweep-IsCoherent now ks m c = record {
    distinct = sweep-Distinct now ks m c.distinct;
    distinct_keys = sweep-DistinctKeys now ks m c.distinct_keys;
    enumerates = λ j.
        ground (arith, mem-sweep now ks m j c.distinct, lookup-sweep now ks m j, c.enumerates j);
  }

  store-IsCoherent :
      (key : Text) (item : Item V) (ks : List Text) (m : Map (Item V))
      → IsCoherent ks m
      → mem key ks ≡ true
      → IsCoherent ks (insert key item m)
  store-IsCoherent key item ks m c h = record {
    distinct = c.distinct;
    distinct_keys = insert-DistinctKeys key item m c.distinct_keys;
    enumerates = λ j. ground (arith, c.enumerates j, has-insert key j item m, text_eq_iff key j);
  }

  append-IsCoherent :
      (key : Text) (item : Item V) (ks : List Text) (m : Map (Item V))
      → IsCoherent ks m
      → mem key ks ≡ false
      → IsCoherent (ks ++ key ∷ []) (insert key item m)
  unfolding mem
  append-IsCoherent key item ks m c h = record {
    distinct = snoc-Distinct ks key c.distinct h;
    distinct_keys = insert-DistinctKeys key item m c.distinct_keys;
    enumerates =
        λ j. ground (arith, c.enumerates j, has-insert key j item m, mem-append j ks (key ∷ []));
  }

  -- What Set promises of the new cache `r`.
  pub record IsSetOf (key : Text) (val : V) (now : ℕ) (c r : Cache V) : Type ℓ where
    pub valid : IsValid r
    pub order_present : has key c.m ≡ true → r.order ≡ c.order
    pub order_absent :
        has key c.m ≡ false
        → let kept = live_keys now c.m c.order in
          r.order ≡ drop (suc (length kept) - c.max_entries) kept ++ key ∷ []
    pub entries :
        (j : Text)
        → lookup j r.m ≡ (
            if text_eq key j
            then some (record { value = val; expires_at = now + c.ttl })
            else if mem j r.order
            then lookup j c.m
            else none)

  set_present :
      (key : Text) (val : V) (now : ℕ) (c : Cache V)
      → IsValid c
      → has key c.m ≡ true
      → set key val now c ≡ some (store key val now c)
  unfolding set
  set_present key val now c v h = ground arith

  store-IsSetOf :
      (key : Text) (val : V) (now : ℕ) (c : Cache V)
      → IsValid c
      → has key c.m ≡ true
      → IsSetOf key val now c (store key val now c)
  unfolding store
  store-IsSetOf key val now c v h = record {
    valid = record {
      room = v.room;
      bounded = omega (arith, length-insert_present key item c.m h, v.bounded);
      coherent = store-IsCoherent key item c.order c.m v.coherent (v.coherent.enumerates key ∙ h);
    };
    order_present = λ _. refl;
    order_absent = λ a. ground arith;
    entries = λ j. ground (arith, lookup-insert key j item c.m, v.coherent.enumerates j);
  }
    where
      item : Item V
      item = record { value = val; expires_at = now + c.ttl }

  -- The cache after removeExpiredLocked and the evictions, and before the key is added.
  abbrev add_last : Text → V → ℕ → Cache V → Cache V
  add_last key val now r = store key val now (record r { order = r.order ++ key ∷ [] })

  set_absent :
      (key : Text) (val : V) (now : ℕ) (c r : Cache V)
      → has key c.m ≡ false
      → make_room (suc (length c.m)) (remove_expired_locked now c) ≡ some r
      → set key val now c ≡ some (add_last key val now r)
  unfolding set
  set_absent key val now c r h run = ground arith

  add_last-IsSetOf :
      (key : Text) (val : V) (now : ℕ) (c r : Cache V)
      → IsValid c
      → has key c.m ≡ false
      → HasRoom (remove_expired_locked now c) r
      → IsSetOf key val now c (add_last key val now r)
  unfolding store remove_expired_locked mem
  add_last-IsSetOf key val now c r v h room = record {
    valid = record {
      room = rw room.same_max v.room;
      bounded = omega (
        arith,
        length-insert_absent key item r.m (sym (room.coherent.enumerates key) ∙ new_key),
        length_of_IsCoherent r.order r.m room.coherent,
        ap length room.oldest_gone,
        length-drop (suc (length kept) - c.max_entries) kept,
        room.same_max,
        v.room,
      );
      coherent = append-IsCoherent key item r.order r.m room.coherent new_key;
    };
    order_present = λ a. ground arith;
    order_absent = λ _.
        rw (← sweep-live_keys now c.order c.m v.coherent.distinct)
          (ap (λ o. o ++ key ∷ []) room.oldest_gone);
    entries = λ j. ground (
      arith,
      lookup-insert key j item r.m,
      room.rest_kept j,
      room.same_ttl,
      lookup-sweep now c.order c.m j,
      mem-append j r.order (key ∷ []),
      room.coherent.enumerates j,
    );
  }
    where
      item : Item V
      item = record { value = val; expires_at = now + r.ttl }

      kept : List Text
      kept = (sweep now c.order c.m).0

      kept_fresh : (j : Text) → mem j kept ≡ (mem j c.order && has j (sweep now c.order c.m).1)
      kept_fresh j = mem-sweep now c.order c.m j v.coherent.distinct

      not_kept : mem key kept ≡ false
      not_kept = ground (arith, kept_fresh key, v.coherent.enumerates key)

      new_key : mem key r.order ≡ false
      new_key = rw room.oldest_gone (mem-drop (suc (length kept) - c.max_entries) key kept not_kept)

  room_made :
      (now : ℕ) (c : Cache V)
      → IsValid c
      → (r : Cache V) × (make_room (suc (length c.m)) (remove_expired_locked now c) ≡ some r)
        × HasRoom (remove_expired_locked now c) r
  unfolding remove_expired_locked
  room_made now c v =
      make_room_lem (suc (length c.m)) c.ttl c.max_entries (sweep now c.order c.m).0
        (sweep now c.order c.m).1 coherent v.room
        (omega (arith, length_of_IsCoherent _ _ coherent, length-sweep-le now c.order c.m))
    where
      coherent : IsCoherent (sweep now c.order c.m).0 (sweep now c.order c.m).1
      coherent = sweep-IsCoherent now c.order c.m v.coherent

  -- Set ends, and does what `IsSetOf` says.
  pub set_lem :
      (key : Text) (val : V) (now : ℕ) (c : Cache V)
      → IsValid c
      → (r : Cache V) × (set key val now c ≡ some r) × IsSetOf key val now c r
  set_lem key val now c v = elim (Bool-cases (has key c.m)) [
    | inl old ↦
        (store key val now c, set_present key val now c v old, store-IsSetOf key val now c v old)
    | inr new ↦
        let (r, run, room) = room_made now c v in
        (
          add_last key val now r,
          set_absent key val now c r new run,
          add_last-IsSetOf key val now c r v new room,
        )
  ]
