-- ===== src/Cache/Examples.antt =====
-- The theorems about the cache at concrete inputs, and tests.
use jproxy_go.Common.{
  ℕ, ◌≡◌, refl, none, some, [], ◌∷◌, ◌++◌, arith, pos, negsuc, drop, Text, codes, text_eq, lookup,
  insert, delete, mem,
}
use jproxy_go.Cache.{
  Item, Cache, new, delete_locked, sweep, remove_expired_locked, evict, evict_oldest_locked,
  make_room, store, set, read, get, IsValid, live,
}
use jproxy_go.Cache.Laws.{live_keys}
use jproxy_go.Cache.Lookups.{run, run-IsValid, get-set, order-set, get_race, setting, deleting}

abbrev key_a : Text
key_a = codes "a"

abbrev key_b : Text
key_b = codes "b"

abbrev item_at : ℕ → ℕ → Item ℕ
item_at v t = record { value = v; expires_at = t }

-- Two places; `a` was set at 0 and `b` at 5, for 10 nanoseconds each.
abbrev full : Cache ℕ
full = record {
  ttl = 10;
  max_entries = 2;
  m = (key_a, item_at 1 10) ∷ (key_b, item_at 2 15) ∷ [];
  order = key_a ∷ key_b ∷ [];
}

-- At 7 a third key pushes out `a`, the oldest.
abbrev after : Cache ℕ
after = record {
  ttl = 10;
  max_entries = 2;
  m = (key_b, item_at 2 15) ∷ (codes "c", item_at 3 17) ∷ [];
  order = key_b ∷ codes "c" ∷ [];
}

full-IsValid : IsValid full
unfolding mem lookup text_eq
full-IsValid = record {
  room = omega arith;
  bounded = omega arith;
  coherent = record {
    distinct = (refl, (refl, tt));
    distinct_keys = (refl, (refl, tt));
    enumerates = λ k. ground arith;
  };
}

set-full : set (codes "c") 3 7 full ≡ some after
unfolding set make_room evict_oldest_locked evict remove_expired_locked sweep store lookup insert
    delete text_eq
set-full = refl

new_clamped : (new {V = ℕ} 10 (negsuc 4)).max_entries ≡ 1
unfolding new
new_clamped = refl

run-IsValid_example :
    (r : Cache ℕ) × (run (setting key_a 1 0 ∷ deleting key_a ∷ []) (new 10 (pos 2)) ≡ some r)
    × IsValid r
run-IsValid_example = run-IsValid 10 (pos 2) (setting key_a 1 0 ∷ deleting key_a ∷ [])

get-set_example : (get key_a 8 after).0 ≡ none
unfolding mem text_eq
get-set_example = get-set (codes "c") 3 7 full after key_a 8 full-IsValid set-full

order-set_example : after.order ≡ drop 1 (key_a ∷ key_b ∷ []) ++ codes "c" ∷ []
unfolding live_keys lookup text_eq
order-set_example = order-set (codes "c") 3 7 full after full-IsValid set-full

get_race_example :
    (r : Cache ℕ) × (set key_a 9 20 full ≡ some r)
    × (read key_a 20 r ≡ live 9)
    × ((get key_a 21 (delete_locked key_a r)).0 ≡ none)
unfolding read lookup text_eq
get_race_example = get_race key_a 9 12 20 21 full refl
