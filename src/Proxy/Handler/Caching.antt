-- ===== src/Proxy/Handler/Caching.antt =====
-- What the handler serves from its cache (internal/proxy/server.go, handleIndexer).
use jproxy_go.Common.{
  ℕ, ◌+◌, ◌≤◌, ◌≡◌, true, ◌&&◌, not, Option, none, some, arith, Text, text_eq_refl, is_empty,
}
use jproxy_go.Cache.{Cache, IsValid}
use jproxy_go.Cache.Laws.{set_lem}
use jproxy_go.Cache.Lookups.{delete_locked-IsValid, get-set, get-get}
use jproxy_go.Proxy.Xml.{has_channel}
use jproxy_go.Proxy.Handler.{store_result, answer_miss, handle_indexer, served, bad_gateway}
use jproxy_go.Cache

get_hit :
    (key xml : Text) (now : ℕ) (c : Cache Text)
    → (Cache.get key now c).0 ≡ some xml
    → (Cache.get key now c).1 ≡ c
unfolding Cache.get
get_hit key xml now c h = ground arith

handle_hit :
    (format : Text → Text) (key xml : Text) (answer : Option Text) (now stored : ℕ) (c : Cache Text)
    → (Cache.get key now c).0 ≡ some xml
    → handle_indexer format key answer now stored c ≡ some (served xml, c)
unfolding handle_indexer
handle_hit format key xml answer now stored c h = ground (arith, get_hit key xml now c h)

handle_miss :
    (format : Text → Text) (key xml : Text) (now stored : ℕ) (c r : Cache Text)
    → (Cache.get key now c).0 ≡ none
    → (not (is_empty (format xml)) && has_channel (format xml)) ≡ true
    → Cache.set key (format xml) stored (Cache.get key now c).1 ≡ some r
    → handle_indexer format key (some xml) now stored c ≡ some (served (format xml), r)
unfolding handle_indexer answer_miss store_result
handle_miss format key xml now stored c r m h s = ground (arith)

get-IsValid : (key : Text) (now : ℕ) (c : Cache Text) → IsValid c → IsValid (Cache.get key now c).1
unfolding Cache.get
get-IsValid key now c v = ground (arith, v, delete_locked-IsValid key c v)

get_ttl : (key : Text) (now : ℕ) (c : Cache Text) → (Cache.get key now c).1.ttl ≡ c.ttl
unfolding Cache.get Cache.delete_locked
get_ttl key now c = ground arith

-- If a valid result cache misses, and the formatted answer of the search is not empty and has a channel,
-- the request is served with it, and a request with the same key is served the same from the cache,
-- whatever its own search would have answered, until the TTL has passed since it was stored.
pub handle-handle :
    (format : Text → Text) (key xml : Text) (answer : Option Text) (now stored later other : ℕ)
    (c : Cache Text)
    → IsValid c
    → (Cache.get key now c).0 ≡ none
    → (not (is_empty (format xml)) && has_channel (format xml)) ≡ true
    → later ≤ stored + c.ttl
    → (r : Cache Text) × (handle_indexer format key (some xml) now stored c
        ≡ some (served (format xml), r))
      × (handle_indexer format key answer later other r ≡ some (served (format xml), r))
handle-handle format key xml answer now stored later other c v miss channel fresh =
    let d = (Cache.get key now c).1 in
    let w = get-IsValid key now c v in
    let (r, done, spec) = set_lem key (format xml) stored d w in
    (
      r,
      handle_miss format key xml now stored c r miss channel done,
      handle_hit format key (format xml) answer later other r (
          ground (
            arith,
            get-set key (format xml) stored d r key later w done,
            text_eq_refl key,
            get_ttl key now c,
          )),
    )

-- A request whose search fails is answered with an error, and the result cache is as a look for the key
-- leaves it, so that every later look, of any key, finds what it found before.
pub handle_failed :
    (format : Text → Text) (key j : Text) (now stored later : ℕ) (c : Cache Text)
    → (Cache.get key now c).0 ≡ none
    → now ≤ later
    → (r : Cache Text) × (handle_indexer format key none now stored c ≡ some (bad_gateway, r))
      × ((Cache.get j later r).0 ≡ (Cache.get j later c).0)
unfolding handle_indexer answer_miss
handle_failed format key j now stored later c miss l =
    ((Cache.get key now c).1, ground arith, get-get key j now later c l)
