-- ===== src/Proxy/Handler/Examples.antt =====
-- A request that misses, and one after it.
use jproxy_go.Common.{
  ◌≡◌, refl, none, some, [], arith, Text, codes, lookup, mem, starts_with, index, contains,
}
use jproxy_go.Cache.{Cache, IsValid}
use jproxy_go.Proxy.Xml.{has_channel}
use jproxy_go.Proxy.Handler.{handle_indexer, served}
use jproxy_go.Proxy.Handler.Caching.{handle-handle}
use jproxy_go.Cache

abbrev no_results : Cache Text
no_results = record { ttl = 100; max_entries = 2; m = []; order = [] }

no_results-IsValid : IsValid no_results
unfolding lookup mem
no_results-IsValid = record {
  room = omega arith;
  bounded = omega arith;
  coherent = record { distinct = tt; distinct_keys = tt; enumerates = λ k. refl };
}

abbrev feed : Text
feed = codes "<channel></channel>"

abbrev unchanged : Text → Text
unchanged xml = xml

handle-handle_example :
    (r : Cache Text) × (handle_indexer unchanged (codes "k") (some feed) 5 8 no_results
      ≡ some (served feed, r))
    × (handle_indexer unchanged (codes "k") none 50 60 r ≡ some (served feed, r))
unfolding Cache.get Cache.read lookup has_channel contains index starts_with
handle-handle_example =
    handle-handle unchanged (codes "k") feed none 5 8 50 60 no_results no_results-IsValid refl refl
      (omega arith)
