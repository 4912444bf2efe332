-- ===== src/Proxy/Downloads/Passing.antt =====
-- Which requests the handlers for downloaders pass on, and with which headers.
use mathlib.Core.Path.{subst}
use jproxy_go.Common.{
  ℕ, ◌≤◌, ◌≡◌, refl, sym, ap, ◌∙◌, ◌⊎◌, inl, inr, Bool, true, false, ◌||◌, Option, none, some, List,
  [], ◌∷◌, ◌++◌, arith, Bool-cases, length, drop, All, All-append, Text, codes, text_eq,
  text_eq_refl, to_lower, mem, starts_with, contains, trim_slashes, Result, ◌>>=◌, or_fail, check,
  ok, err,
}
use jproxy_go.Transmissionconfig.{Url, parse_endpoint}
use jproxy_go.Downloader.{Body, received, broken}
use jproxy_go.Proxy.Downloads.{
  Headers, Incoming, Upstream, Outcome, proxy_limit, read_limited, trim_prefix, after_prefix,
  qbittorrent_path, transmission_path, hop_header, is_allowed_method, pairs, connection_values,
  connection_names, copy_headers, copy_end_to_end_headers, upstream_of, qbittorrent_base_url, built,
  prepare_qbittorrent, prepare_transmission, pass_on,
}

-- A header that concerns the whole way: neither Host, nor one of a single hop, nor named by Connection.
abbrev pub IsEndToEnd : List Text → Text × Text → Type 0
IsEndToEnd connection h =
    (hop_header h.0 ≡ false) × (text_eq h.0 (codes "Host") ≡ false) × (mem h.0 connection ≡ false)

pairs-IsEndToEnd :
    (connection : List Text) (name : Text) (values : List Text)
    → (hop_header name ≡ false)
      × (text_eq name (codes "Host") ≡ false)
      × (mem name connection ≡ false)
    → All (IsEndToEnd connection) (pairs name values)
pairs-IsEndToEnd connection name [] h = tt
pairs-IsEndToEnd connection name (v ∷ vs) h = (h, pairs-IsEndToEnd connection name vs h)

module _ (canonical : Text → Text) where
  copy_headers-IsEndToEnd :
      (connection : List Text) (headers : Headers)
      → All (IsEndToEnd connection) (copy_headers canonical connection headers)
  unfolding copy_headers
  copy_headers-IsEndToEnd connection [] = tt
  copy_headers-IsEndToEnd connection ((name, values) ∷ headers) =
      let rest = copy_headers-IsEndToEnd connection headers in
      let key = canonical name in
      elim (Bool-cases (text_eq key (codes "Host") || mem key connection || hop_header key)) [
        | inl dropped ↦ rw dropped rest
        | inr kept ↦ rw kept (
            All-append (IsEndToEnd connection) (pairs key values)
              (copy_headers canonical connection headers)
              (pairs-IsEndToEnd connection key values
                (ground (arith, kept), ground (arith, kept), ground (arith, kept)))
              rest)
      ]

  -- What holds of a request that is passed on.
  pub record IsPassable (request : Incoming) (u : Upstream) : Type 0 where
    pub method : is_allowed_method u.method ≡ true
    pub same_method : u.method ≡ request.method
    pub query : u.target.raw_query ≡ request.raw_query
    pub small : length u.body ≤ proxy_limit
    pub headers :
        All
          (IsEndToEnd (connection_names canonical (connection_values canonical request.headers)))
          u.headers

  read_limited_small :
      (body : Body) (limit : ℕ) (read : Text)
      → read_limited body limit ≡ some read
      → length read ≤ limit
  unfolding read_limited
  read_limited_small (broken e) limit read h = cc
  read_limited_small (received bytes) limit read h = ground arith

  upstream_of-IsPassable :
      (request : Incoming) (target : Url) (body : Text)
      → is_allowed_method request.method ≡ true
      → length body ≤ proxy_limit
      → IsPassable request (upstream_of canonical request target body)
  unfolding upstream_of copy_end_to_end_headers
  upstream_of-IsPassable request target body allowed small = record {
    method = allowed;
    same_method = refl;
    query = refl;
    small = small;
    headers =
        copy_headers-IsEndToEnd
          (connection_names canonical (connection_values canonical request.headers))
          request.headers;
  }

  -- A path below the API of qBittorrent, with no backslash. It is the escaped path without its prefix; the
  -- path that came has no "/../" and no "/./", and is not escaped with "%2e".
  pub record IsApiPath (path escaped onward : Text) : Type 0 where
    pub rest : Text
    pub slash : onward ≡ 47 ∷ rest
    pub below : starts_with (codes "api/v2/") rest ≡ true
    pub no_backslash : contains (codes "\\") rest ≡ false
    pub no_parent : contains (codes "/../") path ≡ false
    pub no_here : contains (codes "/./") path ≡ false
    pub no_escaped_dot : contains (codes "%2e") (to_lower escaped) ≡ false
    pub prefixed :
        (escaped ≡ codes "/sonarr/qbittorrent" ++ onward)
        ⊎ (escaped ≡ codes "/radarr/qbittorrent" ++ onward)

  starts_with_parts : (p s : Text) → starts_with p s ≡ true → s ≡ p ++ drop (length p) s
  unfolding starts_with
  starts_with_parts [] s h = refl
  starts_with_parts (c ∷ p) [] h = cc
  starts_with_parts (c ∷ p) (d ∷ s) h = ground (arith, starts_with_parts p s)

  trim_prefix_parts : (p s : Text) → text_eq (trim_prefix p s) s ≡ false → s ≡ p ++ trim_prefix p s
  unfolding trim_prefix
  trim_prefix_parts p s h = ground (arith, starts_with_parts p s, text_eq_refl s)

  after_prefix_parts :
      (sonarr radarr s : Text)
      → text_eq (after_prefix sonarr radarr s) s ≡ false
      → (s ≡ sonarr ++ after_prefix sonarr radarr s) ⊎ (s ≡ radarr ++ after_prefix sonarr radarr s)
  unfolding after_prefix
  after_prefix_parts sonarr radarr s h = elim (Bool-cases (text_eq (trim_prefix sonarr s) s)) [
    | inl same ↦ inr (ground (arith, trim_prefix_parts radarr s))
    | inr other ↦ inl (ground (arith, trim_prefix_parts sonarr s))
  ]

  qbittorrent_path-IsApiPath :
      (path escaped onward : Text)
      → qbittorrent_path path escaped ≡ some onward
      → IsApiPath path escaped onward
  unfolding qbittorrent_path
  qbittorrent_path-IsApiPath path escaped onward h =
      let prefixed =
        after_prefix (codes "/sonarr/qbittorrent/") (codes "/radarr/qbittorrent/") escaped in
      let parts : text_eq prefixed escaped ≡ false
          → (escaped ≡ codes "/sonarr/qbittorrent/" ++ prefixed)
            ⊎ (escaped ≡ codes "/radarr/qbittorrent/" ++ prefixed) =
        after_prefix_parts (codes "/sonarr/qbittorrent/") (codes "/radarr/qbittorrent/") escaped in
      let e : onward ≡ 47 ∷ prefixed = ground arith in
      record {
        rest = prefixed;
        slash = e;
        below = ground arith;
        no_backslash = ground arith;
        no_parent = ground arith;
        no_here = ground arith;
        no_escaped_dot = ground arith;
        prefixed = elim (parts (ground arith)) [
          | inl a ↦ inl (a ∙ ap (λ t. codes "/sonarr/qbittorrent" ++ t) (sym e))
          | inr b ↦ inr (b ∙ ap (λ t. codes "/radarr/qbittorrent" ++ t) (sym e))
        ];
      }

  module _ (parse : Text → Option Url) (can_build : Upstream → Bool) where
    -- A prepared request is what its stages made.
    prepared :
        (request : Incoming) (allowed : Bool) (path : Option Text) (base : Option Url)
        (body : Option Text) (u : Upstream)
        → (check allowed 405 >>= λ _. or_fail path 400 >>= λ p. or_fail base 503 >>= λ b.
            or_fail body 413 >>= λ y.
            built canonical parse can_build
              (upstream_of canonical request (record b { path = trim_slashes b.path ++ p }) y))
          ≡ ok u
        → (allowed ≡ true)
          × ((p : Text) × (path ≡ some p)
              × ((b : Url) × (base ≡ some b)
                  × ((y : Text) × (body ≡ some y)
                      × (upstream_of canonical request
                            (record b { path = trim_slashes b.path ++ p })
                            y
                          ≡ u))))
    unfolding built
    prepared request true (some p) (some b) (some y) u h =
        (refl, (p, refl, (b, refl, (y, refl, ground arith))))
    prepared request true (some p) (some b) none u h = cc
    prepared request true (some p) none body u h = cc
    prepared request true none base body u h = cc
    prepared request false path base body u h = cc

    prepare_qbittorrent_lem :
        (url : Text) (request : Incoming) (u : Upstream)
        → prepare_qbittorrent canonical parse can_build url request ≡ ok u
        → IsPassable request u
          × ((base : Url) × ((p : Text) × (qbittorrent_base_url canonical parse can_build url
                  ≡ some base)
                × (u.target.path ≡ trim_slashes base.path ++ p)
                × IsApiPath request.path request.escaped_path p))
    unfolding prepare_qbittorrent upstream_of
    prepare_qbittorrent_lem url request u h =
        let (allowed, (p, path, (b, base, (y, body, same)))) =
          prepared request (is_allowed_method request.method)
            (qbittorrent_path request.path request.escaped_path)
            (qbittorrent_base_url canonical parse can_build url)
            (read_limited request.body proxy_limit) u h in
        let target : Url = record b { path = trim_slashes b.path ++ p } in
        (
          subst (IsPassable request) same (
              upstream_of-IsPassable request target y allowed
                (read_limited_small request.body proxy_limit y body)),
          (
            b,
            (
              p,
              base,
              ap (λ (v : Upstream). v.target.path) (sym same),
              qbittorrent_path-IsApiPath request.path request.escaped_path p path,
            ),
          ),
        )

    sent :
        (send : Upstream → Outcome) (r : Result ℕ Upstream) (u : Upstream)
        → (pass_on canonical send r).1 ≡ some u
        → r ≡ ok u
    unfolding pass_on
    sent send (err status) u h = cc
    sent send (ok v) u h = ground arith

    -- A request that is sent to qBittorrent is one that came in with the same method, GET or POST, and the
    -- same query. It goes below the API of the configured URL: the path is the escaped one that came, without
    -- the prefix for Sonarr or Radarr, starts with "/api/v2/" and has no backslash; in what came there was no
    -- "/../" and no "/./", and no "%2e" in any case of letters. The body is within the limit; and the request
    -- carries no header of a single hop, no Host, and none that its own Connection names.
    pub pass_on_qbittorrent_lem :
        (send : Upstream → Outcome) (url : Text) (request : Incoming) (u : Upstream)
        → (pass_on canonical send (prepare_qbittorrent canonical parse can_build url request)).1
          ≡ some u
        → IsPassable request u
          × ((base : Url) × ((p : Text) × (qbittorrent_base_url canonical parse can_build url
                  ≡ some base)
                × (u.target.path ≡ trim_slashes base.path ++ p)
                × IsApiPath request.path request.escaped_path p))
    pass_on_qbittorrent_lem send url request u h =
        prepare_qbittorrent_lem url request u
          (sent send (prepare_qbittorrent canonical parse can_build url request) u h)

    prepared_transmission :
        (request : Incoming) (allowed fits : Bool) (endpoint : Option Url) (body : Option Text)
        (u : Upstream)
        → (check allowed 405 >>= λ _. check fits 400 >>= λ _. or_fail endpoint 503 >>= λ e.
            or_fail body 413 >>= λ y.
            built canonical parse can_build (upstream_of canonical request e y))
          ≡ ok u
        → (allowed ≡ true)
          × (fits ≡ true)
          × ((e : Url) × (endpoint ≡ some e)
              × ((y : Text) × (body ≡ some y) × (upstream_of canonical request e y ≡ u)))
    unfolding built
    prepared_transmission request true true (some e) (some y) u h =
        (refl, refl, (e, refl, (y, refl, ground arith)))
    prepared_transmission request true true (some e) none u h = cc
    prepared_transmission request true true none body u h = cc
    prepared_transmission request true false endpoint body u h = cc
    prepared_transmission request false fits endpoint body u h = cc

    -- A request that is sent to Transmission goes to the path of the configured endpoint, and the rest holds as
    -- for qBittorrent.
    pass_on_transmission_lem :
        (send : Upstream → Outcome) (url : Text) (request : Incoming) (u : Upstream)
        → (pass_on canonical send (prepare_transmission canonical parse can_build url request)).1
          ≡ some u
        → IsPassable request u
          × (transmission_path request.path request.escaped_path ≡ true)
          × ((e : Url) × (parse_endpoint parse url ≡ some e) × (u.target.path ≡ e.path))
    unfolding prepare_transmission upstream_of
    pass_on_transmission_lem send url request u h =
        let (allowed, fits, (e, endpoint, (y, body, same))) =
          prepared_transmission request (is_allowed_method request.method)
            (transmission_path request.path request.escaped_path) (parse_endpoint parse url)
            (read_limited request.body proxy_limit) u
            (sent send (prepare_transmission canonical parse can_build url request) u h) in
        (
          subst (IsPassable request) same (
              upstream_of-IsPassable request e y allowed
                (read_limited_small request.body proxy_limit y body)),
          fits,
          (e, endpoint, ap (λ (v : Upstream). v.target.path) (sym same)),
        )
