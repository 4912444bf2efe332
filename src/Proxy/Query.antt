-- ===== src/Proxy/Query.antt =====
-- net/url.Values as the proxy uses them: Get, Set, and intParam of internal/proxy/server.go. Values
-- are immutable, so that cloneQuery is the identity.
use jproxy_go.Common.{
  ◌≡◌, none, some, List, [], ◌∷◌, arith, ℤ, if◌then◌else◌, Text, text_eq, Map, lookup, insert,
  lookup-insert, atoi,
}

abbrev pub Query : Type 0
Query = Map (List Text)

-- Get
unfoldable pub get_param : Query → Text → Text
get_param q key = elim (lookup key q) [
  | none ↦ []
  | some values ↦ elim values [ [] ↦ [] | v ∷ _ ↦ v ]
]

-- Set
unfoldable pub set_param : Text → Text → Query → Query
set_param key value q = insert key (value ∷ []) q

-- intParam
unfoldable pub int_param : Query → Text → ℤ → ℤ
int_param q key default = elim (atoi (get_param q key)) [ none ↦ default | some v ↦ v ]

pub get_param-set_param :
    (key j value : Text) (q : Query)
    → get_param (set_param key value q) j ≡ (if text_eq key j then value else get_param q j)
unfolding get_param set_param
get_param-set_param key j value q = ground (arith, lookup-insert key j (value ∷ []) q)
