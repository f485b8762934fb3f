-- ===== src/Webhook/Lookup.antt =====
-- webhook-go/internal/accounts/http.go: the account of a platform's identifier, asked of channels-go
-- and cached.
use fieldwatchai_comms_openk.Prelude.{
  ℕ, ◌+◌, Bool, ◌&&◌, Option, none, some, List, [], ◌∷◌, ◌++◌, find, ltb, leb, ◌==◌, comparable_nat,
  comparable_list, if◌then◌else◌,
}
use fieldwatchai_comms_openk.Store.{Text}

-- What becomes of the request: the network fails, or channels-go replies with a status and, for 2xx, a
-- body that does not decode or that names an account, perhaps the empty one.
pub data Reply : Type 0 where
  unreachable : Reply
  replied : ℕ → Option Text → Reply

pub data Outcome : Type 0 where
  found : Text → Outcome
  not_found transient : Outcome

-- `cacheEntry`
pub record CacheEntry : Type 0 where
  pub account : Text
  pub exp : ℕ

-- `HTTPResolver`: its cache.
pub record Resolver : Type 0 where
  pub cache : List (Text × CacheEntry)

-- `lookupCacheTTL`, in seconds
abbrev pub lookup_cache_ttl : ℕ
lookup_cache_ttl = 60

-- The key of a platform and an identifier.
abbrev pub key_of : Text → Text → Text
key_of platform identifier = platform ++ (0 ∷ identifier)

abbrev pub entry_of : Option (Text × CacheEntry) → Option CacheEntry
entry_of none = none
entry_of (some (k, e)) = some e

abbrev pub fresh : ℕ → Option CacheEntry → Option Text
fresh now none = none
fresh now (some e) = if ltb e.exp now then none else some e.account

-- `cached`
unfoldable pub cached : ℕ → Text → Resolver → Option Text
cached now key r = fresh now (entry_of (find (λ c. c.0 == key) r.cache))

-- `store`; the newest entry of a key counts.
unfoldable pub store : ℕ → Text → Text → Resolver → Resolver
store now key account r = record {
  cache = (key, record { account = account; exp = now + lookup_cache_ttl }) ∷ r.cache;
}

abbrev pub is_success : ℕ → Bool
is_success code = leb 200 code && ltb code 300

-- `Resolve` with the body of a reply of status 2xx.
unfoldable pub named : ℕ → Text → Text → Option Text → Resolver → Outcome × Resolver
named now platform identifier none r = (transient, r)
named now platform identifier (some []) r = (not_found, r)
named now platform identifier (some (c ∷ account)) r =
    (found (c ∷ account), store now (key_of platform identifier) (c ∷ account) r)

-- `Resolve` with the reply.
unfoldable pub answered : ℕ → Text → Text → Reply → Resolver → Outcome × Resolver
answered now platform identifier unreachable r = (transient, r)
answered now platform identifier (replied code body) r =
    if code == 404
    then (not_found, r)
    else if is_success code
    then named now platform identifier body r
    else (transient, r)

unfoldable pub or_ask : Option Text → ℕ → Text → Text → Reply → Resolver → Outcome × Resolver
or_ask (some account) now platform identifier reply r = (found account, r)
or_ask none now platform identifier reply r = answered now platform identifier reply r

-- `Resolve`, at the time `now`, the reply arriving at the time `later`.
unfoldable pub resolve : ℕ → ℕ → Text → Text → Reply → Resolver → Outcome × Resolver
resolve now later platform identifier reply r =
    or_ask (cached now (key_of platform identifier) r) later platform identifier reply r
