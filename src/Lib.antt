-- ===== src/Lib.antt =====
-- jproxy-go: a proxy between Sonarr or Radarr and the indexers (Jackett, Prowlarr) and downloaders
-- (qBittorrent, Transmission) that they use. A search that comes in is expanded to several titles, the
-- answers are merged into one feed, and releases are renamed by rules; rules and titles are kept in a
-- database and published to the request handlers as snapshots.
--
-- Which file is about which part (paths are from the root of the repository):
--   Cache              internal/cache/cache.go, the TTL cache behind the results, the offsets and the
--                      markers. `set`, `get`, `delete_locked` and `clear` are the methods; `read` and
--                      `delete_locked` are the two critical sections of Get, so that other calls can come
--                      between them (Cache.Lookups.step).
--   Runtime.Gate       internal/runtime/title_sync_gate.go, which lets one title synchronisation of a kind
--                      run at a time. `begin`, `finish` and `clear` are the methods.
--   Runtime.Snapshot   internal/runtime/snapshot.go with the admissions of downloader mutations: what a
--                      publication of some scopes takes from the store, and its revisions.
--   Runtime.Registry   internal/runtime/registry.go, the invalidation of caches by name. It uses Cache,
--                      Runtime.Gate and the refresh of Runtime.Snapshot.
--   Search             internal/search/candidate.go, the search candidates that a snapshot holds.
--   Proxy              internal/proxy: Proxy.Patterns the regular expressions of format.go, Proxy.Titles
--                      the expansion of a search by the candidates of a snapshot (search_expansion.go),
--                      Proxy.Xml the feeds (xml.go), Proxy.Query the query parameters, Proxy.Paging
--                      the loop of executeExpandedSearch (server.go), which asks for one title after the
--                      other and remembers in the offset cache where each title ended, and Proxy.Handler
--                      the handler around it with the result cache (handleIndexer), which uses Cache.
--                      Proxy.Downloads has the handlers that pass requests on to the downloaders
--                      (qbittorrent.go, transmission.go).
--   Tasks              internal/tasks: Tasks.Schedule has the schedules (schedule.go), and
--                      Tasks.Scheduler the goroutines that startRun starts, the semaphore and the states
--                      of the jobs (scheduler.go). Tasks.Rename plans the renaming of a torrent's files
--                      (rename/plan.go), with package path written out on segments.
--                      Tasks.Rename.History reads what was grabbed (rename/history.go), and
--                      Tasks.Rename.Service runs over it (rename/service.go), by those plans.
--   Sync               internal/sync: Sync.Title maps series and films to rows of titles (title/id.go,
--                      title/sonarr_mapper.go, title/radarr_mapper.go). Sync.Rule validates rules and
--                      commits them by author (rule/validation.go, rule/types.go, rule/service.go).
--   Auth               internal/auth: Auth.Revocations has the revoked tokens (revocation.go), and
--                      Auth.Tokens issues and verifies tokens and guards handlers (token.go,
--                      middleware.go), with those revocations.
--   Config             internal/config/config.go, the configuration from the environment.
--   Downloader         internal/downloader: what the two clients share. Downloader.Qbittorrent has the
--                      requests of qbittorrent/client.go and the admitted ones of mutation.go, and
--                      Downloader.Qbittorrent.Operations login, the attempts and the operations.
--                      Downloader.Transmission has the requests of transmission/client.go, and
--                      Downloader.Transmission.Calls the calls made of them, with mutation.go and
--                      protocol.go, and Downloader.Transmission.Operations the operations. Both read the
--                      snapshots of Runtime.Snapshot; Transmission uses Transmissionconfig.
--   Transmissionconfig internal/transmissionconfig/transmissionconfig.go, endpoints and credentials.
--   Format             internal/format: the records of the rules and titles in a snapshot, and in
--                      Format.Validation which of them are accepted (radarr.go, sonarr.go).
--                      Format.Cleaning has CleanTitle (radarr.go).
--   Common             what these share: texts, integers, maps, and functions of package strings and
--                      strconv.
-- A part that is larger has its definitions in the file named, its theorems in files below it, and tests
-- on concrete inputs, with an application of each theorem, in a file Examples.
--
-- How code is modelled. State is passed explicitly; a method under a lock is one step. Time is an argument,
-- in nanoseconds or seconds as in the source. A Go string is the list of its code points (`Text`), valid
-- UTF-8 throughout; where the source counts bytes, so does `utf8_length`. An `int` is an integer `ℤ` or,
-- where it cannot be negative, a native number; a uint64 that counts is taken modulo 2 ^ 64 (`u64`), and
-- the offset and the limit of a paged search wrap around at 64 bits (`wrap`); other sums are taken not to
-- overflow. An error is `none`, or a value of a data type where the source tells
-- errors apart; an index out of range is an outcome of its own in the paging loop.
--
-- Fuel. The loop of Set that makes room gets the number of entries and one more; the search for the next
-- instant gets the seconds of its 72 hours and two more; the digits of a number get the number and one
-- more: at least one unit for each turn. The loop of login in Downloader.Qbittorrent goes round again only when
-- the configuration was published meanwhile, so the fuel that it needs is one more than the publications
-- that are left; without it the result is `unfinished`, which is no value of the code.
--
-- Parameters. The upstream of the indexer proxy answers a request by all the requests before it and that
-- request (Proxy.Paging); the clock of a location gives the hour, the minute and the second of an instant
-- (Tasks.Schedule); url.Parse and URL.String (Transmissionconfig); the loader of a snapshot and the
-- cancellation of its context (Runtime.Snapshot.Refresh); the function that names a file (Tasks.Rename), and
-- in radarr_name the expressions for extensions; base64, JSON, HMAC and the random identifiers of tokens
-- (Auth.Tokens.Codec); the environment, the JSON of rules and titles, and whether an expression compiles
-- (Config, Format.Validation). The clients of the downloaders run in a type of worlds: a snapshot, a request
-- or an admission gives its answer and the next world, so that the configuration may be published between
-- any two of them (the records Env); url.Parse, query escapes and JSON are the records Codec there.
-- Packages regexp and unicode are the record Engine of Format.Cleaning. The handlers of Proxy.Downloads get
-- url.Parse, the canonical names of headers and the answers of net/http; the renaming service gets the
-- history, the clock, the configuration and the downloaders as the record Options, and its history the query
-- and JSON; Sync.Rule gets the groups of an expression, and its client and store as the record Parts.
--
-- Not modelled: the formatters of internal/format and the names they give files, the cache keys and upstream
-- requests of the indexer proxy, the timers of the scheduler in internal/tasks, the SQLite store, the clients
-- of internal/sync with the services of titles and of TMDB, the management API, the start of the process and the web UI. These are input
-- and output for the most part, or rest on SQL and on the engine of package regexp; the expressions of
-- internal/proxy/format.go, which are anchored at the end, are written out. Slices that the source shares
-- between a cache and its callers are values here, so that two requests which write to one cached slice at a
-- time are not modelled; nor are operations of one downloader client that run at a time.
pub mod Common
pub mod Cache
pub mod Format
pub mod Search
pub mod Sync
pub mod Proxy
pub mod Auth
pub mod Config
pub mod Downloader
pub mod Transmissionconfig
pub mod Tasks
pub mod Runtime
