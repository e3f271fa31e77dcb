-- ===== src/Lib.antt =====
-- A model of Tileserve-GO, a server for map tile pyramids, with the theorems that make it right.
--
-- The program keeps maps, their versions and who may see or change them in Postgres, behind short
-- read caches (internal/store). A version is uploaded as a zip or tar archive, extracted into a
-- staging directory and listed in an index.json (internal/tilearchive). The HTTP handlers
-- (internal/webserver) check each request against the store before they act on a map, and resolve
-- the version that a path means. Another server's maps can be mirrored (internal/sync).
--
-- Which file models which part:
--   Prelude/: Go's strings, path/filepath, strconv and sort on lists of code points, and the monad
--     of code that reads and writes a state and may fail; what was written before a failure stays.
--     Keeps and Leads are its invariants and its pre- and postconditions.
--   Disk: the calls of `os` on a map from cleaned paths to nodes. Each call takes an entry off a
--     list of faults, so that theorems cover a failure at any call.
--   TileArchive/: internal/tilearchive/extract.go, paths.go and index.go. Names and Target are the
--     checks of an entry's name, Extract the loops over zip and tar entries, Archive the sniffing
--     and the staging directory, Index the list of tiles.
--   Store/: internal/store. Cache is ttlCache, Database the rows and the queries, State the struct
--     Store with a list of faults for its statements, Maps, Grants, Aliases and ApiKeys the methods
--     of maps.go, map_permissions.go with group_map_permissions.go, map_version_aliases.go and
--     api_keys.go with api_key_scopes.go, StringArray the text[] codec of the scopes, RefreshTokens
--     the tokens of refresh_tokens.go, Accounts and Membership the writes of users.go, groups.go and
--     group_membership.go. Reads takes all caches together for the callers.
--   Auth/: internal/auth/jwt, middleware.go and context.go. Jwt is what golang-jwt offers, Bearer the
--     choice of the key and ParseBearerToken, Middleware the request that a handler sees.
--   Webserver/: internal/webserver/authz.go and the checks of maps.go and map_aliases.go. A check
--     that returns lets the handler go on; one that fails has written its status. Bounds is
--     map_bounds.go, with its cache and handlers.
--   Sync/: internal/sync/sync.go and logs.go. Reconcile compares the remote's maps, versions, aliases
--     and geo objects with the local ones; Logs is the ring of log entries of each remote; Manager
--     is manager.go and the life of a worker's goroutine as a system of steps.
--
-- Bounds: the loops run over finite lists and are structural. Two functions take fuel:
-- Prelude/FilePath walks the segments of a path, and the digits of a number n are found within n + 1
-- divisions. Numbers are natural; the int of Go is bounded where a text is read as one (atoi, and
-- version::int of Postgres). Times are in nanoseconds and stand still within one method, but for the
-- two readings of the clock in IssueLoginToken; the times in its token are cut off to seconds.
--
-- Parameters: float64 with package math (Floats), archive/zip, archive/tar and compress/gzip
-- (Decoders), golang-jwt (Auth/Jwt), the test of a public key by crypto/x509, uuid.Parse, the random
-- parts of names (the staging directory, uuid.New, the suffix of a group's name), bcrypt, and the
-- hash and the random value of a refresh token. Not modelled: concurrent interleavings inside one
-- method, the columns for times and for who granted what, most handlers around the checks, login,
-- the sync's calls of the remote, the frontend.
pub mod Prelude
pub mod Disk
pub mod TileArchive
pub mod Store
pub mod Auth
pub mod Webserver
pub mod Sync
