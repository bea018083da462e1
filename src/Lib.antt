-- ===== src/Lib.antt =====
-- A model of the parts of SoundCloud Desktop that decide things: the local proxy that disguises the
-- first packet of a TLS connection, the queue that carries a user's likes, follows and comments to
-- SoundCloud, the cache of tracks on the disk, the requests and the sources of the streaming service,
-- the backend's cache of lists and requests to link devices, and the uploads of the storage service.
--
-- The parts and how they interact:
-- * Desync models utils/dpi-desync. `Hello` is the parser of a ClientHello and `Tamper` what is
--   written upstream for it (src/tamper.rs); `Strategy` is the switch and the strategy that the
--   proxy shares with the probe (src/state.rs, src/probe.rs); `Socks` is one session of the proxy
--   (src/socks.rs), which reads the strategy once and hands the first flight to `Tamper.apply`.
-- * SyncQueue models backend/src/modules/sync_queue. `Actions` are the kinds of action and their
--   inverses, `Table` the rows of the table and the parts of SQL the statements use, `Failure` how an
--   error is told apart (backend/src/sc/errors.rs) and cut to length, `Service` the requests of users
--   and the runs of the worker, `Mirror` the local copy of what a user likes, which the requests of
--   backend/src/modules/likes change together with the queue.
-- * Streaming models parts of streaming/src. `Cookie` reads one cookie and decodes it (config.rs), and
--   `CookiesPool` hands a call to the accounts in turn (stream/cookies_pool.rs); an account is in the
--   pool if its cookies hold a token. `Hls` downloads the segments of a playlist, with the batches, the
--   refreshes of the playlist and the check of the first part, and `Playlist` reads a playlist
--   (stream/hls.rs). `Handler` is the request for a track (stream/handler.rs), which asks the storage and
--   then its sources in turn, and `Breaker` the storage as this service sees it, with the breaker that
--   leaves it alone after three failures (stream/storage.rs). `Oauth` is the source that uses the token of
--   a session (stream/oauth.rs), and `Restricted` the choice of an encrypted transcoding
--   (stream/restricted.rs).
-- * TrackCache models parts of desktop/src-tauri/src/track_cache/state.rs. `Names` are the names of
--   cached files, `Audio` the test of what was downloaded, `Disk` one directory, and `Write` the two
--   writers that bring a download into it, which use all three. `Sources` is the chain of sources of
--   a download, each of which ends in a writer, and `Files` the lookup, the removal and the promotion
--   of tracks in the two directories. `Coalesce` is what the requests do that share one download, as a
--   step relation: the steps of the tasks come in any order. `Evict` is the limit on the size.
-- * ListCache models backend/src/cache/list_cache_service.rs: a list that comes from SoundCloud in chunks
--   is kept in Redis as far as it was fetched, and is handed out in pages. `Upstream` is what it stands
--   for, the whole list, and `Pages` that a page is a page of it.
-- * Links models backend/src/modules/auth/link_service.rs: a device hands its session to another one by
--   a token. `Spent` is about claims of a token one after the other, and `Once` about all the calls of
--   the service and about claims that overlap: a claim is in two halves there, what it reads and what it
--   writes.
-- * Storage models parts of storage/src. `Files` are the files it works with, `Pipeline` is a batch of
--   uploads from the probes of the durations to the last answer (pipeline.rs, transcode.rs), and
--   `Local` the backend that keeps the tracks in a directory (backend/local.rs). What the pipeline
--   relies on of a backend is `Pipeline.Batch.Lawful`, and `Local.Paths` puts the two together.
--   `Upload` is the request that brings a file (routes/upload.rs) and hands it to the pipeline,
--   which `Upload.Submit` puts behind it; `Quota` is the counter of bytes that all requests share, with
--   their steps in any order.
-- * Errors are the errors of the backend (backend/src/error.rs), which ListCache and Links return.
-- * Prelude holds the shared names. `Prelude.Outcome` is what Rust code does that can panic.
--
-- How the code corresponds. A byte, a length and a time (in seconds, or in milliseconds where a comment
-- says so) are natural numbers; a `usize`
-- subtraction that the source writes with `-` is a step that panics below 0, an index or a slice out
-- of range is a panic, and `saturating_sub` is the subtraction that stops at 0. A socket that is
-- written to is a function from the number of the write to whether it succeeds; a model of a write
-- path returns the segments that were taken. A statement of SQL is a function on the list of rows,
-- and each runs alone; a statement that fails is not modelled, except where the code goes on.
--
-- Fuel. The loop over the extensions of a hello runs on the length of its payload, and each turn
-- moves ahead by four bytes at least, so the loop ends at the same place as in the source. The loop
-- over the missing segments runs on four turns: a batch that fails costs one of the two refreshes, the
-- third failure is an error, and the last turn finds that nothing is missing. A run that is short of
-- turns counts as a panic. The loop over the chunks of a list counts down the eight chunks that the
-- source allows to a request, and the loop that commits a track the attempts that its settings allow. All other loops run over a list.
--
-- Not modelled: timers, sockets, HTTP, Redis and the database server; the user interface, the audio and
-- the windows of the desktop application; the lyrics, the enrichment, the recommendations and the
-- sessions of the backend; and the modules of the backend, of the streaming and the storage service that
-- only join others.
pub mod Prelude
pub mod Desync
pub mod Errors
pub mod Links
pub mod ListCache
pub mod Storage
pub mod Streaming
pub mod SyncQueue
pub mod TrackCache
