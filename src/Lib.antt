-- ===== src/Lib.antt =====
-- A model of the MCP-over-MoQ transport (Go) in cubical type theory: the client and the server
-- transport of pkg/moqttransport with all that they stand on, the configuration of pkg/config, the MCP
-- service of pkg/mcpservice and the command line of cmd/mcp-moqt, with what makes them correct.
--
-- The parts. A client borrows QUIC connections from the pool; a server accepts them. A session has one
-- control track and three data tracks (resources, tools, notifications), each with a handler; a
-- subscription of the peer fills a publisher slot, through which a track writer sends; incoming objects
-- go through a track reader to the callback of a subscriber. The control connection carries JSON-RPC:
-- its writes are retried, their acknowledgements wait in the ack tracker, and a heartbeat closes it after
-- too many failures. Its OnClose tells the transport, which gives the connection back or forgets it.
--
-- - Base: Boolean tests, list helpers and maps on the native numbers. Go's int, int64 and int32 are bit
--   patterns, their operations wrap (Base/Word); a Go map is an association list (Base/Map).
-- - Errors: pkg/moqttransport/errors.go. An error value is compared by identity. Errors/Messages: the
--   constructors, causes and texts of the two error types. Logger: pkg/logger/logger.go.
-- - Config: pkg/config/config.go and its TLSConfig; Config/Files about files and the environment.
--   Config/Watch: pkg/config/watch.go; Config/Watch/Deliveries what its callback gets.
-- - Options: pkg/moqttransport/options.go; Options/Resolve: tls.go and the loading of pkg/config/tls.go;
--   Options/Sources about where a configuration comes from; Options/SelfSigned: the self-signed
--   certificate of tls.go.
-- - Pool, Pool/Sweep: QUICConnectionPool of pkg/moqttransport/quic_manager.go (get is Get, put is Put,
--   cleanup_expired is CleanupExpired, close is Close). Pool/Accounting and Pool/Sweep/Counts hold the
--   counters' invariant, Limits the size limit, Effects what happens to the connections.
-- - Streams: QUICStreamManager of the same file; Streams/Counters its invariant.
-- - Quic: QUICConnectionConfig, ToQUICConfig and QUICConfigBuilder of the same file, and
--   quicConfigToPoolConfig of client.go.
-- - Ack, Ack/Steps: AckTracker of pkg/moqttransport/ack.go. A step is `none` where the code would panic or
--   block with the lock held. Close is two steps, so that calls may come between its compare-and-swap and
--   the lock; a timer that fired and waits for the lock is a step of its own. Ack/Steps/Once: what became
--   of each call of Track.
-- - Tracks: PublisherSlot and TrackWriter of pkg/moqttransport/track_base.go; Tracks/Reading its
--   TrackReader; Tracks/Buffers its DataBuffer and what Read copies, over a memory of arrays and slices.
-- - Metrics: pkg/moqttransport/metrics.go; Metrics/Endpoint: metrics_http.go, what a scrape reads.
-- - Data: pkg/moqttransport/data_tracks.go and data_track_handler.go; Data/Publishing its Publish,
--   PublishStream and BatchPublish, Data/Info its GetTrackInfo and AttachSessionSubscribe, Data/Closing
--   what Close leaves behind. Data/Streaming: StreamMessages, its channel and its callback;
--   Data/Subscriptions: any sequence of the handler's operations, and the contexts that it gave out;
--   Data/Journey: from the publisher's BatchPublish to the subscriber's callback.
-- - Session: the subscribe handlers of pkg/moqttransport/session_handlers.go.
-- - Heartbeat: pkg/moqttransport/heartbeat.go. Retry: pkg/moqttransport/retry.go;
--   Retry/Agree about its two loops.
-- - Control: pkg/moqttransport/control_conn.go over the models of the tracker, the heartbeat, the retry
--   loop and the writer; Control/Writing its Write, Control/Reading its Read, Control/Closing and
--   Control/Acks about Close and the acknowledgements, Control/Exchange a request and its response,
--   Control/Histories all of it in any order, Control/Process many connections with the metrics of the
--   process, Control/Failing keepalives that fail.
-- - Client: pkg/moqttransport/client.go over the pool; Client/Decoding the JSON values and their decoding
--   into a struct, as `encoding/json` has them; Client/Leases and Client/Leaks about the
--   connections that it borrows.
-- - Server: pkg/moqttransport/server.go; Server/Serving its Accept, Connect, Serve and what it tells of
--   its sessions; Server/Live the sessions that its callers know of, Server/Mirrors and Server/Refinement
--   the server's maps against them, Server/Closing its Close, Server/Journey a data track from the server
--   program to the callback of its client.
-- - Discovery: the discovery handler of session_handlers.go, against the client that asks it.
-- - SessionIds: pkg/moqttransport/session_id.go.
-- - Service: the tools of pkg/mcpservice/capabilities.go; Service/Estimates the RTT tool;
--   Service/Capabilities what is registered, the prompts and the resources (and pkg/version).
-- - Transport: pkg/moqttransport/new_transport.go, transport.go and quic_moq.go.
-- - Command: cmd/mcp-moqt. Command/Serve its server and client commands, Command/Doctor the doctor,
--   Command/Probes the checks that the doctor makes (doctor_checks.go, ValidateCertPair of
--   pkg/config/tls.go).
-- - Examples: the theorems at concrete inputs.
--
-- Concurrency. A method that holds its lock throughout is one step; a history is a list of steps, each
-- with the clock's reading where the code reads the clock. Tests of `closed` before the lock are split
-- from the rest where a race matters (get_races and put_races of Pool/Sweep, late_subscribes of
-- Data/Subscriptions); the setup of an accepted connection is a step apart from its Accept (sets_up of
-- Server/Live), and each attempt of a Write of the control connection is a step of its own
-- (Control/Histories; Control/Writing has the Write that nothing comes between). A `select` with two ready cases takes a Boolean argument. `rand`, float64, json, jsonrpc,
-- yaml, crypto/tls, the file system, quic-go and moqtransport are parameters, and a context is the error
-- that it is done with, if any.
--
-- Bounds and fuel. Durations and instants are nanoseconds as natural numbers. Only `batch_loop` runs on
-- fuel: more rounds than there are messages are enough for a positive batch size, and its outcome is
-- `none` when the fuel is used up; a negative batch size (which panics in Go) is left out. Serve and Read
-- go through the list of what they meet, and wait when it ends; an attempt of Write that waits for a
-- publisher ends the run of Control/Writing.
--
-- Not modelled: the texts of tools, prompts and resources; the reading of the flags; the demonstration
-- programs under examples. The metrics of the process are shared in Control/Process only; elsewhere an
-- operation takes and returns the metrics that it changes.
pub mod Base
pub mod Errors
pub mod Pool
pub mod Streams
pub mod Quic
pub mod Ack
pub mod Tracks
pub mod Metrics
pub mod Data
pub mod Session
pub mod Heartbeat
pub mod Retry
pub mod Control
pub mod Client
pub mod Command
pub mod Transport
pub mod Logger
pub mod Server
pub mod Service
pub mod Discovery
pub mod SessionIds
pub mod Config
pub mod Options
mod Examples
