-- ===== src/Lib.antt =====
-- Crabwise watches local AI agents: adapters (a log watcher, a proxy, an OpenClaw client) turn what
-- agents do into audit events and send them to a bounded queue; one goroutine of the audit logger
-- takes them off, evaluates the commandments on them, redacts them, links them into a hash chain and
-- persists them in SQLite; queries read the table back and verify the chain. A gate lets an agent
-- ask beforehand. This library models the core of that path with two of the adapters, the log watcher
-- and the proxy, and, beside it, two registries and the correlation of requests.
--
-- Which file models what:
--   Common: names passed on from the libraries, lists with native lengths, Go strings as lists of
--     bytes, maps as association lists, results with errors, sorting by text.
--   Queue: internal/queue/queue.go. Channels are lists with a capacity. A send takes, as arguments,
--     the operations of other goroutines on both channels before its first select, between its
--     selects, and before its send on the control channel. Queue/Laws has a race with Close,
--     Queue/Account the balance of the counters.
--   Audit/Event, Audit/Canonical: internal/audit/events.go, the events, their canonical bytes and
--     hash. Canonical/Fields and Canonical/Injective state them as a list of fields.
--   Audit/Logger: internal/audit/logger.go, the closures of serializerLoop as functions on the state
--     they share; a round of the loop takes the arm that the select chooses, and at shutdown other
--     goroutines may work on the queue before each select. Logger/Outcome, Logger/Chain and
--     Logger/Shutdown have its laws, Logger/Drained and Logger/Ranks lemmas.
--   Audit/Integrity: VerifyIntegrity of internal/audit/query.go, on rows that are all read and, in
--     read_integrity, with the errors of the query and of Scan. Integrity/Reads is about these.
--   Store: internal/store/sqlite.go, the tables as lists and maps, and a transaction that may fail
--     at each statement. It fills the laws that Logger/Chain asks of a store.
--   Commandments: internal/commandments, the schema and its validation, matchers, the engine and
--     the redaction; Commandments/Service: internal/daemon/commandments_runtime.go and gate.go.
--   Classify: internal/classify, the registry of tools.
--   Discovery: internal/discovery/registry.go, the registry of agents.
--   OpenClaw: internal/openclawstate/store.go, the correlation of requests and chats.
--   Proxy: internal/adapter/proxy. Proxy itself is router.go, the choice of the provider for a
--     request, Provider the types of provider.go and tooluse.go, Targets the targets of tooluse.go,
--     Stream streaming.go, Redaction redaction.go, Policy the events of proxy.go and the
--     commandments on them. Handler is handleProxy: a call is a record of its variables, every
--     early return a function that gives the answer to the client, the events in the order they are
--     emitted, the counters and the request that was forwarded. Handler/Upstream goes on from the
--     provider's response to the ways to end that Handler/Ends has; Handler/Recorded and Answered
--     follow every way to the end, Handler/Laws and Handler/Released are about all of them.
--   LogWatcher: internal/adapter/logwatcher. LogWatcher itself is tailFile of logwatcher.go over the
--     bytes of a file, with the scanner of package bufio, and parser_router.go; a tail gives the
--     events it sends, each without waiting for room, and the offset it stores itself.
--     ClaudeCode is claudecode.go and classifier.go, Codex is codexcli.go with the models of the
--     sessions as the state. Lines, Sent and Laws are about tails, Stored about their
--     events in the store, Numbered and Usage about the events of a line.
--   The Tests and Samples modules apply the theorems to concrete data.
--
-- Parameters: regular expressions, doublestar globs and float64 (record Host of Commandments), JSON,
-- time layouts and SHA-256 (record Services of Audit/Logger), SQL errors (record Sql of Store), what
-- the proxy is built over (records Environment of Proxy/Policy, Http of Handler/Parts, Transport and
-- Mapping of Proxy/Provider), the decoding of log lines (records Decoder and CodexDecoder). What
-- is assumed of them is a hypothesis where it is used: FindsMatches for the matches of a regular
-- expression, StoreLaws for a store, RedactorKeepsOutcome for a redactor. No property of SHA-256
-- is assumed: a theorem may end in a collision.
--
-- Bounds: integers that the code keeps in 64 bits are written to bytes modulo 2 ^ 64, and all
-- counters wrap at 2 ^ 64. The one fuel is that of the shutdown loop, one round more than what both
-- channels hold and other goroutines may still add; each round takes one value. A line of a log has fewer than 2 ^ 20 bytes.
-- Strings are bytes; case folding and trimming are those of ASCII.
--
-- Not modelled: the OpenClaw adapter, the proxy's mapping of formats, transports, TLS and CONNECT,
-- the watching of directories, raw payload files, the daemon's start, IPC, the command line and
-- terminal interfaces, certificates, notifications, telemetry and service installation, which are
-- I/O or presentation; YAML and JSON decoding; SQL queries other than those named; the goroutine
-- and timer mechanics of the logger; what other goroutines do to the queue during the logger's drains
-- of the control channel and after the last select of its shutdown; log output.

pub mod Common
pub mod Queue
pub mod Audit
pub mod Store
pub mod Commandments
pub mod Classify
pub mod Discovery
pub mod OpenClaw
pub mod Proxy
pub mod LogWatcher
