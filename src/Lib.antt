-- ===== src/Lib.antt =====
-- Verification of mitm-core, an intercepting HTTP(S) proxy whose traffic runs through phases of
-- handlers and plugins. A client's socket gets a session, each of its requests a context and a
-- lifecycle; these three are the scope that the pipeline hands from handler to handler. Handlers and
-- plugins change the scope, ask for the next phase, abort, or throw; the transports relay bytes to the
-- upstream, and the response cache answers or records what it may.
--
-- The parts, the files that model them, and the code they stand for:
--
--   Prelude      tests on the native numbers and strings, lists, association lists for `Map` and for
--                header objects, texts (`toLowerCase`, `includes`, `parseInt`)
--   Net          what the code reads and changes of Node's sockets, requests and responses
--   Phase, Signals, State, Scope, Assign
--                src/phase/Phase.ts, src/core/signals, src/core/state/StateStore.ts and
--                src/core/scope/types.ts; Assign has one function per assignment to a field
--   Pipeline     src/core/pipelines/PipelineCompiler.ts: `handlePipelineFailure` and
--                `handlePipelineAbort` in Failure, `run` in Run, `compile` in Compile
--   Context      src/core/scope/ContextManager.ts: the maps and the sessions in Manager, the requests
--                and lifecycles in Request, and what can happen to them in any order in Steps
--   Cache        src/core/cache/ResponseCache.ts in Policy and Store, and ResponseCacheProcessor.ts in
--                Processor and Serve
--   Headers      src/core/utils/HeaderResolver.ts
--   Url          src/utils/parser/parseReqData.ts
--   Mutator      src/core/scope/ScopeMutator.ts
--   Events       src/core/event: `emitAsync` of the two buses
--   Middleware   src/middleware/middleware.ts: how each kind of traffic enters the pipeline
--   Transport    src/core/transport/http1: UpstreamInitiator.ts in Upstream, responseDispatcher.ts and
--                streamingResponseHandler.ts in Dispatch, H1OutboundBridge.ts in Bridge and Errors; the
--                callbacks of the first and the last are state machines whose events come in any order
--   Connections  src/core/connection/ConnectionManager.ts
--   Proxy        src/lib/Proxy.ts: registering plugins, `listen` and `stop`
--   Handlers     src/core/handlers: the handlers of the phases tcp, request and response
--   Rules        src/core/rule: the rule files and their registry
--   Transport/Ws src/core/transport/ws: WSUpstreamInitiator.ts in Dial, the message handlers of
--                WSOutboundBridge.ts in Messages and its tunnel in Tunnel
--   Certificates src/core/cache/CertificateCacheManager.ts in Files and Leaves, Cert_Worker.ts of
--                src/core/workers in Worker, src/core/security in Contexts
--   Handlers/Handshake  the handler of the phase handshake: its part before the TLS connection in Head,
--                the promise of the connection in Tls, Settling and Answering
--   Transport/Inbound  src/core/transport/http1/H1InboundBridge.ts: the decrypted server
--   Events/Bus   src/core/event/EventBus.ts: the registration of listeners, and reportProxyError
--   Streams      src/core/utils: the cleanup of streams and the guard of a socket
--   Proxy/Server the configuration, the events of the server and the signals of src/lib/Proxy.ts
--   Tests        the theorems at concrete scopes, sockets and responses
--
-- State is passed explicitly: a method takes the objects that it works on and returns those that it
-- changes. The objects that several maps share, in the context manager and in the cache, lie in a heap
-- and are named by references. A promise that is awaited is the value that it resolves to; a thrown
-- value is a second result. An error event that is reported is appended to the scope's `reported`.
--
-- Bounds: the loop over the phases recurses on the jumps that `MAX_JUMPS` leaves, so it needs no fuel of
-- its own. The drain of a stop looks for active requests on fuel, one more than its milliseconds, which
-- is more than an interval of 50 ms can fire. Other loops recurse on a list or a text. Numbers are exact;
-- times and sizes of the code stay far below 2 ^ 53. `toLowerCase` folds the ASCII letters, which are
-- those of header and host names.
--
-- Callbacks that Node may run in any order, as those of an upstream request, of a TLS connection, of a
-- WebSocket tunnel or of a rule file, are the constructors of a type of events, and a run is a list of
-- them; each event carries the scope as it stands when its callback starts. Calls that overlap between
-- their awaits, as those that ask for a certificate, are runs over a heap of tasks.
--
-- Parameters: lru-cache, `Date.parse`, `Date.now`, `URL`, `path`, forge, tls, ws, the pool of workers,
-- the parsers of rules, the listeners of the buses, the way that a stream ends, and what plugins throw.
--
-- Not modelled: the files of HTTP/2, which are empty; the abstract class of the plugins and the types of
-- the events, which hold no code that runs; logging, and the parts of Node that only move bytes.
mod Prelude
pub mod Net
pub mod Phase
pub mod Signals
pub mod State
pub mod Rules
pub mod Streams
pub mod Certificates
pub mod Scope
pub mod Assign
pub mod Pipeline
pub mod Context
pub mod Cache
pub mod Headers
pub mod Url
pub mod Mutator
pub mod Events
pub mod Middleware
pub mod Transport
pub mod Connections
pub mod Proxy
pub mod Handlers
mod Tests
