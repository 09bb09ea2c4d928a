-- ===== src/Proxy/Server.antt =====
-- lib/Proxy.ts: the configuration that the constructor registers, the handlers of the HTTP server's
-- events, and those of the process's signals. The awaited emission of an event is a parameter.
pub mod Answered
use mitm_core.Prelude.{
  ℕ, suc, zero, String, Bool, true, false, not, ◌&&◌, ◌||◌, Option, none, some, List, [], ◌∷◌, ◌++◌,
  if◌then◌else◌, ◌==◌, nat_eq, string_eq, or_else,
}
use mitm_core.Net.{
  Ref, Socket, Response, IncomingMessage, text, chars, respond, destroy_socket, destroy_response,
}
use mitm_core.Signals.{Thrown, error}
use mitm_core.Scope.{RequestScope, ExplicitHeaderOverrides}
use mitm_core.Assign.{report, set_res, set_client}
use mitm_core.Context.Manager.{Manager}
use mitm_core.Context.Request.{destroy_request_lifecycle}
use mitm_core.Connections.{Connections, track}

-- `ProxyOptions`; `root_ca` and `server` are objects.
pub record Options : Type 0 where
  pub server : Option Ref
  pub use_certificate_cache : Option Bool
  pub leaf_cache_dir : Option String
  pub use_response_cache : Option Bool
  pub use_default_pipelines : Option Bool
  pub root_ca : Option Ref
  pub handshake_timeout_ms : Option ℕ
  pub upstream_timeout_ms : Option ℕ
  pub plugin_timeout_ms : Option ℕ
  pub global_header_overrides : Option ExplicitHeaderOverrides

-- The configuration of a proxy, in which `globalHeaderOverrides` may be missing.
pub record Config : Type 0 where
  pub use_certificate_cache : Bool
  pub leaf_cache_dir : String
  pub use_response_cache : Bool
  pub use_default_pipelines : Bool
  pub root_ca : Ref
  pub handshake_timeout_ms : ℕ
  pub upstream_timeout_ms : ℕ
  pub plugin_timeout_ms : ℕ
  pub global_header_overrides : Option ExplicitHeaderOverrides

-- The constructor's object; `default_dir` is `DEFAULT_LEAF_DIR`, and `empty_ca` an object with an
-- empty key and certificate.
unfoldable pub config_of : String → Ref → Options → Config
config_of default_dir empty_ca options = record {
  use_certificate_cache = or_else options.use_certificate_cache true;
  leaf_cache_dir = or_else options.leaf_cache_dir default_dir;
  use_response_cache = or_else options.use_response_cache false;
  use_default_pipelines = or_else options.use_default_pipelines true;
  root_ca = or_else options.root_ca empty_ca;
  handshake_timeout_ms = or_else options.handshake_timeout_ms 10000;
  upstream_timeout_ms = or_else options.upstream_timeout_ms 30000;
  plugin_timeout_ms = or_else options.plugin_timeout_ms 10000;
  global_header_overrides = none;
}

-- The process-wide registry, and what it says of the overrides.
pub record Registry : Type 0 where
  pub config : Option Config
  pub overrides : Option ExplicitHeaderOverrides

overrides_after :
    Option ExplicitHeaderOverrides → Option ExplicitHeaderOverrides → Option ExplicitHeaderOverrides
overrides_after old none = old
overrides_after old (some new) = some new

-- `registerGlobalConfig`: `Object.assign` keeps a key that the new object lacks.
unfoldable pub register_global_config : Config → Registry → Registry
unfolding overrides_after
register_global_config config r = record {
  config = some config;
  overrides = overrides_after r.overrides config.global_header_overrides;
}

destroy_once : Socket → Socket
destroy_once k = if k.destroyed then k else destroy_socket k

-- What a handler of a server event leaves.
pub record Served : Type 0 where
  pub scope : RequestScope
  pub socket : Socket
  pub reported : List Thrown

caught : RequestScope × Option Thrown → Socket → Served
unfolding destroy_once
caught (s, none) k = record { scope = s; socket = k; reported = [] }
caught (s, some e) k = record { scope = s; socket = destroy_once k; reported = e ∷ [] }

-- The server's "connect" and "upgrade": the scope is the one of the socket.
unfoldable pub on_server_connect :
    (RequestScope → RequestScope × Option Thrown) → IncomingMessage → RequestScope → Socket → Served
unfolding caught
on_server_connect emit req s k =
    caught (emit (set_client (record (s.request.client) { req = some req }) s)) k

unfoldable pub on_server_upgrade :
    (RequestScope → RequestScope × Option Thrown) → RequestScope → Socket → Served
unfolding caught
on_server_upgrade emit s k = caught (emit s) k

-- The server's "connection": the socket is tracked, and destroyed if the emission of "TCP" throws.
unfoldable pub on_server_connection : Option Thrown → Ref → Connections → Connections × List Thrown
unfolding destroy_once
on_server_connection none ref c = (track ref c, [])
on_server_connection (some e) ref c =
    let tracked = track ref c in
    (
      record tracked {
        sockets = λ r. if ref == r then destroy_once (tracked.sockets r) else tracked.sockets r;
      },
      e ∷ [],
    )

-- The answer to an error of "HTTP:PLAIN", where the response is not over.
unfoldable pub answer_internal : Response → Response
answer_internal res =
    if res.destroyed || res.writable_ended
    then res
    else if res.headers_sent
    then destroy_response res
    else respond 500 (("Content-Type", text "text/plain") ∷ ("Connection", text "close") ∷ [])
        (chars "Internal Proxy Error") res

answer_in : RequestScope → Option Response → RequestScope
unfolding answer_internal
answer_in s none = s
answer_in s (some res) = set_res (answer_internal res) s

after_plain : RequestScope × Option Thrown → RequestScope × List Thrown
unfolding answer_in
after_plain (s, none) = (s, [])
after_plain (s, some e) = (answer_in s s.request.client.res, e ∷ [])

-- The server's "request".
unfoldable pub on_server_request :
    (RequestScope → RequestScope × Option Thrown)
    → IncomingMessage
    → Response
    → RequestScope
    → RequestScope × List Thrown
unfolding after_plain
on_server_request emit req res s =
    after_plain (emit (set_client (record (s.request.client) { req = some req; res = some res }) s))

-- The "close" of a plain request's response.
unfoldable pub on_response_close : RequestScope → Manager → Manager
on_response_close s m = destroy_request_lifecycle s.request.request_id m

-- The server's "error": those of the start are left to `listen`.
unfoldable pub on_server_error : Option String → Thrown → List Thrown
on_server_error code e =
    if or_else code "" == "EADDRINUSE" || or_else code "" == "EACCES" then [] else e ∷ []

-- The handlers of the three signals: how many of them the process holds, whether the proxy holds
-- their cleanup, and how often `stop` was called by them.
pub record ShutdownHandlers : Type 0 where
  pub registered : ℕ
  pub has_cleanup : Bool
  pub stops : ℕ

unfoldable pub install_shutdown_handlers : ShutdownHandlers → ShutdownHandlers
install_shutdown_handlers h =
    if h.has_cleanup
    then h
    else record h { registered = suc (suc (suc h.registered)); has_cleanup = true }

-- A signal that a handler is registered for: the cleanup takes all three off, and `stop` is called.
unfoldable pub on_signal : ShutdownHandlers → ShutdownHandlers
on_signal h =
    if h.registered == 0
    then h
    else record h { registered = 0; has_cleanup = false; stops = suc h.stops }

unfoldable pub on_signals : ℕ → ShutdownHandlers → ShutdownHandlers
on_signals zero h = h
on_signals (suc n) h = on_signals n (on_signal h)
