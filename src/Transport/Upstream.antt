-- ===== src/Transport/Upstream.antt =====
-- UpstreamInitiator.ts: the upstream request, from its creation to the end of the client's body. The
-- callbacks of `initH1UpstreamReq` share flags; each is a function of them and of the scope. Making
-- the request itself is a call of Node with the options of `upstream_options`.
pub mod Guards
use Prim.Native.String.{◌++◌ as append}
use mitm_core.Prelude.{
  ℕ, ◌+◌, String, Bool, true, false, not, ◌&&◌, ◌||◌, Option, none, some, List, [], ◌∷◌,
  if◌then◌else◌, ◌==◌, string_eq, or_else, is_some,
}
use mitm_core.Prelude.Assoc.{insert}
use mitm_core.Net.{Headers, Response, IncomingMessage, ClientRequest, text, end_with, chars}
use mitm_core.Signals.{Thrown, signal, error, object, primitive}
use mitm_core.Scope.{RequestScope, ExplicitHeaderOverrides}
use mitm_core.Assign.{set_res, set_client, set_timestamps, report}
use mitm_core.Url.{Url}
use mitm_core.Headers.{resolve_request_headers}
use mitm_core.Transport.Dispatch.{code_of}

-- What `request` of `http` or `https` is given.
pub record UpstreamOptions : Type 0 where
  pub is_https : Bool
  pub host : String
  pub port : String
  pub servername : Option String
  pub method : Option String
  pub path : String
  pub headers : Headers

-- `none` is the exception for a scope with no client request.
unfoldable pub upstream_options :
    Option ExplicitHeaderOverrides → Url → RequestScope → Option UpstreamOptions
upstream_options globals url s = elim s.request.client.req [
  | none ↦ none
  | some req ↦
      let is_https = url.protocol == "https:" in
      some (record {
        is_https = is_https;
        host = url.hostname;
        port = if url.port == "" then (if is_https then "443" else "80") else url.port;
        servername = if is_https then some url.hostname else none;
        method = req.method;
        path = append url.pathname url.search;
        headers =
            insert "connection" (text "keep-alive")
              (insert "host" (text url.host) (resolve_request_headers globals s));
      })
]

-- `handleUpstreamFailure`.
unfoldable pub handle_upstream_failure : RequestScope → RequestScope
handle_upstream_failure s = elim s.request.client.res [
  | none ↦ s
  | some res ↦
      if not res.headers_sent && not res.writable_ended
      then set_res (end_with (chars "Bad Gateway") (record res { status_code = 502 })) s
      else s
]

-- How `connectEventPromise` was settled.
pub data Connect : Type 0 where
  pending connected : Connect
  refused : Thrown → Connect

-- The flags of `initH1UpstreamReq`; `pipelines` counts the calls of `pipeline(clientReq, upstream)`.
pub record Flags : Type 0 where
  pub scope : RequestScope
  pub upstream_destroyed : Bool
  pub client_disconnected : Bool
  pub cleaned_up : Bool
  pub request_pipeline_started : Bool
  pub upstream_failed : Bool
  pub pipeline_aborted : Bool
  pub connect : Connect
  pub pipelines : ℕ
  -- The 502 answers that the callbacks tried.
  pub failures : ℕ

-- `cleanupClientListeners`: from then on no callback of the client's side is called.
unfoldable pub cleanup_client_listeners : Flags → Flags
cleanup_client_listeners f = record f { cleaned_up = true }

unfoldable pub on_client_disconnect : Flags → Flags
unfolding cleanup_client_listeners
on_client_disconnect f =
    if f.scope.lifecycle.is_hijacked || f.client_disconnected || f.cleaned_up
    then f
    else cleanup_client_listeners
        (record f { client_disconnected = true; upstream_destroyed = true })

-- `readable_ended` says whether the client's body was read to its end.
unfoldable pub on_client_aborted : Bool → Flags → Flags
on_client_aborted readable_ended f = if readable_ended then f else on_client_disconnect f

-- The `close` of the client's response: both of its listeners.
unfoldable pub on_client_response_close : Flags → Flags
unfolding cleanup_client_listeners
on_client_response_close f =
    let ended : Bool = elim f.scope.request.client.res [
      | none ↦ false
      | some res ↦ res.writable_ended
    ] in
    cleanup_client_listeners (if ended then f else on_client_disconnect f)

unfoldable pub on_pre_pipeline_error : Thrown → Flags → Flags
on_pre_pipeline_error e f =
    if f.request_pipeline_started || f.client_disconnected || f.pipeline_aborted
      || f.scope.lifecycle.is_hijacked || f.upstream_failed
    then f
    else record f {
      upstream_failed = true;
      failures = f.failures + 1;
      scope = handle_upstream_failure (report e f.scope);
    }

unfoldable pub start_request_pipeline : Flags → Flags
start_request_pipeline f =
    if f.request_pipeline_started || f.upstream_failed || f.client_disconnected
      || f.upstream_destroyed
    then f
    else record f { request_pipeline_started = true; pipelines = f.pipelines + 1 }

-- The callback of `pipeline(clientReq, upstream)`.
unfoldable pub on_pipeline_end : Option Thrown → Flags → Flags
on_pipeline_end none f = f
on_pipeline_end (some e) f =
    if f.client_disconnected
      || code_of e == "ERR_UPSTREAM_TIMEOUT"
      || code_of e == "ERR_STREAM_PREMATURE_CLOSE"
      || code_of e == "ERR_CLIENT_DISCONNECTED"
    then f
    else record f { failures = f.failures + 1; scope = handle_upstream_failure (report e f.scope) }

drop_upstream : Thrown → Flags → Flags
drop_upstream e f = record f {
  connect = connected;
  scope = report e f.scope;
  upstream_destroyed = true;
}

-- `dispatchUpstreamConnect`, once the plugins of `proxy:upstream-connect` are done: the argument is
-- what they threw.
unfoldable pub dispatch_upstream_connect : Option Thrown → Flags → Flags
unfolding start_request_pipeline drop_upstream
dispatch_upstream_connect none f =
    if f.scope.lifecycle.is_hijacked || f.upstream_failed || f.upstream_destroyed
    then record f { connect = connected }
    else record (start_request_pipeline f) { connect = connected }
dispatch_upstream_connect (some (signal sig)) f = record f {
  pipeline_aborted = true;
  connect = refused (signal sig);
  upstream_destroyed = true;
}
dispatch_upstream_connect (some (error a b)) f = drop_upstream (error a b) f
dispatch_upstream_connect (some (object a b c)) f = drop_upstream (object a b c) f
dispatch_upstream_connect (some (primitive a)) f = drop_upstream (primitive a) f

pub data UpstreamEvent : Type 0 where
  client_closed response_closed response_finished : UpstreamEvent
  client_aborted : Bool → UpstreamEvent
  upstream_error : Thrown → UpstreamEvent
  connect_dispatched pipeline_ended : Option Thrown → UpstreamEvent

-- The events of the streams; the scope is as it is when the callback starts. Node destroys a request
-- before it emits its `error`.
unfoldable pub on_event : RequestScope → UpstreamEvent → Flags → Flags
on_event s client_closed f = on_client_disconnect (record f { scope = s })
on_event s response_closed f = on_client_response_close (record f { scope = s })
on_event s response_finished f = cleanup_client_listeners (record f { scope = s })
on_event s (client_aborted ended) f = on_client_aborted ended (record f { scope = s })
on_event s (upstream_error e) f =
    on_pre_pipeline_error e (record f { scope = s; upstream_destroyed = true })
on_event s (connect_dispatched thrown) f = dispatch_upstream_connect thrown (record f { scope = s })
on_event s (pipeline_ended thrown) f = on_pipeline_end thrown (record f { scope = s })

unfoldable pub on_events : List (RequestScope × UpstreamEvent) → Flags → Flags
on_events [] f = f
on_events ((s, e) ∷ events) f = on_events events (on_event s e f)

-- The flags right after `request` was called, at the time `now`.
unfoldable pub init_flags : ℕ → RequestScope → Flags
init_flags now s = record {
  scope = set_timestamps (record (s.lifecycle.timestamps) { upstream_sent_at = some now }) s;
  upstream_destroyed = false;
  client_disconnected = false;
  cleaned_up = false;
  request_pipeline_started = false;
  upstream_failed = false;
  pipeline_aborted = false;
  connect = pending;
  pipelines = 0;
  failures = 0;
}
