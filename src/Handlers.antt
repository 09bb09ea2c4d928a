-- ===== src/Handlers.antt =====
-- core/handlers: what the handlers of the phases `tcp`, `request` and `response` do. The section's
-- parameters are the platform's `URL`, the configured overrides, the call that makes the upstream
-- request, which may throw, and the awaited plugins of `proxy:upstream-dispatch`.
pub mod Requests
pub mod Handshake
use Prim.Native.String.{◌++◌ as append}
use mitm_core.Prelude.{
  ℕ, String, Bool, true, false, Option, none, some, ◌⊎◌, inl, inr, if◌then◌else◌, or_else, ◌==◌,
  string_eq,
}
use mitm_core.Prelude.Text.{starts_with}
use mitm_core.Net.{Response, IncomingMessage, ClientRequest, chars, end_with, header_text}
use mitm_core.Signals.{Thrown, error}
use mitm_core.Scope.{RequestScope, HttpVersion, ExplicitHeaderOverrides}
use mitm_core.Assign.{set_res, set_client, set_timestamps, set_socket}
use mitm_core.Url.{Url, UrlLib, non_empty}
use mitm_core.Mutator.{apply_upstream_init_state}
use mitm_core.Transport.Upstream.{UpstreamOptions, upstream_options, handle_upstream_failure}

-- `TcpHandler.handle`; the guard that it puts on the socket only logs and destroys it on its close.
unfoldable pub tcp_handle : RequestScope → RequestScope
tcp_handle s =
    if s.session.socket.destroyed
    then s
    else set_socket (record (s.session.socket) { no_delay = true }) s

abbrev pub is_h1 : RequestScope → Bool
is_h1 s = elim s.session.protocol.http_version [
  | none ↦ false
  | some v ↦ elim v [ HttpVersion.h1 ↦ true | _ ↦ false ]
]

-- `ResponseHandler.handle`: the bridge for HTTP/1; any other version resolves at once.
unfoldable pub response_handle :
    (RequestScope → RequestScope × Option Thrown) → RequestScope → RequestScope × Option Thrown
response_handle bridge s = if is_h1 s then bridge s else (s, none)

-- `res.statusCode = code; res.end(body)`.
end_as : ℕ → String → Response → Response
end_as code body res = end_with (chars body) (record res { status_code = code })

refuse_with : ℕ → String → RequestScope → RequestScope
unfolding end_as
refuse_with code body s = elim s.request.client.res [
  | none ↦ s
  | some res ↦ set_res (end_as code body res) s
]

-- A version that the proxy does not know, without a request or a response to fall back on.
refuse_version : RequestScope → RequestScope
unfolding end_as
refuse_version s = elim s.request.client.res [
  | none ↦ s
  | some res ↦
      if res.writable_ended then s else set_res (end_as 505 "HTTP Version Not Supported" res) s
]

module _ (lib : UrlLib) (globals : Option ExplicitHeaderOverrides)
    (make : UpstreamOptions → Thrown ⊎ ClientRequest)
    (emit_dispatch : RequestScope → RequestScope × Option Thrown) where
  -- The URL to ask for; `host` stands in where the target and the request name none.
  unfoldable pub target_of_request : String → IncomingMessage → RequestScope → Option Url
  target_of_request host req s = elim (non_empty s.request.target.url) [
    | some url ↦ lib.parse url
    | none ↦
        if starts_with (or_else req.url "") "http"
        then lib.parse (or_else req.url "")
        else lib.parse_from (or_else (non_empty req.url) "/") (append "https://" host)
  ]

  -- `initH1UpstreamReq` threw as it made the request.
  fail_to_make : IncomingMessage → RequestScope → RequestScope
  fail_to_make req s =
      handle_upstream_failure
        (set_client (record (s.request.client) { req = some (record req { destroyed = true }) }) s)

  unfoldable pub after_made :
      IncomingMessage → RequestScope → Thrown ⊎ ClientRequest → RequestScope × Option Thrown
  unfolding fail_to_make
  after_made req s (inl e) = (fail_to_make req s, some e)
  after_made req s (inr upstream) = emit_dispatch (apply_upstream_init_state s upstream)

  unfoldable pub make_upstream :
      ℕ → IncomingMessage → RequestScope → Option UpstreamOptions → RequestScope × Option Thrown
  unfolding after_made
  make_upstream now req s none = (s, some (error "Client request is missing" none))
  make_upstream now req s (some options) =
      let sent =
        set_timestamps (record (s.lifecycle.timestamps) { upstream_sent_at = some now }) s in
      after_made req sent (make options)

  unfoldable pub send_or_refuse :
      ℕ → String → IncomingMessage → RequestScope → Option Url → RequestScope × Option Thrown
  unfolding make_upstream refuse_with
  send_or_refuse now body req s (some url) =
      make_upstream now req s (upstream_options globals url s)
  send_or_refuse now body req s none = (refuse_with 400 body s, none)

  -- A request of a known version, and the fallback of one of another version.
  handle_known : ℕ → IncomingMessage → RequestScope → RequestScope × Option Thrown
  unfolding send_or_refuse
  handle_known now req s =
      send_or_refuse now "Invalid URL" req s
        (target_of_request (or_else (header_text "host" req.headers) "undefined") req s)

  handle_fallback : ℕ → IncomingMessage → RequestScope → RequestScope × Option Thrown
  unfolding send_or_refuse
  handle_fallback now req s =
      send_or_refuse now "Bad Request: Invalid URL" req s
        (target_of_request (or_else (non_empty (header_text "host" req.headers)) "localhost") req s)

  unfoldable pub handle_with :
      ℕ → RequestScope → Option IncomingMessage → Option Response → RequestScope × Option Thrown
  unfolding handle_known handle_fallback refuse_version
  handle_with now s none res = if is_h1 s then (s, none) else (refuse_version s, none)
  handle_with now s (some req) none =
      if is_h1 s then handle_known now req s else (refuse_version s, none)
  handle_with now s (some req) (some res) =
      if is_h1 s then handle_known now req s else handle_fallback now req s

  -- `RequestHandler.handle`.
  unfoldable pub request_handle : ℕ → RequestScope → RequestScope × Option Thrown
  request_handle now s = handle_with now s s.request.client.req s.request.client.res
