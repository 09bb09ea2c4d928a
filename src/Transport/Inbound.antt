-- ===== src/Transport/Inbound.antt =====
-- core/transport/http1/H1InboundBridge.ts: the HTTP/1 server behind the decrypted connections. The
-- scope of a connection stands with its socket; the awaited emission of a request is a parameter.
pub mod Faults
use mitm_core.Prelude.{
  ℕ, String, Bool, true, false, not, ◌&&◌, ◌||◌, Option, none, some, List, [], ◌∷◌, ◌++◌,
  if◌then◌else◌, ◌==◌, string_eq, nat_eq, mem, or_else,
}
use mitm_core.Prelude.Assoc.{Assoc, lookup, insert, remove}
use mitm_core.Prelude.Text.{to_lower}
use mitm_core.Net.{
  Ref, Buffer, Socket, Response, IncomingMessage, Headers, HeaderValue, text, chars, respond,
  destroy_socket, destroy_response, write_socket,
}
use mitm_core.Signals.{Thrown}
use mitm_core.Scope.{RequestScope, ClientSide, UpstreamSide}
use mitm_core.Assign.{report, set_client}

-- `HOP_HEADERS`.
abbrev pub hop_headers : List String
hop_headers =
    "proxy-connection" ∷ "proxy-authenticate" ∷ "proxy-authorization" ∷ "connection" ∷ "keep-alive"
    ∷ "transfer-encoding" ∷ "te" ∷ "trailer" ∷ "upgrade" ∷ "via" ∷ "x-forwarded-for"
    ∷ "x-forwarded-host" ∷ "x-forwarded-proto" ∷ "forwarded" ∷ []

unfoldable pub is_request_hop : String → Bool
is_request_hop key = mem (to_lower key) hop_headers

-- `cleanedHeaders`: the keys of an object are given once.
unfoldable pub cleaned_request_headers : Headers → Headers
cleaned_request_headers [] = []
cleaned_request_headers ((key, value) ∷ entries) =
    let rest = cleaned_request_headers entries in
    if is_request_hop key then rest else (key, value) ∷ rest

-- `__connectionScope` of the sockets, by the sockets' identities.
abbrev pub Scopes : Type 0
Scopes = Assoc Ref RequestScope

-- `execute`: the scope is put on the socket, whose connection the server then reads.
unfoldable pub execute_inbound : RequestScope → Socket → Scopes → Scopes
execute_inbound template socket scopes = insert socket.id template scopes

-- The "close" of the socket.
unfoldable pub on_socket_close : Socket → Scopes → Scopes
on_socket_close socket scopes = remove socket.id scopes

-- The server's "clientError"; `code` is the error's.
unfoldable pub on_client_error : Option String → Socket → Socket
on_client_error code k =
    if or_else code "" == "ECONNRESET" || not k.writable
    then destroy_socket k
    else destroy_socket (write_socket "HTTP/1.1 400 Bad Request\r\nConnection: close\r\n\r\n" k)

destroy_once : Socket → Socket
destroy_once k = if k.destroyed then k else destroy_socket k

-- What a handler leaves: the socket, the scope that was emitted, if one was, and what was reported.
pub record Handled : Type 0 where
  pub socket : Socket
  pub scope : Option RequestScope
  -- The response that the handler of a request captured.
  pub res : Option Response
  pub req_destroyed : Bool
  pub reported : List Thrown

-- What the listeners left of the scope and of the socket, and what they threw.
after_upgrade : RequestScope × Socket × Option Thrown → Handled
unfolding destroy_once
after_upgrade (s, k, none) = record {
  socket = k;
  scope = some s;
  res = none;
  req_destroyed = false;
  reported = [];
}
after_upgrade (s, k, some e) = record {
  socket = destroy_once k;
  scope = some s;
  res = none;
  req_destroyed = false;
  reported = e ∷ [];
}

upgrade_in :
    (RequestScope → Socket → RequestScope × Socket × Option Thrown)
    → Socket
    → Option RequestScope
    → Handled
unfolding after_upgrade
upgrade_in emit k none = record {
  socket = destroy_socket k;
  scope = none;
  res = none;
  req_destroyed = false;
  reported = [];
}
upgrade_in emit k (some s) = after_upgrade (emit s k)

-- The server's "upgrade"; `emit` is "WS:UPGRADE" with the request, the socket and the head.
unfoldable pub on_upgrade_request :
    (RequestScope → Socket → RequestScope × Socket × Option Thrown) → Socket → Scopes → Handled
unfolding upgrade_in
on_upgrade_request emit k scopes = upgrade_in emit k (lookup k.id scopes)

-- The scope of a request: the session and the store of flags are the connection's, and the target is
-- a copy of the connection's. `id` is the random identity.
unfoldable pub new_request_scope :
    Ref → ℕ → IncomingMessage → Response → RequestScope → RequestScope
new_request_scope id now req res s = record {
  session = s.session;
  request = record {
    request_id = id;
    client = record {
      req = some req;
      res = some res;
      method = req.method;
      url = req.url;
      headers = none;
    };
    upstream = record { req = none; res = none };
    target = s.request.target;
    web_socket = none;
    explicit_header_overrides = none;
  };
  lifecycle = record {
    is_hijacked = false;
    timestamps = record {
      received_at = now;
      upstream_sent_at = none;
      upstream_received_at = none;
      responded_at = none;
      duration = none;
    };
    next_phase = none;
    state = s.lifecycle.state;
    abort = none;
    failure = none;
  };
  reported = [];
}

unfoldable pub with_cleaned_headers : IncomingMessage → RequestScope → RequestScope
with_cleaned_headers req s =
    let headers = cleaned_request_headers req.headers in
    set_client
      (record (s.request.client) {
        req = some (record req { headers = headers });
        headers = some headers;
      })
      s

-- The answer to a fault of the core, where the response is not over.
unfoldable pub answer_fault : Response → Response
answer_fault res =
    if not res.destroyed && not res.writable_ended
    then (if res.headers_sent
        then destroy_response res
        else respond 502 (("Content-Type", text "text/plain") ∷ ("Connection", text "close") ∷ [])
            (chars "Bad Gateway (Proxy Core Fault)") res)
    else res

-- What the emission of a request leaves: the scope, the response and the socket that the handler
-- captured, as the listeners left them, and what they threw.
pub record Emitted : Type 0 where
  pub scope : RequestScope
  pub res : Response
  pub socket : Socket
  pub thrown : Option Thrown

after_request : Emitted → Option Thrown → Handled
unfolding destroy_once answer_fault
after_request r none = record {
  socket = r.socket;
  scope = some r.scope;
  res = some r.res;
  req_destroyed = false;
  reported = [];
}
after_request r (some e) = record {
  socket = destroy_once r.socket;
  scope = some r.scope;
  res = some (answer_fault r.res);
  req_destroyed = false;
  reported = e ∷ [];
}

request_in :
    (RequestScope → Response → Socket → Emitted)
    → Ref
    → ℕ
    → IncomingMessage
    → Response
    → Socket
    → Option RequestScope
    → Handled
unfolding after_request with_cleaned_headers new_request_scope
request_in emit id now req res k none = record {
  socket = k;
  scope = none;
  res = some res;
  req_destroyed = true;
  reported = [];
}
request_in emit id now req res k (some s) =
    let r = emit (with_cleaned_headers req (new_request_scope id now req res s)) res k in
    after_request r r.thrown

-- The server's "request"; `emit` is "HTTPS:DECRYPTED". The handler goes on with the objects that it
-- captured, and not with those that the listeners may have put into the scope.
unfoldable pub on_request :
    (RequestScope → Response → Socket → Emitted)
    → Ref
    → ℕ
    → IncomingMessage
    → Response
    → Socket
    → Scopes
    → Handled
unfolding request_in
on_request emit id now req res k scopes = request_in emit id now req res k (lookup k.id scopes)
