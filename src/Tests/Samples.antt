-- ===== src/Tests/Samples.antt =====
-- Objects that the tests share.
use mitm_core.Prelude.{true, false, none, some, [], ◌∷◌}
use mitm_core.Net.{Response, Socket, IncomingMessage, text}
use mitm_core.Phase.{Phase}
use mitm_core.State.{new_store}
use mitm_core.Signals.{Thrown, error}
use mitm_core.Scope.{
  RequestScope, SessionContext, RequestContext, RequestLifecycle, h1, ExplicitHeaderOverrides,
}

abbrev pub sample_socket : Socket
sample_socket = record {
  id = 7;
  destroyed = false;
  writable = true;
  encrypted = false;
  no_delay = false;
  written = [];
  unread = [];
}

abbrev pub sample_res : Response
sample_res = record {
  status_code = 200;
  headers = [];
  body = none;
  headers_sent = false;
  writable = true;
  writable_ended = false;
  destroyed = false;
}

abbrev pub sample_req : IncomingMessage
sample_req = record {
  method = some "GET";
  url = some "/index.css";
  status_code = none;
  http_version = some "1.1";
  headers = ("host", text "example.org") ∷ [];
  encrypted = false;
  destroyed = false;
}

abbrev pub sample_upstream_res : IncomingMessage
sample_upstream_res = record {
  method = none;
  url = none;
  status_code = some 200;
  http_version = some "1.1";
  headers =
      ("content-type", text "text/css")
      ∷ ("content-length", text "3")
      ∷ ("cache-control", text "public, max-age=60")
      ∷ [];
  encrypted = false;
  destroyed = false;
}

abbrev pub sample_session : SessionContext
sample_session = record {
  connection_id = 0;
  socket = sample_socket;
  protocol = record { connection_type = none; http_version = some h1 };
  head = none;
  custom_certificates = none;
}

abbrev pub sample_request : RequestContext
sample_request = record {
  request_id = 1;
  client = record {
    req = some sample_req;
    res = some sample_res;
    method = some "GET";
    url = some "/index.css";
    headers = none;
  };
  upstream = record { req = none; res = none };
  target = record {
    original_host = some "example.org";
    original_url = none;
    host = none;
    url = none;
  };
  web_socket = none;
  explicit_header_overrides = none;
}

abbrev pub sample_lifecycle : RequestLifecycle
sample_lifecycle = record {
  is_hijacked = false;
  timestamps = record {
    received_at = 5;
    upstream_sent_at = none;
    upstream_received_at = none;
    responded_at = none;
    duration = none;
  };
  next_phase = some Phase.request;
  state = new_store;
  abort = none;
  failure = none;
}

abbrev pub sample_scope : RequestScope
sample_scope = record {
  session = sample_session;
  request = sample_request;
  lifecycle = sample_lifecycle;
  reported = [];
}

-- A WebSocket upgrade that waits for its answer.
abbrev pub sample_upgrade : RequestScope
sample_upgrade = record sample_scope {
  request = record sample_request {
    web_socket = some (record {
      is_upgraded = false;
      subprotocol = none;
      client = none;
      upstream = none;
      raw_upgrade_socket = some sample_socket;
      upgrade_head = none;
    });
  };
}

abbrev pub refused : Thrown
refused = error "connect ECONNREFUSED" (some "ECONNREFUSED")

abbrev pub sample_overrides : ExplicitHeaderOverrides
sample_overrides = record {
  request_overrides = some (("X-Trace", text "on") ∷ []);
  response_overrides = none;
  request_headers_to_remove = some ("Cookie" ∷ []);
  response_headers_to_remove = some ("Server" ∷ []);
}
