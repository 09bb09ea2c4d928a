-- ===== src/Tests/Handshakes.antt =====
-- The handshake and the decrypted server at concrete values.
use mitm_core.Prelude.{
  ◌≤◌, ◌⊎◌, inl, String, false, none, some, [], ◌∷◌, ◌≡◌, refl, length, if◌then◌else◌, string_eq,
  nat_eq,
}
use mitm_core.Prelude.Assoc.{lookup}
use mitm_core.Net.{write_socket, destroy_socket, text, Response, Socket}
use mitm_core.Scope.{RequestScope, HttpVersion}
use mitm_core.Assign.{set_protocol}
use mitm_core.Handlers.Handshake.{Tell}
use mitm_core.Handlers.Handshake.Tls.{
  timed_out, secured, failed, closed, bridged, Connection, on_tls_event, on_tls_events,
  new_connection,
}
use mitm_core.Handlers.Handshake.Answering.{handshake_settles}
use mitm_core.Handlers.Handshake.Settling.{handshake_settles_once, unanswered_hangs, IsUnanswered}
use mitm_core.Transport.Inbound.{
  cleaned_request_headers, is_request_hop, Emitted, on_request, Scopes,
}
use mitm_core.Transport.Inbound.Faults.{
  cleaned_request_headers_lem, on_request-IsAnswered, IsAnswered,
}
use mitm_core.Tests.Samples.{sample_scope, sample_req, sample_res, sample_socket, refused}
use mitm_core.Tests.Contexts.{sample_manager}

abbrev quiet : Tell
quiet s k = record { scope = s; socket = k; thrown = none }

-- It writes to the socket.
abbrev writing : Tell
writing s k = record { scope = s; socket = write_socket "X-Note: 1\r\n" k; thrown = none }

-- It closes the socket and throws.
abbrev failing : Tell
failing s k = record { scope = s; socket = destroy_socket k; thrown = some refused }

abbrev hosted : RequestScope
hosted = record sample_scope {
  request = record (sample_scope.request) {
    client = record (sample_scope.request.client) { req = some sample_req };
    target = record (sample_scope.request.target) { original_host = some "a.example" };
  };
}

handshake_settles_once_example :
    length
      (on_tls_events
        ((hosted, timed_out) ∷ (hosted, secured) ∷ (hosted, failed refused) ∷ [])
        (new_connection hosted sample_manager sample_socket sample_socket)).calls
    ≤ 1
handshake_settles_once_example =
    handshake_settles_once hosted sample_manager sample_socket sample_socket
      ((hosted, timed_out) ∷ (hosted, secured) ∷ (hosted, failed refused) ∷ [])

abbrev over : HttpVersion → RequestScope
over v = set_protocol (record { connection_type = none; http_version = some v }) hosted

abbrev connection : Connection
connection = record {
  scope = hosted;
  manager = sample_manager;
  socket = sample_socket;
  tls_socket = sample_socket;
  is_settled = false;
  is_bridging = false;
  calls = [];
}

-- The connection is secured, then the timer runs out, and an error comes.
handshake_settles_example :
    let c = on_tls_events ((hosted, timed_out) ∷ (hosted, failed refused) ∷ []) (
      on_tls_event (over HttpVersion.h1) secured (
        on_tls_events
          ((hosted, closed) ∷ [])
          (new_connection hosted sample_manager sample_socket sample_socket))) in
    (length c.calls ≡ 1)
    ⊎ ((c.calls ≡ []) × (length (on_tls_event hosted (bridged none) c).calls ≡ 1))
handshake_settles_example =
    handshake_settles hosted sample_manager sample_socket sample_socket ((hosted, closed) ∷ [])
      ((hosted, timed_out) ∷ (hosted, failed refused) ∷ []) (over HttpVersion.h1) hosted secured
      none tt (tt, tt) (inl refl)

is_unanswered : IsUnanswered (some HttpVersion.h3)
is_unanswered = (λ e. cc, λ e. cc)

unanswered_hangs_example :
    (on_tls_events
      ((hosted, timed_out) ∷ (hosted, failed refused) ∷ [])
      (on_tls_event (over HttpVersion.h3) secured connection)).calls
    ≡ []
unanswered_hangs_example =
    unanswered_hangs (over HttpVersion.h3) connection
      ((hosted, timed_out) ∷ (hosted, failed refused) ∷ []) is_unanswered (refl, refl, refl)

cleaned_request_headers_example :
    lookup {K = String} "Via"
      (cleaned_request_headers (("Via", text "1.1 proxy") ∷ ("Accept", text "*/*") ∷ []))
    ≡ (if is_request_hop "Via"
        then none
        else lookup {K = String} "Via" (("Via", text "1.1 proxy") ∷ ("Accept", text "*/*") ∷ []))
cleaned_request_headers_example =
    cleaned_request_headers_lem "Via" (("Via", text "1.1 proxy") ∷ ("Accept", text "*/*") ∷ [])

abbrev connections : Scopes
connections = (7, hosted) ∷ []

-- The listeners take the response out of the scope before they throw.
abbrev clearing : RequestScope → Response → Socket → Emitted
clearing s res k = record {
  scope = record s {
    request = record (s.request) { client = record (s.request.client) { res = none } };
  };
  res = res;
  socket = k;
  thrown = some refused;
}

on_request-IsAnswered_example :
    IsAnswered refused (on_request clearing 5 9 sample_req sample_res sample_socket connections)
unfolding lookup
on_request-IsAnswered_example =
    on_request-IsAnswered clearing 5 9 sample_req sample_res sample_socket connections hosted
      refused refl refl
