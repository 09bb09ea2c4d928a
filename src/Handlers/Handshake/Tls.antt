-- ===== src/Handlers/Handshake/Tls.antt =====
-- handshake.handler.ts: the promise of the TLS connection. Its timer and the callbacks of the
-- `TLSSocket` are events in any order; `bridged` is the end of the awaited `H1InboundBridge.execute`.
use mitm_core.Prelude.{
  String, Bool, true, false, ◌⊎◌, inl, inr, Option, none, some, List, [], ◌∷◌, ◌++◌, if◌then◌else◌,
}
use mitm_core.Net.{Ref, Socket, destroy_socket}
use mitm_core.Handlers.Handshake.{Greeting, returned, threw, shaken}
use mitm_core.Signals.{Thrown, error}
use mitm_core.State.{flag}
use mitm_core.Scope.{RequestScope, HttpVersion}
use mitm_core.Assign.{report, set_state}
use mitm_core.Context.Manager.{Manager}
use mitm_core.Context.Request.{destroy_request_lifecycle}

pub data Call : Type 0 where
  resolved : Call
  rejected : Thrown → Call

pub data TlsEvent : Type 0 where
  timed_out : TlsEvent
  secured : TlsEvent
  bridged : Option Thrown → TlsEvent
  failed : Thrown → TlsEvent
  closed : TlsEvent

pub record Connection : Type 0 where
  pub scope : RequestScope
  pub manager : Manager
  pub socket : Socket
  pub tls_socket : Socket
  pub is_settled : Bool
  pub is_bridging : Bool
  pub calls : List Call

abbrev pub cleaned_up : Socket → Socket
cleaned_up k = if k.destroyed then k else destroy_socket k

abbrev pub clean_both : Connection → Connection
clean_both c = record c { socket = cleaned_up c.socket; tls_socket = cleaned_up c.tls_socket }

unfoldable pub on_timed_out : Connection → Connection
on_timed_out c = if c.is_settled then c else record (clean_both c) {
  is_settled = true;
  scope = set_state "request.error" (flag true) c.scope;
  calls = c.calls ++ rejected (error "TLS Handshake Timeout" none) ∷ [];
}

-- HTTP/2 resolves, HTTP/1 is bridged, and for any other version nothing is done.
unfoldable pub with_version : Option HttpVersion → Connection → Connection
with_version none c = c
with_version (some HttpVersion.h2) c = record c { calls = c.calls ++ resolved ∷ [] }
with_version (some HttpVersion.h1) c = record c { is_bridging = true }
with_version (some HttpVersion.h3) c = c
with_version (some HttpVersion.unknown) c = c

unfoldable pub on_secured : Connection → Connection
unfolding with_version
on_secured c =
    if c.is_settled
    then c
    else with_version c.scope.session.protocol.http_version (record c { is_settled = true })

unfoldable pub on_bridged : Option Thrown → Connection → Connection
on_bridged none c = record c { is_bridging = false; calls = c.calls ++ resolved ∷ [] }
on_bridged (some e) c = record (clean_both c) {
  is_bridging = false;
  scope = set_state "request.error" (flag true) c.scope;
  calls = c.calls ++ rejected e ∷ [];
}

unfoldable pub on_failed : Thrown → Connection → Connection
on_failed e c =
    let noted = report e c.scope in
    if c.is_settled then record c { scope = noted } else record c {
      is_settled = true;
      scope = set_state "error" (flag true) noted;
      calls = c.calls ++ rejected e ∷ [];
    }

-- One callback, with the scope as it is when it starts.
unfoldable pub on_tls_event : RequestScope → TlsEvent → Connection → Connection
unfolding on_timed_out on_secured on_failed
on_tls_event s timed_out c = on_timed_out (record c { scope = s })
on_tls_event s secured c = on_secured (record c { scope = s })
on_tls_event s (bridged thrown) c =
    if c.is_bridging then on_bridged thrown (record c { scope = s }) else c
on_tls_event s (failed e) c = on_failed e (record c { scope = s })
on_tls_event s closed c = record c {
  scope = s;
  manager = destroy_request_lifecycle s.request.request_id c.manager;
}

unfoldable pub on_tls_events : List (RequestScope × TlsEvent) → Connection → Connection
on_tls_events [] c = c
on_tls_events ((s, e) ∷ events) c = on_tls_events events (on_tls_event s e c)

unfoldable pub new_connection : RequestScope → Manager → Socket → Socket → Connection
new_connection s m socket tls_socket = record {
  scope = s;
  manager = m;
  socket = socket;
  tls_socket = tls_socket;
  is_settled = false;
  is_bridging = false;
  calls = [];
}

-- How the whole handler starts: it ended before the TLS connection, or its connection waits.
pub data Started : Type 0 where
  over : Greeting → Started
  connected : Connection → Started

connect_with : Manager → (Socket → Ref → Socket) → RequestScope → Socket → Thrown ⊎ Ref → Started
unfolding new_connection
connect_with m make s k (inl e) = over (threw s k e)
connect_with m make s k (inr context) = connected (new_connection s m k (make k context))

-- The context is chosen for the host, as `secure_context_of` does, and `make` is the `TLSSocket` of
-- the socket and the context.
unfoldable pub start_tls :
    (String → RequestScope → Thrown ⊎ Ref)
    → Manager
    → (Socket → Ref → Socket)
    → String
    → Greeting
    → Started
unfolding connect_with
start_tls choose m make host (returned s k) = over (returned s k)
start_tls choose m make host (threw s k e) = over (threw s k e)
start_tls choose m make host (shaken s k) = connect_with m make s k (choose host s)
