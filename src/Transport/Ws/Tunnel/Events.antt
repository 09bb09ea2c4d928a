-- ===== src/Transport/Ws/Tunnel/Events.antt =====
-- WSOutboundBridge.ts: the callbacks once both sides are there, and the run of the tunnel.
use mitm_core.Prelude.{
  ℕ, String, Bool, true, false, Option, none, some, List, [], ◌∷◌, ◌++◌, if◌then◌else◌, is_some,
  string_eq,
}
use mitm_core.Prelude.Assoc.{lookup}
use mitm_core.Net.{Socket, IncomingMessage, ClientRequest}
use mitm_core.Context.Manager.{Manager}
use mitm_core.Signals.{Thrown}
use mitm_core.Scope.{RequestScope}
use mitm_core.Assign.{report, set_upstream}
use mitm_core.Transport.Ws.{WebSocket, ReadyState, is_open, Side, client, upstream}
use mitm_core.Transport.Ws.Tunnel.{
  Tunnel, UpgradeStage, unopened, accepting, announcing, left, is_abort, tear_down, safe_close_code,
  on_upstream_error, bootstrap_failed, on_upgrade, on_upgrade_told, with_web_sockets, on_dispatched,
}

-- `ended` and `broken` are the "close" and the "error" of a side, once their listeners settled.
pub data Event : Type 0 where
  dispatched : Option Thrown → Event
  failed : Event
  upgraded : IncomingMessage → Socket → Event
  upgrade_told : Option Thrown → Event
  accepted : WebSocket → WebSocket → Event
  established : Option Thrown → Event
  message_failed : Thrown → Event
  ended : Side → ℕ → Option String → Option Thrown → Event
  broken : Side → Thrown → Option Thrown → Event
  socket_shut : Side → Event
  timed_out : Side → Event

-- Both sides are there: the handlers are registered.
unfoldable pub on_accepted : WebSocket → WebSocket → Tunnel → UpgradeStage → Tunnel
unfolding with_web_sockets
on_accepted client_ws upstream_ws t (accepting upstream_res) =
    let s =
      set_upstream
        (record (t.scope.request.upstream) { req = some t.upstream_req; res = some upstream_res })
        t.scope in
    record t {
      scope =
          with_web_sockets client_ws upstream_ws
            (lookup "sec-websocket-protocol" upstream_res.headers) s;
      client_ws = some client_ws;
      upstream_ws = some upstream_ws;
      stage = announcing;
    }
on_accepted client_ws upstream_ws t _ = t

unfoldable pub on_established : Option Thrown → Tunnel → UpgradeStage → Tunnel
on_established none t announcing = record t { stage = left }
on_established (some e) t announcing = bootstrap_failed e t
on_established thrown t _ = t

-- An abort is thrown on, out of a callback that nothing awaits, and anything else is reported; the
-- `finally` runs in both cases.
unfoldable pub note : Option Thrown → Tunnel → Tunnel
note none t = t
note (some e) t =
    if is_abort e
    then record t { rejected = t.rejected ++ e ∷ [] }
    else record t { scope = report e t.scope }

-- `ws.close(code, reason)` on an open socket.
unfoldable pub close_with : ℕ → Option String → WebSocket → WebSocket
close_with code reason ws = record ws {
  ready_state = ReadyState.closing;
  close_frame = some (safe_close_code code, reason);
}

-- The `finally` behind "close": the other side is told and its end is waited for, or it is gone.
unfoldable pub close_upstream : ℕ → Option String → Tunnel → Option WebSocket → Tunnel
unfolding close_with tear_down
close_upstream code reason t none = tear_down t
close_upstream code reason t (some ws) =
    if is_open ws
    then record t { upstream_ws = some (close_with code reason ws); watched_upstream = true }
    else tear_down t

unfoldable pub close_client : ℕ → Option String → Tunnel → Option WebSocket → Tunnel
unfolding close_with tear_down
close_client code reason t none = tear_down t
close_client code reason t (some ws) =
    if is_open ws
    then record t { client_ws = some (close_with code reason ws); watched_client = true }
    else tear_down t

unfoldable pub on_close : Side → ℕ → Option String → Tunnel → Tunnel
unfolding close_upstream close_client
on_close client code reason t = close_upstream code reason t t.upstream_ws
on_close upstream code reason t = close_client code reason t t.client_ws

abbrev pub is_watched : Side → Tunnel → Bool
is_watched client t = t.watched_client
is_watched upstream t = t.watched_upstream

abbrev pub shut : WebSocket → WebSocket
shut ws = record ws { ready_state = ReadyState.shut }

abbrev pub shut_optional : Option WebSocket → Option WebSocket
shut_optional none = none
shut_optional (some ws) = some (shut ws)

-- A side that ended is no longer open.
unfoldable pub with_ended : Side → Tunnel → Tunnel
with_ended client t = record t { client_ws = shut_optional t.client_ws }
with_ended upstream t = record t { upstream_ws = shut_optional t.upstream_ws }

-- The handlers of a side act only once both sides are there.
unfoldable pub on_ended : Side → ℕ → Option String → Option Thrown → Tunnel → Bool → Tunnel
unfolding on_close note with_ended
on_ended side code reason thrown t false = t
on_ended side code reason thrown t true =
    on_close side code reason (note thrown (with_ended side t))

-- The `catch` behind "error" tests the error of the socket, and not what the listeners threw.
unfoldable pub note_broken : Thrown → Option Thrown → Tunnel → Tunnel
note_broken err none t = t
note_broken err (some e) t =
    if is_abort err
    then record t { rejected = t.rejected ++ err ∷ [] }
    else record t { scope = report e t.scope }

unfoldable pub on_broken : Thrown → Option Thrown → Tunnel → Bool → Tunnel
unfolding note_broken tear_down
on_broken err thrown t false = t
on_broken err thrown t true = tear_down (note_broken err thrown t)

-- `handleMessageSafely` with the handler of a message that threw.
unfoldable pub on_message_failed : Thrown → Tunnel → Bool → Tunnel
unfolding tear_down
on_message_failed e t false = t
on_message_failed e t true =
    tear_down (if is_abort e then t else record t { scope = report e t.scope })

abbrev pub with_scope : RequestScope → Tunnel → Tunnel
with_scope s t = record t { scope = s }

-- Node emits "upgrade" for a request that was sent, and once.
unfoldable pub on_upgraded : IncomingMessage → Socket → Tunnel → UpgradeStage → Tunnel
on_upgraded upstream_res socket t unopened =
    if t.request_sent then on_upgrade upstream_res socket t else t
on_upgraded upstream_res socket t _ = t

unfoldable pub on_tunnel_event : RequestScope → Event → Tunnel → Tunnel
unfolding on_accepted on_established on_ended on_broken on_message_failed
on_tunnel_event s (dispatched thrown) t =
    if t.is_dispatching then on_dispatched thrown (with_scope s t) else t
on_tunnel_event s failed t = on_upstream_error (with_scope s t)
on_tunnel_event s (upgraded upstream_res socket) t =
    on_upgraded upstream_res socket (with_scope s t) t.stage
on_tunnel_event s (upgrade_told thrown) t = on_upgrade_told thrown (with_scope s t) t.stage
on_tunnel_event s (accepted client_ws upstream_ws) t =
    on_accepted client_ws upstream_ws (with_scope s t) t.stage
on_tunnel_event s (established thrown) t = on_established thrown (with_scope s t) t.stage
on_tunnel_event s (message_failed e) t = on_message_failed e (with_scope s t) (is_some t.client_ws)
on_tunnel_event s (ended side code reason thrown) t =
    on_ended side code reason thrown (with_scope s t) (is_some t.client_ws)
on_tunnel_event s (broken side err thrown) t =
    on_broken err thrown (with_scope s t) (is_some t.client_ws)
on_tunnel_event s (socket_shut side) t = if is_watched side t then tear_down (with_scope s t) else t
on_tunnel_event s (timed_out side) t = if is_watched side t then tear_down (with_scope s t) else t

unfoldable pub on_tunnel_events : List (RequestScope × Event) → Tunnel → Tunnel
on_tunnel_events [] t = t
on_tunnel_events ((s, e) ∷ events) t = on_tunnel_events events (on_tunnel_event s e t)

-- The tunnel at the start, with the request that `init` made.
unfoldable pub new_tunnel : RequestScope → Manager → Socket → ClientRequest → Tunnel
new_tunnel s m socket req = record {
  scope = s;
  manager = m;
  client_socket = socket;
  upstream_socket = none;
  upstream_req = req;
  is_dispatching = true;
  request_sent = false;
  thrown = none;
  client_ws = none;
  upstream_ws = none;
  stage = unopened;
  is_torn_down = false;
  finishes = 0;
  watched_client = false;
  watched_upstream = false;
  rejected = [];
}
