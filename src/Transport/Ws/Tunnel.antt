-- ===== src/Transport/Ws/Tunnel.antt =====
-- WSOutboundBridge.ts: `execute`, its callbacks and the tear-down of the tunnel. Each event is one
-- synchronous stretch of a callback, given the scope as it is when it starts; what a callback awaits
-- comes with the event of the stretch behind it.
pub mod Events
pub mod Start
pub mod Teardown
pub mod Once
pub mod Closing
pub mod Ends
pub mod Waits
use mitm_core.Prelude.{
  ℕ, suc, String, Bool, true, false, not, ◌&&◌, ◌||◌, Option, none, some, List, [], ◌∷◌, ◌++◌,
  if◌then◌else◌, ◌==◌, nat_eq, string_eq,
}
use mitm_core.Prelude.Text.{join}
use mitm_core.Net.{
  Ref, Buffer, Socket, HeaderValue, text, texts, undef, IncomingMessage, ClientRequest,
  destroy_socket, end_socket, write_socket,
}
use mitm_core.Signals.{Thrown, signal, error, object, primitive}
use mitm_core.Scope.{RequestScope, WebSocketContext}
use mitm_core.Assign.{report, set_upstream, set_web_socket}
use mitm_core.Context.Manager.{Manager}
use mitm_core.Mutator.{finish_pipeline}
use mitm_core.Transport.Ws.{WebSocket, ReadyState, is_open, Side, client, upstream, other_side}

-- Where the callback of `upgrade` is: none came, it awaits the plugins, it awaits the client's side,
-- or it has left.
pub data UpgradeStage : Type 0 where
  unopened : UpgradeStage
  telling : IncomingMessage → UpgradeStage
  accepting : IncomingMessage → UpgradeStage
  announcing : UpgradeStage
  left : UpgradeStage

abbrev pub has_begun : UpgradeStage → Bool
has_begun unopened = false
has_begun _ = true

-- The variables that the callbacks share. `watched` are the sockets whose close, or a timer, tears
-- the tunnel down; `finishes` counts the calls of `finishPipeline`; `rejected` are the promises of
-- callbacks that nothing awaits, and `thrown` is what `execute` rejects with.
pub record Tunnel : Type 0 where
  pub scope : RequestScope
  pub manager : Manager
  pub client_socket : Socket
  pub upstream_socket : Option Socket
  pub upstream_req : ClientRequest
  pub is_dispatching : Bool
  pub request_sent : Bool
  pub thrown : Option Thrown
  pub client_ws : Option WebSocket
  pub upstream_ws : Option WebSocket
  pub stage : UpgradeStage
  pub is_torn_down : Bool
  pub finishes : ℕ
  pub watched_client : Bool
  pub watched_upstream : Bool
  pub rejected : List Thrown

abbrev pub is_abort : Thrown → Bool
is_abort (signal s) = true
is_abort (error message code) = false
is_abort (object message code shown) = false
is_abort (primitive shown) = false

-- `ProxyUtils.cleanUp` of a socket that the tunnel holds.
abbrev pub clean_up : Socket → Socket
clean_up socket = if socket.destroyed then socket else destroy_socket socket

abbrev pub clean_up_optional : Option Socket → Option Socket
clean_up_optional none = none
clean_up_optional (some socket) = some (clean_up socket)

-- `isolateTunnelTearDown`.
unfoldable pub tear_down : Tunnel → Tunnel
tear_down t =
    if t.is_torn_down
    then t
    else let (s, m) = finish_pipeline t.scope t.manager in
      record t {
        scope = s;
        manager = m;
        client_socket = clean_up t.client_socket;
        upstream_socket = clean_up_optional t.upstream_socket;
        is_torn_down = true;
        finishes = suc t.finishes;
      }

-- `getSafeCloseCode`; 0 stands for no code.
unfoldable pub safe_close_code : ℕ → ℕ
safe_close_code code =
    if code == 0
    then 1000
    else if code == 1004 || code == 1005 || code == 1006 || code == 1015
    then 1001
    else code

-- The handler of the upstream request's "error".
unfoldable pub answer_bad_gateway : Socket → Socket
answer_bad_gateway k =
    if k.writable && not k.destroyed
    then record (write_socket "HTTP/1.1 502 Bad Gateway\r\nConnection: close\r\n\r\n" k) {
      writable = false;
    }
    else k

unfoldable pub on_upstream_error : Tunnel → Tunnel
unfolding answer_bad_gateway
on_upstream_error t = record t { client_socket = clean_up (answer_bad_gateway t.client_socket) }

-- The end of the `upgrade` callback by what was thrown: an abort rejects its promise, which nothing
-- awaits, and anything else tears the tunnel down.
unfoldable pub bootstrap_failed : Thrown → Tunnel → Tunnel
unfolding tear_down
bootstrap_failed e t =
    if is_abort e
    then record t { stage = left; rejected = t.rejected ++ e ∷ [] }
    else tear_down (record t { stage = left })

-- What the plugins of "proxy:upstream-dispatch" leave: the request is sent, or left to a plugin that
-- hijacked it, or given up.
unfoldable pub on_dispatched : Option Thrown → Tunnel → Tunnel
on_dispatched none t =
    if t.scope.lifecycle.is_hijacked
    then record t { is_dispatching = false }
    else record t { is_dispatching = false; request_sent = true }
on_dispatched (some e) t =
    let (s, m) = finish_pipeline t.scope t.manager in
    if is_abort e then record t { is_dispatching = false; thrown = some e } else record t {
      is_dispatching = false;
      upstream_req = record (t.upstream_req) { destroyed = true };
      client_socket = clean_up t.client_socket;
      scope = report e s;
      manager = m;
      finishes = suc t.finishes;
    }

-- The `upgrade` callback up to the plugins of "proxy:client-upgrade".
unfoldable pub on_upgrade : IncomingMessage → Socket → Tunnel → Tunnel
on_upgrade upstream_res socket t = record t {
  upstream_socket = some (record socket { no_delay = true });
  client_socket = record (t.client_socket) { no_delay = true };
  stage = telling upstream_res;
}

unfoldable pub after_upgrade_told : IncomingMessage → Tunnel → Tunnel
after_upgrade_told upstream_res t =
    if t.scope.lifecycle.is_hijacked
    then record t { stage = left }
    else record t { stage = accepting upstream_res }

-- From the plugins to the call of `handleUpgrade`: here an abort tears the tunnel down.
unfoldable pub on_upgrade_told : Option Thrown → Tunnel → UpgradeStage → Tunnel
unfolding after_upgrade_told tear_down bootstrap_failed
on_upgrade_told (some e) t (telling upstream_res) =
    if is_abort e then tear_down (record t { stage = left }) else bootstrap_failed e t
on_upgrade_told none t (telling upstream_res) = after_upgrade_told upstream_res t
on_upgrade_told thrown t _ = t

-- `Array.isArray(subprotocol) ? subprotocol.join(", ") : subprotocol`.
abbrev subprotocol_of : HeaderValue → Option String
subprotocol_of undef = none
subprotocol_of (text t) = some t
subprotocol_of (texts l) = some (join ", " l)

unfoldable pub with_web_sockets :
    WebSocket → WebSocket → Option HeaderValue → RequestScope → RequestScope
unfolding join
with_web_sockets client_ws upstream_ws protocol s = elim s.request.web_socket [
  | none ↦ s
  | some w ↦
      set_web_socket
        (record w {
          is_upgraded = true;
          client = some client_ws.id;
          upstream = some upstream_ws.id;
          subprotocol = elim protocol [ none ↦ none | some v ↦ subprotocol_of v ];
        })
        s
]
