-- ===== src/Transport/Ws/Tunnel/Start.antt =====
-- WSOutboundBridge.ts: the guards of `execute`, and the request that it makes.
use mitm_core.Prelude.{String, Option, none, some, ◌⊎◌, inl, inr}
use mitm_core.Net.{Socket, IncomingMessage, ClientRequest}
use mitm_core.Signals.{Thrown, error}
use mitm_core.Scope.{RequestScope, WebSocketContext}
use mitm_core.Context.Manager.{Manager}
use mitm_core.Url.{Url, UrlLib, non_empty}
use mitm_core.Transport.Ws.Dial.{WsOptions, dial}
use mitm_core.Transport.Ws.Tunnel.{Tunnel}
use mitm_core.Transport.Ws.Tunnel.Events.{new_tunnel}

-- `raise` gives the exception of `new URL`, and `make` is the call of `http.request` or
-- `https.request`; `key` is the handshake's random key.
module _ (lib : UrlLib) (raise : String → Thrown) (make : WsOptions → ClientRequest)
    (key : String) where
  unfoldable pub opened_with :
      RequestScope → Manager → Socket → Thrown ⊎ WsOptions → Thrown ⊎ Tunnel
  unfolding new_tunnel
  opened_with s m socket (inl e) = inl e
  opened_with s m socket (inr options) = inr (new_tunnel s m socket (make options))

  unfoldable pub with_target :
      RequestScope → Manager → IncomingMessage → Socket → String → Option Url → Thrown ⊎ Tunnel
  unfolding opened_with dial
  with_target s m req socket text none = inl (raise text)
  with_target s m req socket text (some url) = opened_with s m socket (dial url key req)

  unfoldable pub with_socket :
      RequestScope → Manager → IncomingMessage → Option Socket → Option String → Thrown ⊎ Tunnel
  unfolding with_target
  with_socket s m req none url = inl (error "[WS] Client socket missing" none)
  with_socket s m req (some socket) none = inl (error "[WS] Upstream URL missing" none)
  with_socket s m req (some socket) (some url) = with_target s m req socket url (lib.parse url)

  unfoldable pub with_context :
      RequestScope → Manager → IncomingMessage → Option WebSocketContext → Thrown ⊎ Tunnel
  unfolding with_socket
  with_context s m req none = inl (error "[WS] WebSocket context missing" none)
  with_context s m req (some w) =
      with_socket s m req w.raw_upgrade_socket (non_empty s.request.target.url)

  unfoldable pub with_request : RequestScope → Manager → Option IncomingMessage → Thrown ⊎ Tunnel
  unfolding with_context
  with_request s m none = inl (error "[WS] Request object missing from context" none)
  with_request s m (some req) = with_context s m req s.request.web_socket

  -- What `execute` throws before it registers a callback, or the tunnel at its start.
  unfoldable pub execute_upgrade : RequestScope → Manager → Thrown ⊎ Tunnel
  unfolding with_request
  execute_upgrade s m = with_request s m s.request.client.req
