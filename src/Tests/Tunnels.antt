-- ===== src/Tests/Tunnels.antt =====
-- The WebSocket tunnel at concrete events.
use mitm_core.Prelude.{
  ℕ, ◌≤◌, String, true, false, ◌≡◌, refl, ◌⊎◌, inl, inr, none, some, List, [], ◌∷◌, ◌++◌, string_eq,
  nat_eq,
}
use mitm_core.Prelude.Assoc.{lookup}
use mitm_core.Net.{ClientRequest}
use mitm_core.Signals.{Thrown, error}
use mitm_core.Scope.{RequestScope}
use mitm_core.Assign.{set_target}
use mitm_core.Url.{Url}
use mitm_core.Transport.Ws.{WebSocket, ReadyState, client, upstream}
use mitm_core.Transport.Ws.Dial.{
  WsOptions, request_headers, header_of, request_headers_lem, dial, is_secure_url,
}
use mitm_core.Transport.Ws.Messages.{MessageEvent, came, told, Relay, on_messages, new_context}
use mitm_core.Transport.Ws.Messages.Order.{IsAt, on_messages_refine}
use mitm_core.Transport.Ws.Tunnel.{Tunnel}
use mitm_core.Transport.Ws.Tunnel.Start.{
  execute_upgrade, with_request, with_context, with_socket, with_target, opened_with,
}
use mitm_core.Transport.Ws.Tunnel.Events.{
  Event, dispatched, message_failed, socket_shut, upgraded, upgrade_told, accepted, established,
  ended, timed_out, on_tunnel_event, on_tunnel_events, new_tunnel,
}
use mitm_core.Transport.Ws.Tunnel.Once.{finishes_once}
use mitm_core.Transport.Ws.Tunnel.Teardown.{AllDestroyed}
use mitm_core.Transport.Ws.Tunnel.Closing.{BothCloseWell}
use mitm_core.Transport.Ws.Tunnel.Ends.{on_tunnel_events-BothCloseWell}
use mitm_core.Transport.Ws.Tunnel.Waits.{ended_tears_down}
use mitm_core.Tests.Samples.{
  sample_scope, sample_req, sample_upgrade, sample_socket, sample_upstream_res, refused,
}
use mitm_core.Tests.Contexts.{sample_manager}
use mitm_core.Tests.Entries.{sample_lib}

abbrev chat : Url
chat = record {
  protocol = "wss:";
  host = "chat.example";
  hostname = "chat.example";
  port = "";
  pathname = "/";
  search = "";
  href = "wss://chat.example/";
}

request_headers_example :
    lookup "cookie" (request_headers chat "k" sample_req) ≡ header_of chat "k" sample_req "cookie"
request_headers_example = request_headers_lem chat "k" sample_req "cookie"

abbrev web_socket : ℕ → WebSocket
web_socket id = record { id = id; ready_state = ReadyState.opened; sent = []; close_frame = none }

abbrev relay : Relay
relay = record {
  scope = sample_scope;
  peer = web_socket 1;
  waiting = [];
  observed = [];
  count = 0;
  failures = [];
}

abbrev overtaking : List (RequestScope × MessageEvent)
overtaking =
    (sample_scope, came (1 ∷ []) true)
    ∷ (sample_scope, came (2 ∷ []) true)
    ∷ (sample_scope, told 1 (new_context (2 ∷ []) true) none)
    ∷ (sample_scope, told 0 (new_context (1 ∷ []) true) none)
    ∷ []

relay-IsAt : IsAt (λ n. false) 0 relay
unfolding lookup
relay-IsAt = record { waits = λ n. refl; counts = refl; is_opened = refl }

on_messages_example :
    (on_messages overtaking relay).peer.sent ≡ [] ++ ((2 ∷ [], true) ∷ (1 ∷ [], true) ∷ [])
on_messages_example = on_messages_refine (λ n. false) 0 overtaking relay relay-IsAt

abbrev make : WsOptions → ClientRequest
make o = record { id = 9; method = some "GET"; headers = []; destroyed = false }

abbrev invalid : String → Thrown
invalid url = error "Invalid URL" none

abbrev upgrade_scope : RequestScope
upgrade_scope =
    set_target (record (sample_upgrade.request.target) { url = some "ws://chat.example/" })
      sample_upgrade

abbrev tunnel : Tunnel
tunnel =
    new_tunnel upgrade_scope sample_manager sample_socket
      (record { id = 9; method = some "GET"; headers = []; destroyed = false })

tunnel_starts :
    execute_upgrade sample_lib invalid make "k" upgrade_scope sample_manager ≡ inr tunnel
unfolding execute_upgrade with_request with_context with_socket with_target opened_with dial
    is_secure_url
tunnel_starts = refl

abbrev events : List (RequestScope × Event)
events =
    (upgrade_scope, dispatched none)
    ∷ (upgrade_scope, upgraded sample_upstream_res sample_socket)
    ∷ (upgrade_scope, upgrade_told none)
    ∷ (upgrade_scope, accepted (web_socket 1) (web_socket 2))
    ∷ (upgrade_scope, established none)
    ∷ (upgrade_scope, ended client 1006 none none)
    ∷ (upgrade_scope, timed_out upstream)
    ∷ (upgrade_scope, timed_out upstream)
    ∷ []

finishes_once_example :
    let after = on_tunnel_events events tunnel in
    (after.finishes ≤ 1)
    × ((after.is_torn_down ≡ false) ⊎ ((after.finishes ≡ 1) × AllDestroyed after))
finishes_once_example =
    finishes_once sample_lib invalid make "k" upgrade_scope sample_manager tunnel events
      tunnel_starts

on_tunnel_events-BothCloseWell_example : BothCloseWell (on_tunnel_events events tunnel)
unfolding new_tunnel
on_tunnel_events-BothCloseWell_example =
    on_tunnel_events-BothCloseWell events tunnel
      (tt, (tt, (tt, ((refl, refl), (tt, (inr (inr (inl refl)), (tt, (tt, tt)))))))) (tt, tt)

ended_tears_down_example :
    let opened = record tunnel {
      client_ws = some (web_socket 1);
      upstream_ws = some (web_socket 2);
    } in
    (on_tunnel_events ((upgrade_scope, socket_shut client) ∷ []) (
      on_tunnel_event upgrade_scope (timed_out upstream) (
        on_tunnel_events ((upgrade_scope, message_failed refused) ∷ []) (
          on_tunnel_event upgrade_scope
            (ended client 1000 none (some refused))
            opened)))).is_torn_down
    ≡ true
ended_tears_down_example =
    ended_tears_down client 1000 none (some refused) upgrade_scope upgrade_scope
      ((upgrade_scope, message_failed refused) ∷ []) ((upgrade_scope, socket_shut client) ∷ [])
      (record tunnel { client_ws = some (web_socket 1); upstream_ws = some (web_socket 2) }) refl
