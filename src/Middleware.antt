-- ===== src/Middleware.antt =====
-- middleware/middleware.ts: how each kind of traffic enters the pipeline. The section's parameters
-- are `Date.now()`, the platform's `URL`, the awaited emissions of the plugins' bus and of the
-- proxy's bus by the event's name, and `Pipeline.run`.
pub mod Entry
use mitm_core.Prelude.{
  ℕ, String, Bool, true, false, Option, none, some, List, [], ◌∷◌, if◌then◌else◌,
}
use mitm_core.Net.{Buffer, IncomingMessage, Response, Socket, destroy_response, destroy_socket}
use mitm_core.Phase.{Phase}
use mitm_core.Signals.{Thrown, signal, error, object, primitive}
use mitm_core.Scope.{RequestScope}
use mitm_core.Assign.{set_res, set_abort, set_socket, set_web_socket}
use mitm_core.Context.Manager.{Manager, get_or_create_session_context}
use mitm_core.Pipeline.Failure.{abort_state}
use mitm_core.Url.{UrlLib}
use mitm_core.Mutator.{
  Applied, applied, refused, invalid, apply_http_plain_state, apply_connect_state,
  apply_https_decrypted_state, apply_upgrade_state, apply_response_state, fail_pipeline,
}

abbrev pub Emit : Type 0
Emit = RequestScope → RequestScope × Option Thrown

-- What `new URL` throws.
abbrev pub invalid_url : Thrown
invalid_url = error "Invalid URL" (some "ERR_INVALID_URL")

destroy_res : RequestScope → RequestScope
destroy_res s = elim s.request.client.res [
  | none ↦ s
  | some res ↦ if res.destroyed then s else set_res (destroy_response res) s
]

destroy_once : Socket → Socket
destroy_once socket = if socket.destroyed then socket else destroy_socket socket

destroy_connection : RequestScope → RequestScope
unfolding destroy_once
destroy_connection s = set_socket (destroy_once s.session.socket) s

-- The socket of an upgrade is the session's, and the one that waits for the answer.
destroy_upgrade : RequestScope → RequestScope
unfolding destroy_connection
destroy_upgrade s = elim s.request.web_socket [
  | none ↦ destroy_connection s
  | some w ↦ elim w.raw_upgrade_socket [
    | none ↦ destroy_connection s
    | some socket ↦
        destroy_connection
          (set_web_socket (record w { raw_upgrade_socket = some (destroy_once socket) }) s)
  ]
]

module _ (now : ℕ) where
  -- The `catch` of a handler: an abort is recorded, anything else ends the request.
  unfoldable pub catch_in :
      Phase
      → (RequestScope → RequestScope)
      → Manager
      → RequestScope
      → Thrown
      → RequestScope × Manager
  catch_in phase destroy m s (signal sig) = (set_abort (abort_state now sig phase) s, m)
  catch_in phase destroy m s (error a b) = let (t, m') = fail_pipeline s m in (destroy t, m')
  catch_in phase destroy m s (object a b c) = let (t, m') = fail_pipeline s m in (destroy t, m')
  catch_in phase destroy m s (primitive a) = let (t, m') = fail_pipeline s m in (destroy t, m')

  -- The awaited emissions, in order, with the test of `isHijacked` after each; then the rest.
  unfoldable pub emit_in_turn :
      Phase
      → (RequestScope → RequestScope)
      → (RequestScope → RequestScope)
      → Manager
      → List Emit
      → RequestScope
      → RequestScope × Manager
  emit_in_turn phase destroy rest m [] s = (rest s, m)
  emit_in_turn phase destroy rest m (emit ∷ emits) s =
      let (t, thrown) = emit s in
      let later = emit_in_turn phase destroy rest m emits t in
      elim thrown [
        | some e ↦ catch_in phase destroy m t e
        | none ↦ if t.lifecycle.is_hijacked then (t, m) else later
      ]

  -- The body that the handlers share: the state of the scope, the emissions, and the rest.
  unfoldable pub enter :
      Phase
      → (RequestScope → RequestScope)
      → (RequestScope → RequestScope)
      → List Emit
      → Manager
      → Applied
      → RequestScope × Manager
  unfolding emit_in_turn catch_in
  enter phase destroy rest emits m (applied s) = emit_in_turn phase destroy rest m emits s
  enter phase destroy rest emits m (refused s) = (s, m)
  enter phase destroy rest emits m (invalid s) = catch_in phase destroy m s invalid_url

  module _ (lib : UrlLib) (plugins proxy_events : String → Emit)
      (run : RequestScope → RequestScope) where
    unfoldable pub on_connect :
        IncomingMessage → Socket → Buffer → RequestScope → Manager → RequestScope × Manager
    unfolding enter destroy_connection
    on_connect req socket head s m =
        enter Phase.handshake destroy_connection run
          (plugins "proxy:client-connect" ∷ proxy_events "connect:request" ∷ []) m
          (apply_connect_state lib s req socket head)

    unfoldable pub on_http_plain :
        IncomingMessage → Response → RequestScope → Manager → RequestScope × Manager
    unfolding enter destroy_res
    on_http_plain req res s m =
        enter Phase.request destroy_res run
          (plugins "proxy:client-http-request" ∷ proxy_events "http:request" ∷ []) m
          (apply_http_plain_state lib s req res)

    unfoldable pub on_https_decrypted : RequestScope → Manager → RequestScope × Manager
    unfolding enter destroy_res
    on_https_decrypted s m =
        enter Phase.request destroy_res run
          (plugins "proxy:client-https-request" ∷ proxy_events "https:request" ∷ []) m
          (apply_https_decrypted_state lib s)

    -- It ends with the plugins: the pipeline is not run from here.
    unfoldable pub on_upstream_response :
        IncomingMessage → RequestScope → Manager → RequestScope × Manager
    unfolding enter destroy_res
    on_upstream_response upstream_res s m =
        enter Phase.response destroy_res (λ t. t) (plugins "proxy:target-response" ∷ []) m
          (applied (apply_response_state s upstream_res))

    unfoldable pub on_ws_upgrade :
        IncomingMessage → Socket → Buffer → RequestScope → Manager → RequestScope × Manager
    unfolding enter destroy_upgrade
    on_ws_upgrade req socket head s m =
        enter Phase.request destroy_upgrade run (proxy_events "ws:request" ∷ []) m
          (apply_upgrade_state lib s req socket head)

-- `onTCP`: a session for the socket. Whatever a listener of `connection:open` throws is logged.
unfoldable pub on_tcp : Socket → Manager → Manager
on_tcp socket m = (get_or_create_session_context socket m).0
