-- ===== src/Mutator.antt =====
-- core/scope/ScopeMutator.ts: the writes to a scope with which a request enters a phase, and those
-- that end it.
pub mod States
use Prim.Native.String.{◌++◌}
use mitm_core.Prelude.{
  ℕ, String, Bool, true, false, not, ◌||◌, Option, none, some, if◌then◌else◌, or_else, ◌==◌,
  string_eq, is_some,
}
use mitm_core.Prelude.Text.{starts_with, to_lower}
use mitm_core.Net.{Buffer, IncomingMessage, ClientRequest, Response, Socket}
use mitm_core.Phase.{Phase}
use mitm_core.State.{flag}
use mitm_core.Scope.{RequestScope, Protocol, ConnectionType, HttpVersion, WebSocketContext}
use mitm_core.Assign.{
  set_next_phase, set_client, set_upstream, set_target, set_web_socket, set_protocol, set_state,
  set_socket,
}
use mitm_core.Context.Manager.{Manager}
use mitm_core.Context.Request.{destroy_request_lifecycle}
use mitm_core.Url.{UrlLib, Url, parse_http_request_data, parse_connect_data, non_empty}

-- What an `apply…State` leaves: it returned true, or false, or a `new URL` threw; the scope is as it
-- was left in each case.
pub data Applied : Type 0 where
  applied : RequestScope → Applied
  refused : RequestScope → Applied
  invalid : RequestScope → Applied

version_of : IncomingMessage → HttpVersion
version_of req = elim req.http_version [
  | none ↦ HttpVersion.unknown
  | some v ↦ if starts_with v "1" then HttpVersion.h1 else HttpVersion.unknown
]

protocol_of : ConnectionType → IncomingMessage → Protocol
unfolding version_of
protocol_of type req = record { connection_type = some type; http_version = some (version_of req) }

-- `request.client.method`, `url` and `headers` of the request.
with_request : IncomingMessage → RequestScope → RequestScope
with_request req s =
    set_client
      (record (s.request.client) {
        req = some req;
        method = req.method;
        url = req.url;
        headers = some req.headers;
      })
      s

with_response : Response → RequestScope → RequestScope
with_response res s = set_client (record (s.request.client) { res = some res }) s

module _ (lib : UrlLib) where
  unfoldable pub apply_http_plain_state : RequestScope → IncomingMessage → Response → Applied
  unfolding protocol_of with_request with_response
  apply_http_plain_state s req res =
      let entered =
        with_response res
          (with_request req (set_protocol (protocol_of ConnectionType.http req) s)) in
      elim (parse_http_request_data lib req none none) [
        | none ↦ invalid entered
        | some d ↦ applied (
            set_next_phase (some Phase.request) (
              set_target
                (record {
                  original_host = some d.host;
                  original_url = some d.full_url;
                  host = some d.host;
                  url = some d.full_url;
                })
                entered))
      ]

  unfoldable pub apply_connect_state : RequestScope → IncomingMessage → Socket → Buffer → Applied
  unfolding protocol_of
  apply_connect_state s req socket head =
      let d = parse_connect_data lib req in
      let session = record (s.session) {
        protocol = protocol_of ConnectionType.https req;
        socket = socket;
        head = some head;
      } in
      let client = record (s.request.client) { req = some req; headers = some req.headers } in
      applied (
        set_next_phase (some Phase.handshake) (
          set_target
            (record (s.request.target) { original_host = some d.host; original_url = some d.url })
            (set_client client (record s { session = session }))))

  -- `/^https?:\/\//i.test(authority)`.
  abbrev has_protocol : String → Bool
  has_protocol authority =
      starts_with (to_lower authority) "http://" || starts_with (to_lower authority) "https://"

  -- The URL of the decrypted request with the port of the authority that was connected to; `none`
  -- is the exception for what is no URL.
  redirected : String → String → Option String
  redirected authority full_url = elim (lib.parse full_url) [
    | none ↦ none
    | some target ↦
        elim (lib.parse (if has_protocol authority then authority else "https://" ++ authority)) [
          | none ↦ none
          | some a ↦ some (lib.with_port a.port target).href
        ]
  ]

  target_url : Option String → String → Option String
  unfolding redirected
  target_url original_url full_url = elim (non_empty original_url) [
    | none ↦ some full_url
    | some authority ↦ if full_url == "" then some full_url else redirected authority full_url
  ]

  unfoldable pub apply_https_decrypted_state : RequestScope → Applied
  unfolding with_request target_url
  apply_https_decrypted_state s = elim s.request.client.req [
    | none ↦ refused s
    | some req ↦
        let entered = with_request req s in
        elim (parse_http_request_data lib req none none) [
          | none ↦ invalid entered
          | some d ↦
              let hosted = set_target (record (s.request.target) { host = some d.host }) entered in
              elim (target_url s.request.target.original_url d.full_url) [
                | none ↦ invalid hosted
                | some url ↦ applied (
                    set_next_phase (some Phase.request) (
                      set_target (record (s.request.target) { host = some d.host; url = some url })
                        hosted))
              ]
        ]
  ]

  -- `new URL(fullUrl)`, or else the request's path on its host; `none` if neither is a URL.
  upgrade_url : IncomingMessage → String → String → Option Url
  upgrade_url req host full_url = elim (lib.parse full_url) [
    | some url ↦ some url
    | none ↦ lib.parse_from (or_else (non_empty req.url) "/") ("http://" ++ host)
  ]

  unfoldable pub apply_upgrade_state : RequestScope → IncomingMessage → Socket → Buffer → Applied
  unfolding protocol_of with_request upgrade_url
  apply_upgrade_state s req socket head =
      let entered = with_request req (set_protocol (protocol_of ConnectionType.http req) s) in
      elim (parse_http_request_data lib req none none) [
        | none ↦ invalid entered
        | some d ↦ elim (upgrade_url req d.host d.full_url) [
          | none ↦ invalid entered
          | some url ↦
              let protocol = if socket.encrypted || req.encrypted then "wss" else "ws" in
              applied (
                set_next_phase (some Phase.request) (
                  set_web_socket
                    (record {
                      is_upgraded = false;
                      subprotocol = none;
                      client = none;
                      upstream = none;
                      raw_upgrade_socket = some socket;
                      upgrade_head = some head;
                    })
                    (set_target
                      (record {
                        original_host = some d.host;
                        original_url = some d.full_url;
                        host = some d.host;
                        url = some (lib.with_protocol protocol url).href;
                      })
                      entered)))
        ]
      ]

unfoldable pub apply_upstream_init_state : RequestScope → ClientRequest → RequestScope
apply_upstream_init_state s upstream_req =
    set_next_phase (some Phase.response)
      (set_upstream (record (s.request.upstream) { req = some upstream_req }) s)

unfoldable pub apply_response_state : RequestScope → IncomingMessage → RequestScope
apply_response_state s upstream_res =
    set_next_phase (some Phase.response)
      (set_upstream (record (s.request.upstream) { res = some upstream_res }) s)

unfoldable pub finish_pipeline : RequestScope → Manager → RequestScope × Manager
finish_pipeline s m = (
  set_next_phase none (set_state "request.finished" (flag true) s),
  destroy_request_lifecycle s.request.request_id m,
)

unfoldable pub fail_pipeline : RequestScope → Manager → RequestScope × Manager
fail_pipeline s m = (
  set_next_phase none (set_state "error" (flag true) s),
  destroy_request_lifecycle s.request.request_id m,
)
