-- ===== src/Handlers/Handshake.antt =====
-- core/handlers/handshake.handler.ts: what `HandshakeHandler.handle` does before the TLS connection,
-- which certificate it shows, and the TLS connection in Tls. The section's parameters are the awaited
-- emissions, `tls.createSecureContext`, and the two ways to a secure context by a host's name.
pub mod Tls
pub mod Head
pub mod Settling
pub mod Answering
use mitm_core.Prelude.{
  ℕ, String, Bool, true, false, not, ◌&&◌, ◌||◌, Option, none, some, List, [], ◌∷◌, ◌++◌,
  if◌then◌else◌, ◌==◌, string_eq, ◌⊎◌, inl, inr, is_some,
}
use mitm_core.Prelude.Assoc.{lookup}
use mitm_core.Net.{Ref, Buffer, Socket, IncomingMessage, write_socket, destroy_socket}
use mitm_core.Signals.{Thrown, signal, error, object, primitive}
use mitm_core.State.{is_set, flag}
use mitm_core.Assign.{set_state}
use mitm_core.Scope.{RequestScope, Certificate}
use mitm_core.Url.{non_empty}

-- How a part of the handler ends: it returned, it threw, or the handler goes on.
pub data Greeting : Type 0 where
  returned : RequestScope → Socket → Greeting
  threw : RequestScope → Socket → Thrown → Greeting
  shaken : RequestScope → Socket → Greeting

-- The `catch` of the emissions: an abort is thrown on, and anything else destroys the socket.
unfoldable pub catch_emission : Socket → RequestScope → Thrown → Greeting
catch_emission k s (signal sig) = threw s k (signal sig)
catch_emission k s (error message code) = returned s (if k.destroyed then k else destroy_socket k)
catch_emission k s (object message code shown) =
    returned s (if k.destroyed then k else destroy_socket k)
catch_emission k s (primitive shown) = returned s (if k.destroyed then k else destroy_socket k)

-- `bind` of the handler's parts.
unfoldable pub continue_with : Greeting → (RequestScope → Socket → Greeting) → Greeting
continue_with (returned s k) next = returned s k
continue_with (threw s k e) next = threw s k e
continue_with (shaken s k) next = next s k

-- What an awaited emission leaves. The listeners are handed the socket, or find it in the scope, and
-- may write to it and close it.
pub record Told : Type 0 where
  pub scope : RequestScope
  pub socket : Socket
  pub thrown : Option Thrown

abbrev pub Tell : Type 0
Tell = RequestScope → Socket → Told

after_emission : Told → Option Thrown → Greeting
unfolding catch_emission
after_emission r (some e) = catch_emission r.socket r.scope e
after_emission r none =
    if r.scope.lifecycle.is_hijacked then returned r.scope r.socket else shaken r.scope r.socket

-- One awaited emission in its `try`, with the test of `isHijacked` behind it.
unfoldable pub emit_guarded : Tell → RequestScope → Socket → Greeting
unfolding after_emission
emit_guarded emit s k = let r = emit s k in after_emission r r.thrown

written_with : Option Thrown → RequestScope → Socket → Greeting
written_with none s k = shaken s k
written_with (some e) s k = threw s k e

-- The promise of the write; `failure` is what the write's callback is given.
unfoldable pub establish : Option Thrown → RequestScope → Socket → Greeting
unfolding written_with
establish failure s k =
    if not k.writable || k.destroyed
    then shaken s k
    else written_with failure s (write_socket "HTTP/1.1 200 Connection Established\r\n\r\n" k)

put_back : Option Buffer → RequestScope → Socket → Greeting
put_back none s k = shaken s k
put_back (some []) s k = shaken s k
put_back (some (b ∷ bytes)) s k =
    shaken (record s { session = record (s.session) { head = none } })
      (record k { unread = (b ∷ bytes) ∷ k.unread })

-- `socket.unshift(session.head)`.
unfoldable pub unshift_head : RequestScope → Socket → Greeting
unfolding put_back
unshift_head s k = put_back s.session.head s k

refuse_host : RequestScope → Socket → Greeting
refuse_host s k =
    if k.writable && not k.destroyed
    then returned s
        (destroy_socket (write_socket "HTTP/1.1 400 Bad Request\r\nConnection: close\r\n\r\n" k))
    else returned s k

module _ (before_plugins before_events after_plugins after_events : Tell) where
  greet_host : Option Thrown → RequestScope → Socket → Option String → Greeting
  unfolding refuse_host continue_with emit_guarded establish unshift_head
  greet_host failure s k none = refuse_host s k
  greet_host failure s k (some host) = continue_with (emit_guarded before_plugins s k) (λ s k.
      continue_with (emit_guarded before_events s k) (λ s k.
        continue_with (establish failure s k) (λ s k. continue_with (unshift_head s k) (λ s k.
          continue_with (emit_guarded after_plugins s k) (λ s k. emit_guarded after_events s k)))))

  greet_open : Option Thrown → RequestScope → Option Socket → Greeting
  unfolding greet_host
  greet_open failure s none = returned s s.session.socket
  greet_open failure s (some k) =
      if is_set "request.finished" s.lifecycle.state
      then returned s k
      else greet_host failure s k (non_empty s.request.target.original_host)

  greet_request : Option Thrown → RequestScope → Option Socket → Option IncomingMessage → Greeting
  unfolding greet_open
  greet_request failure s socket none = returned s s.session.socket
  greet_request failure s socket (some req) = greet_open failure s socket

  -- `handle` up to the certificate; `socket` is `request.client.req?.socket`.
  unfoldable pub greet : Option Thrown → RequestScope → Option Socket → Greeting
  unfolding greet_request
  greet failure s socket = greet_request failure s socket s.request.client.req

module _ (create : Certificate → Thrown ⊎ Ref) (use_cache : Bool)
    (get_context generate_context : String → Thrown ⊎ Ref) where
  by_leaf : String → Option Certificate → Thrown ⊎ Ref
  by_leaf host (some leaf) = create leaf
  by_leaf host none = if use_cache then get_context host else generate_context host

  custom_leaf : String → RequestScope → Option Certificate
  custom_leaf host s = elim s.session.custom_certificates [
    | none ↦ none
    | some certificates ↦ lookup host certificates
  ]

  -- The context of the connection's own host.
  unfoldable pub secure_context_of : String → RequestScope → Thrown ⊎ Ref
  unfolding by_leaf custom_leaf
  secure_context_of host s = by_leaf host (custom_leaf host s)

  -- `SNICallback`; `is_ip` is `net.isIP(name) !== 0`. What it hands to its callback, for the host and
  -- the context of the connection.
  sni_target : (String → Bool) → String → Option String → String
  sni_target is_ip host none = host
  sni_target is_ip host (some name) = if is_ip name then host else name

  noted : RequestScope → Thrown ⊎ Ref → RequestScope × (Thrown ⊎ Ref)
  noted s (inl e) = (set_state "error" (flag true) s, inl e)
  noted s (inr ctx) = (s, inr ctx)

  unfoldable pub sni_callback :
      (String → Bool) → String → Ref → RequestScope → Option String → RequestScope × (Thrown ⊎ Ref)
  unfolding sni_target secure_context_of noted
  sni_callback is_ip host secure_context s server_name =
      let target = sni_target is_ip host (non_empty server_name) in
      if target == host then (s, inr secure_context) else noted s (secure_context_of target s)
