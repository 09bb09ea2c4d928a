-- ===== src/Transport/Ws/Messages.antt =====
-- WSOutboundBridge.ts: `handleClientMessage` and `handleUpstreamMessage` with `handleMessageSafely`
-- around them. Each message waits for the plugins of its own, and nothing makes a message wait for
-- the one before: the handlers are given as the events of their stretches, in the order in which
-- the loop runs them.
pub mod Order
use mitm_core.Prelude.{
  ℕ, suc, String, Bool, true, false, Option, none, some, List, [], ◌∷◌, ◌++◌, if◌then◌else◌, nat_eq,
}
use mitm_core.Prelude.Assoc.{Assoc, lookup, insert, remove}
use mitm_core.Net.{Buffer}
use mitm_core.Signals.{Thrown, signal, error, object, primitive}
use mitm_core.Scope.{RequestScope}
use mitm_core.Assign.{report}
use mitm_core.Transport.Ws.{WebSocket, is_open}

-- `WsMessageContext`.
pub record MessageContext : Type 0 where
  pub payload : Buffer
  pub is_binary : Bool
  pub drop : Bool

-- What the plugins are handed for a message.
abbrev pub new_context : Buffer → Bool → MessageContext
new_context raw is_binary = record { payload = raw; is_binary = is_binary; drop = false }

-- The messages of one direction: the scope, the socket that they are sent on, those that wait for
-- the plugins and those that wait for the observers, by their number, how many came, and what
-- `handleMessageSafely` handed to `onError`.
pub record Relay : Type 0 where
  pub scope : RequestScope
  pub peer : WebSocket
  pub waiting : Assoc ℕ (Buffer × Bool)
  pub observed : Assoc ℕ (Buffer × Bool)
  pub count : ℕ
  pub failures : List Thrown

-- A message comes; the plugins of one settle, with the context as they leave it; and the observers.
pub data MessageEvent : Type 0 where
  came : Buffer → Bool → MessageEvent
  told : ℕ → MessageContext → Option Thrown → MessageEvent
  seen : ℕ → Option Thrown → MessageEvent

-- The `catch` of the handler, and the one of `handleMessageSafely` behind it: an abort is thrown on
-- to `onError`, anything else is reported.
unfoldable pub catch_message : Thrown → Relay → Relay
catch_message (signal s) r = record r { failures = r.failures ++ signal s ∷ [] }
catch_message (error message code) r = record r { scope = report (error message code) r.scope }
catch_message (object message code shown) r = record r {
  scope = report (object message code shown) r.scope;
}
catch_message (primitive shown) r = record r { scope = report (primitive shown) r.scope }

unfoldable pub send : MessageContext → WebSocket → WebSocket
send context ws =
    if is_open ws
    then record ws { sent = ws.sent ++ (context.payload, context.is_binary) ∷ [] }
    else ws

-- The stretch between the plugins and the observers; these see the message as it came.
unfoldable pub deliver : ℕ → Buffer × Bool → MessageContext → Relay → Relay
unfolding send
deliver n raw context r =
    if r.scope.lifecycle.is_hijacked
    then r
    else if context.drop
    then r
    else record r { peer = send context r.peer; observed = insert n raw r.observed }

after_plugins : ℕ → Buffer × Bool → MessageContext → Option Thrown → Relay → Relay
unfolding catch_message deliver
after_plugins n raw context none r = deliver n raw context r
after_plugins n raw context (some e) r = catch_message e r

after_observers : Option Thrown → Relay → Relay
unfolding catch_message
after_observers none r = r
after_observers (some e) r = catch_message e r

on_told : ℕ → MessageContext → Option Thrown → Relay → Option (Buffer × Bool) → Relay
unfolding after_plugins
on_told n context thrown r none = r
on_told n context thrown r (some raw) =
    after_plugins n raw context thrown (record r { waiting = remove n r.waiting })

on_seen : ℕ → Option Thrown → Relay → Option (Buffer × Bool) → Relay
unfolding after_observers
on_seen n thrown r none = r
on_seen n thrown r (some raw) = after_observers thrown (record r { observed = remove n r.observed })

-- One stretch of a handler, given the scope and the state of the socket as they are when it starts.
unfoldable pub on_message : RequestScope → MessageEvent → Relay → Relay
unfolding on_told on_seen
on_message s (came raw is_binary) r = record r {
  scope = s;
  waiting = insert r.count (raw, is_binary) r.waiting;
  count = suc r.count;
}
on_message s (told n context thrown) r =
    on_told n context thrown (record r { scope = s }) (lookup n r.waiting)
on_message s (seen n thrown) r = on_seen n thrown (record r { scope = s }) (lookup n r.observed)

unfoldable pub on_messages : List (RequestScope × MessageEvent) → Relay → Relay
on_messages [] r = r
on_messages ((s, e) ∷ events) r = on_messages events (on_message s e r)
