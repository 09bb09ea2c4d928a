-- ===== src/Transport/Ws/Tunnel/Once.antt =====
-- Whatever happens to a tunnel, in whatever order, its pipeline is finished at most once.
use mitm_core.Prelude.{
  ◌≤◌, String, Bool, true, false, Option, none, some, List, [], ◌∷◌, if◌then◌else◌, is_some,
  string_eq, ◌≡◌, refl, arith, ◌⊎◌, inl, inr, Bool-cases, subst,
}
use mitm_core.Net.{Socket, IncomingMessage, ClientRequest}
use mitm_core.Context.Manager.{Manager}
use mitm_core.Signals.{Thrown}
use mitm_core.Scope.{RequestScope, WebSocketContext}
use mitm_core.Transport.Ws.{client, upstream}
use mitm_core.Transport.Ws.Tunnel.{
  Tunnel, UpgradeStage, unopened, telling, accepting, announcing, left, on_upstream_error,
  on_upgrade, on_upgrade_told, on_dispatched, answer_bad_gateway, has_begun,
}
use mitm_core.Transport.Ws.Tunnel.Events.{
  Event, dispatched, failed, upgraded, upgrade_told, accepted, established, message_failed, ended,
  broken, socket_shut, timed_out, on_tunnel_event, on_tunnel_events, on_upgraded, new_tunnel,
  on_accepted, on_established, on_ended, on_broken, on_message_failed, is_watched, with_scope,
}
use mitm_core.Url.{Url, UrlLib, non_empty}
use mitm_core.Transport.Ws.Dial.{WsOptions, dial}
use mitm_core.Transport.Ws.Tunnel.Start.{
  execute_upgrade, opened_with, with_target, with_socket, with_context, with_request,
}
use mitm_core.Transport.Ws.Tunnel.Teardown.{
  AllDestroyed, clean_up-destroyed, IsSound, Begun, Unsent, Waiting, tear_down-Begun, if-Begun,
  on_upgrade_told-Begun, on_accepted-Begun, on_established-Begun, on_ended-Begun, on_broken-Begun,
  on_message_failed-Begun,
}

-- The plugins of the dispatch settle once.
once_dispatched : (b : Bool) (t u : Tunnel) → b ≡ false → Begun u → Begun (if b then t else u)
once_dispatched true t u p h = absurd cc
once_dispatched false t u p h = h

on_upstream_error-Begun : (t : Tunnel) → Begun t → Begun (on_upstream_error t)
unfolding on_upstream_error
on_upstream_error-Begun t (d, g, inl r) = (d, g, inl r)
on_upstream_error-Begun t (d, g, inr (torn, f, (_, u))) =
    (d, g, inr (torn, f, (clean_up-destroyed (answer_bad_gateway t.client_socket), u)))

on_upgraded-Begun :
    (res : IncomingMessage) (socket : Socket) (t : Tunnel) (stage : UpgradeStage)
    → has_begun stage ≡ true
    → Begun t
    → Begun (on_upgraded res socket t stage)
unfolding on_upgraded
on_upgraded-Begun res socket t unopened p h = absurd cc
on_upgraded-Begun res socket t (telling r) p h = h
on_upgraded-Begun res socket t (accepting r) p h = h
on_upgraded-Begun res socket t announcing p h = h
on_upgraded-Begun res socket t left p h = h

on_tunnel_event-Begun :
    (s : RequestScope) (e : Event) (t : Tunnel) → Begun t → Begun (on_tunnel_event s e t)
unfolding on_tunnel_event
on_tunnel_event-Begun s (dispatched thrown) t h =
    once_dispatched t.is_dispatching (on_dispatched thrown (with_scope s t)) t h.0 h
on_tunnel_event-Begun s failed t h = on_upstream_error-Begun (with_scope s t) h
on_tunnel_event-Begun s (upgraded res socket) t h =
    on_upgraded-Begun res socket (with_scope s t) t.stage h.1 h
on_tunnel_event-Begun s (upgrade_told thrown) t h =
    on_upgrade_told-Begun thrown (with_scope s t) t.stage h
on_tunnel_event-Begun s (accepted c u) t h = on_accepted-Begun c u (with_scope s t) t.stage h
on_tunnel_event-Begun s (established thrown) t h =
    on_established-Begun thrown (with_scope s t) t.stage h
on_tunnel_event-Begun s (message_failed e) t h =
    on_message_failed-Begun e (with_scope s t) (is_some t.client_ws) h
on_tunnel_event-Begun s (ended side code reason thrown) t h =
    on_ended-Begun side code reason thrown (with_scope s t) (is_some t.client_ws) h
on_tunnel_event-Begun s (broken side err thrown) t h =
    on_broken-Begun err thrown (with_scope s t) (is_some t.client_ws) h
on_tunnel_event-Begun s (socket_shut side) t h =
    if-Begun (is_watched side t) _ _ (tear_down-Begun (with_scope s t) h) h
on_tunnel_event-Begun s (timed_out side) t h =
    if-Begun (is_watched side t) _ _ (tear_down-Begun (with_scope s t) h) h

on_tunnel_event-Waiting :
    (s : RequestScope) (e : Event) (t : Tunnel) → Waiting t → IsSound (on_tunnel_event s e t)
unfolding on_tunnel_event on_upstream_error on_upgrade on_upgraded on_upgrade_told on_accepted
    on_established on_message_failed on_ended on_broken
on_tunnel_event-Waiting s (dispatched thrown) t h = ground arith
on_tunnel_event-Waiting s failed t h = inr (inl h)
on_tunnel_event-Waiting s (upgraded res socket) t h = ground arith
on_tunnel_event-Waiting s (upgrade_told none) t h = ground arith
on_tunnel_event-Waiting s (upgrade_told (some e)) t h = ground arith
on_tunnel_event-Waiting s (accepted c u) t h = ground arith
on_tunnel_event-Waiting s (established none) t h = ground arith
on_tunnel_event-Waiting s (established (some e)) t h = ground arith
on_tunnel_event-Waiting s (message_failed e) t h = ground arith
on_tunnel_event-Waiting s (ended side code reason thrown) t h = ground arith
on_tunnel_event-Waiting s (broken side err thrown) t h = ground arith
on_tunnel_event-Waiting s (socket_shut client) t h = ground arith
on_tunnel_event-Waiting s (socket_shut upstream) t h = ground arith
on_tunnel_event-Waiting s (timed_out client) t h = ground arith
on_tunnel_event-Waiting s (timed_out upstream) t h = ground arith

on_dispatched-IsSound :
    (thrown : Option Thrown) (t : Tunnel)
    → Unsent t
    → t.is_dispatching ≡ true
    → IsSound (on_dispatched thrown t)
unfolding on_dispatched
on_dispatched-IsSound none t h p = ground arith
on_dispatched-IsSound (some e) t h p = ground arith

on_tunnel_event-Unsent :
    (s : RequestScope) (e : Event) (t : Tunnel) → Unsent t → IsSound (on_tunnel_event s e t)
unfolding on_tunnel_event on_upstream_error on_upgrade on_upgraded on_upgrade_told on_accepted
    on_established on_message_failed on_ended on_broken
on_tunnel_event-Unsent s (dispatched thrown) t h = elim (Bool-cases t.is_dispatching) [
  | inl p ↦ ground (arith, on_dispatched-IsSound thrown (with_scope s t) h p)
  | inr p ↦ ground arith
]
on_tunnel_event-Unsent s failed t h = inl h
on_tunnel_event-Unsent s (upgraded res socket) t h = ground arith
on_tunnel_event-Unsent s (upgrade_told none) t h = ground arith
on_tunnel_event-Unsent s (upgrade_told (some e)) t h = ground arith
on_tunnel_event-Unsent s (accepted c u) t h = ground arith
on_tunnel_event-Unsent s (established none) t h = ground arith
on_tunnel_event-Unsent s (established (some e)) t h = ground arith
on_tunnel_event-Unsent s (message_failed e) t h = ground arith
on_tunnel_event-Unsent s (ended side code reason thrown) t h = ground arith
on_tunnel_event-Unsent s (broken side err thrown) t h = ground arith
on_tunnel_event-Unsent s (socket_shut client) t h = ground arith
on_tunnel_event-Unsent s (socket_shut upstream) t h = ground arith
on_tunnel_event-Unsent s (timed_out client) t h = ground arith
on_tunnel_event-Unsent s (timed_out upstream) t h = ground arith

on_tunnel_events-IsSound :
    (events : List (RequestScope × Event)) (t : Tunnel)
    → IsSound t
    → IsSound (on_tunnel_events events t)
unfolding on_tunnel_events
on_tunnel_events-IsSound [] t h = h
on_tunnel_events-IsSound ((s, e) ∷ events) t (inl h) =
    on_tunnel_events-IsSound events (on_tunnel_event s e t) (on_tunnel_event-Unsent s e t h)
on_tunnel_events-IsSound ((s, e) ∷ events) t (inr (inl h)) =
    on_tunnel_events-IsSound events (on_tunnel_event s e t) (on_tunnel_event-Waiting s e t h)
on_tunnel_events-IsSound ((s, e) ∷ events) t (inr (inr h)) =
    on_tunnel_events-IsSound events (on_tunnel_event s e t)
      (inr (inr (on_tunnel_event-Begun s e t h)))

new_tunnel-IsSound :
    (s : RequestScope) (m : Manager) (socket : Socket) (req : ClientRequest)
    → IsSound (new_tunnel s m socket req)
unfolding new_tunnel
new_tunnel-IsSound s m socket req = inl (refl, refl, refl, refl, refl, refl, omega arith)

bounded :
    (t : Tunnel)
    → IsSound t
    → (t.finishes ≤ 1) × ((t.is_torn_down ≡ false) ⊎ ((t.finishes ≡ 1) × AllDestroyed t))
bounded t h = ground arith

StartsSound : Thrown ⊎ Tunnel → Type 0
StartsSound (inl e) = Unit
StartsSound (inr t) = IsSound t

module _ (lib : UrlLib) (raise : String → Thrown) (make : WsOptions → ClientRequest)
    (key : String) where
  opened_with-StartsSound :
      (s : RequestScope) (m : Manager) (socket : Socket) (r : Thrown ⊎ WsOptions)
      → StartsSound (opened_with lib raise make key s m socket r)
  unfolding opened_with StartsSound
  opened_with-StartsSound s m socket (inl e) = tt
  opened_with-StartsSound s m socket (inr o) = new_tunnel-IsSound s m socket (make o)

  with_target-StartsSound :
      (s : RequestScope) (m : Manager) (req : IncomingMessage) (socket : Socket) (text : String)
      (o : Option Url)
      → StartsSound (with_target lib raise make key s m req socket text o)
  unfolding with_target StartsSound
  with_target-StartsSound s m req socket text none = tt
  with_target-StartsSound s m req socket text (some url) =
      opened_with-StartsSound s m socket (dial url key req)

  with_socket-StartsSound :
      (s : RequestScope) (m : Manager) (req : IncomingMessage) (k : Option Socket)
      (url : Option String)
      → StartsSound (with_socket lib raise make key s m req k url)
  unfolding with_socket StartsSound
  with_socket-StartsSound s m req none url = tt
  with_socket-StartsSound s m req (some socket) none = tt
  with_socket-StartsSound s m req (some socket) (some url) =
      with_target-StartsSound s m req socket url (lib.parse url)

  with_context-StartsSound :
      (s : RequestScope) (m : Manager) (req : IncomingMessage) (w : Option WebSocketContext)
      → StartsSound (with_context lib raise make key s m req w)
  unfolding with_context StartsSound
  with_context-StartsSound s m req none = tt
  with_context-StartsSound s m req (some w) =
      with_socket-StartsSound s m req w.raw_upgrade_socket (non_empty s.request.target.url)

  execute_upgrade-StartsSound :
      (s : RequestScope) (m : Manager) (req : Option IncomingMessage)
      → StartsSound (with_request lib raise make key s m req)
  unfolding with_request StartsSound
  execute_upgrade-StartsSound s m none = tt
  execute_upgrade-StartsSound s m (some req) = with_context-StartsSound s m req s.request.web_socket

  execute_starts :
      (s : RequestScope) (m : Manager) (t : Tunnel)
      → execute_upgrade lib raise make key s m ≡ inr t
      → IsSound t
  unfolding execute_upgrade StartsSound
  execute_starts s m t h =
      subst StartsSound h (execute_upgrade-StartsSound s m s.request.client.req)

  -- From the start of a tunnel, whatever events come and in whatever order, its pipeline is
  -- finished at most once; and if it was torn down, it was finished, and no socket of it is left.
  pub finishes_once :
      (s : RequestScope) (m : Manager) (t : Tunnel) (events : List (RequestScope × Event))
      → execute_upgrade lib raise make key s m ≡ inr t
      → let after = on_tunnel_events events t in
        (after.finishes ≤ 1)
        × ((after.is_torn_down ≡ false) ⊎ ((after.finishes ≡ 1) × AllDestroyed after))
  finishes_once s m t events h =
      bounded (on_tunnel_events events t)
        (on_tunnel_events-IsSound events t (execute_starts s m t h))
