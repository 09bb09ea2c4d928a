-- ===== src/Transport/Ws/Tunnel/Ends.antt =====
-- The close frames of a whole run.
use mitm_core.Prelude.{
  ℕ, String, Bool, true, false, Option, none, some, List, [], ◌∷◌, if◌then◌else◌, is_some,
  string_eq, All,
}
use mitm_core.Signals.{Thrown}
use mitm_core.Scope.{RequestScope}
use mitm_core.Assign.{report}
use mitm_core.Transport.Ws.{WebSocket, is_open, Side, client, upstream}
use mitm_core.Transport.Ws.Tunnel.{Tunnel, is_abort, on_upstream_error}
use mitm_core.Transport.Ws.Tunnel.Events.{
  Event, dispatched, failed, upgraded, upgrade_told, accepted, established, message_failed, ended,
  broken, socket_shut, timed_out, on_tunnel_event, on_tunnel_events, note, note_broken, on_close,
  on_ended, on_broken, on_message_failed, is_watched, with_scope, close_client, close_upstream,
  with_ended, close_with, shut_optional,
}
use mitm_core.Transport.Ws.Tunnel.Closing.{
  IsReceived, safe_close_code-IsSendable, ClosesWell, BothCloseWell, IsValid, if-Both,
  tear_down-Both, note-Both, note_broken-Both, on_dispatched-Both, on_upgrade_told-Both,
  on_upgraded-Both, on_accepted-Both, on_established-Both,
}

shut_frame : (o : Option WebSocket) → ClosesWell o → ClosesWell (shut_optional o)
shut_frame none h = h
shut_frame (some ws) h = h

close_upstream-Both :
    (code : ℕ) (reason : Option String) (t : Tunnel) (o : Option WebSocket)
    → IsReceived code
    → BothCloseWell t
    → BothCloseWell (close_upstream code reason t o)
unfolding close_upstream close_with
close_upstream-Both code reason t none p h = tear_down-Both t h
close_upstream-Both code reason t (some ws) p h =
    if-Both (is_open ws) _ _ (h.0, safe_close_code-IsSendable code p) (tear_down-Both t h)

close_client-Both :
    (code : ℕ) (reason : Option String) (t : Tunnel) (o : Option WebSocket)
    → IsReceived code
    → BothCloseWell t
    → BothCloseWell (close_client code reason t o)
unfolding close_client close_with
close_client-Both code reason t none p h = tear_down-Both t h
close_client-Both code reason t (some ws) p h =
    if-Both (is_open ws) _ _ (safe_close_code-IsSendable code p, h.1) (tear_down-Both t h)

on_ended-Both :
    (side : Side) (code : ℕ) (reason : Option String) (thrown : Option Thrown) (t : Tunnel)
    (b : Bool)
    → IsReceived code
    → BothCloseWell t
    → BothCloseWell (on_ended side code reason thrown t b)
unfolding on_ended on_close with_ended
on_ended-Both side code reason thrown t false p h = h
on_ended-Both client code reason thrown t true p (c, u) =
    let u' = note thrown (with_ended client t) in
    close_upstream-Both code reason u' u'.upstream_ws p
      (note-Both thrown (with_ended client t) (shut_frame t.client_ws c, u))
on_ended-Both upstream code reason thrown t true p (c, u) =
    let u' = note thrown (with_ended upstream t) in
    close_client-Both code reason u' u'.client_ws p
      (note-Both thrown (with_ended upstream t) (c, shut_frame t.upstream_ws u))

on_broken-Both :
    (err : Thrown) (thrown : Option Thrown) (t : Tunnel) (b : Bool)
    → BothCloseWell t
    → BothCloseWell (on_broken err thrown t b)
unfolding on_broken
on_broken-Both err thrown t false h = h
on_broken-Both err thrown t true h =
    tear_down-Both (note_broken err thrown t) (note_broken-Both err thrown t h)

on_message_failed-Both :
    (e : Thrown) (t : Tunnel) (b : Bool) → BothCloseWell t → BothCloseWell (on_message_failed e t b)
unfolding on_message_failed
on_message_failed-Both e t false h = h
on_message_failed-Both e t true h =
    let u = if is_abort e then t else record t { scope = report e t.scope } in
    tear_down-Both u (if-Both (is_abort e) t (record t { scope = report e t.scope }) h h)

on_tunnel_event-Both :
    (s : RequestScope) (e : Event) (t : Tunnel)
    → IsValid (s, e)
    → BothCloseWell t
    → BothCloseWell (on_tunnel_event s e t)
unfolding on_tunnel_event on_upstream_error
on_tunnel_event-Both s (dispatched thrown) t v h =
    if-Both t.is_dispatching _ t (on_dispatched-Both thrown (with_scope s t) h) h
on_tunnel_event-Both s failed t v h = h
on_tunnel_event-Both s (upgraded res socket) t v h =
    on_upgraded-Both res socket (with_scope s t) t.stage h
on_tunnel_event-Both s (upgrade_told thrown) t v h =
    on_upgrade_told-Both thrown (with_scope s t) t.stage h
on_tunnel_event-Both s (accepted c u) t (p, q) h =
    on_accepted-Both c u (with_scope s t) t.stage p q h
on_tunnel_event-Both s (established thrown) t v h =
    on_established-Both thrown (with_scope s t) t.stage h
on_tunnel_event-Both s (message_failed e) t v h =
    on_message_failed-Both e (with_scope s t) (is_some t.client_ws) h
on_tunnel_event-Both s (ended side code reason thrown) t v h =
    on_ended-Both side code reason thrown (with_scope s t) (is_some t.client_ws) v h
on_tunnel_event-Both s (broken side err thrown) t v h =
    on_broken-Both err thrown (with_scope s t) (is_some t.client_ws) h
on_tunnel_event-Both s (socket_shut side) t v h =
    if-Both (is_watched side t) _ t (tear_down-Both (with_scope s t) h) h
on_tunnel_event-Both s (timed_out side) t v h =
    if-Both (is_watched side t) _ t (tear_down-Both (with_scope s t) h) h

-- A tunnel with sockets that closed well, or with none, only sends close frames whose code `ws`
-- agrees to send, whatever codes its sides end with.
pub on_tunnel_events-BothCloseWell :
    (events : List (RequestScope × Event)) (t : Tunnel)
    → All IsValid events
    → BothCloseWell t
    → BothCloseWell (on_tunnel_events events t)
unfolding on_tunnel_events
on_tunnel_events-BothCloseWell [] t v h = h
on_tunnel_events-BothCloseWell ((s, e) ∷ events) t (v, vs) h =
    on_tunnel_events-BothCloseWell events (on_tunnel_event s e t) vs
      (on_tunnel_event-Both s e t v h)
