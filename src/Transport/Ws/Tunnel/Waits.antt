-- ===== src/Transport/Ws/Tunnel/Waits.antt =====
-- What the end of a side does to the tunnel.
use mitm_core.Prelude.{
  ℕ, String, Bool, true, false, Option, none, some, List, [], ◌∷◌, if◌then◌else◌, is_some,
  string_eq, ◌≡◌, refl, arith, ◌⊎◌, inl, inr,
}
use mitm_core.Signals.{Thrown}
use mitm_core.Scope.{RequestScope}
use mitm_core.Transport.Ws.{WebSocket, is_open, Side, client, upstream, other_side}
use mitm_core.Net.{IncomingMessage, Socket}
use mitm_core.Transport.Ws.Tunnel.{
  Tunnel, UpgradeStage, unopened, telling, accepting, announcing, left, is_abort, tear_down,
  on_upstream_error, bootstrap_failed, on_dispatched, on_upgrade, on_upgrade_told,
  after_upgrade_told,
}
use mitm_core.Transport.Ws.Tunnel.Events.{
  Event, dispatched, failed, upgraded, upgrade_told, accepted, established, message_failed, ended,
  broken, socket_shut, timed_out, on_tunnel_event, on_tunnel_events, note, note_broken, on_close,
  on_ended, on_broken, on_message_failed, is_watched, with_scope, close_client, close_upstream,
  with_ended, on_accepted, on_established, on_upgraded,
}

abbrev Ends : Side → Tunnel → Type 0
Ends side t = (t.is_torn_down ≡ true) ⊎ (is_watched (other_side side) t ≡ true)

tear_down-torn : (t : Tunnel) → (tear_down t).is_torn_down ≡ true
unfolding tear_down
tear_down-torn t = ground arith

if-Ends :
    (side : Side) (b : Bool) (t u : Tunnel)
    → Ends side t
    → Ends side u
    → Ends side (if b then t else u)
if-Ends side true t u h k = h
if-Ends side false t u h k = k

close_upstream-Ends :
    (code : ℕ) (reason : Option String) (t : Tunnel) (o : Option WebSocket)
    → Ends client (close_upstream code reason t o)
unfolding close_upstream
close_upstream-Ends code reason t none = inl (tear_down-torn t)
close_upstream-Ends code reason t (some ws) =
    if-Ends client (is_open ws) _ _ (inr refl) (inl (tear_down-torn t))

close_client-Ends :
    (code : ℕ) (reason : Option String) (t : Tunnel) (o : Option WebSocket)
    → Ends upstream (close_client code reason t o)
unfolding close_client
close_client-Ends code reason t none = inl (tear_down-torn t)
close_client-Ends code reason t (some ws) =
    if-Ends upstream (is_open ws) _ _ (inr refl) (inl (tear_down-torn t))

on_ended-Ends :
    (side : Side) (code : ℕ) (reason : Option String) (thrown : Option Thrown) (t : Tunnel)
    (b : Bool)
    → b ≡ true
    → Ends side (on_ended side code reason thrown t b)
unfolding on_ended on_close
on_ended-Ends side code reason thrown t false h = absurd cc
on_ended-Ends client code reason thrown t true h =
    close_upstream-Ends code reason (note thrown (with_ended client t)) _
on_ended-Ends upstream code reason thrown t true h =
    close_client-Ends code reason (note thrown (with_ended upstream t)) _

fires :
    (b : Bool) (t u : Tunnel)
    → t.is_torn_down ≡ true
    → (u.is_torn_down ≡ true) ⊎ (b ≡ true)
    → (if b then t else u).is_torn_down ≡ true
fires true t u p h = p
fires false t u p (inl h) = h
fires false t u p (inr h) = absurd cc

-- What is torn down or watched stays so.
abbrev Stays : Tunnel → Tunnel → Type 0
Stays t u =
    (t.is_torn_down ≡ true → u.is_torn_down ≡ true)
    × (t.watched_client ≡ true → u.watched_client ≡ true)
    × (t.watched_upstream ≡ true → u.watched_upstream ≡ true)

Ends-Stays : (side : Side) (t u : Tunnel) → Stays t u → Ends side t → Ends side u
Ends-Stays client t u (torn, c, o) (inl h) = inl (torn h)
Ends-Stays client t u (torn, c, o) (inr h) = inr (o h)
Ends-Stays upstream t u (torn, c, o) (inl h) = inl (torn h)
Ends-Stays upstream t u (torn, c, o) (inr h) = inr (c h)

if-Stays : (b : Bool) (t u v : Tunnel) → Stays t u → Stays t v → Stays t (if b then u else v)
if-Stays true t u v h k = h
if-Stays false t u v h k = k

same : (t : Tunnel) → Stays t t
same t = ((λ h. h), (λ h. h), (λ h. h))

tear_down-Stays : (t : Tunnel) → Stays t (tear_down t)
unfolding tear_down
tear_down-Stays t = ground arith

bootstrap_failed-Stays : (e : Thrown) (t : Tunnel) → Stays t (bootstrap_failed e t)
unfolding bootstrap_failed
bootstrap_failed-Stays e t =
    if-Stays (is_abort e) t _ _ (same t) (tear_down-Stays (record t { stage = left }))

on_dispatched-Stays : (thrown : Option Thrown) (t : Tunnel) → Stays t (on_dispatched thrown t)
unfolding on_dispatched
on_dispatched-Stays none t = if-Stays t.scope.lifecycle.is_hijacked t _ _ (same t) (same t)
on_dispatched-Stays (some e) t = if-Stays (is_abort e) t _ _ (same t) (same t)

on_upgraded-Stays :
    (res : IncomingMessage) (k : Socket) (t : Tunnel) (stage : UpgradeStage)
    → Stays t (on_upgraded res k t stage)
unfolding on_upgraded on_upgrade
on_upgraded-Stays res k t unopened = if-Stays t.request_sent t _ _ (same t) (same t)
on_upgraded-Stays res k t (telling r) = same t
on_upgraded-Stays res k t (accepting r) = same t
on_upgraded-Stays res k t announcing = same t
on_upgraded-Stays res k t left = same t

on_upgrade_told-Stays :
    (thrown : Option Thrown) (t : Tunnel) (stage : UpgradeStage)
    → Stays t (on_upgrade_told thrown t stage)
unfolding on_upgrade_told after_upgrade_told
on_upgrade_told-Stays (some e) t (telling r) =
    if-Stays (is_abort e) t _ _ (tear_down-Stays (record t { stage = left }))
      (bootstrap_failed-Stays e t)
on_upgrade_told-Stays none t (telling r) =
    if-Stays t.scope.lifecycle.is_hijacked t _ _ (same t) (same t)
on_upgrade_told-Stays none t unopened = same t
on_upgrade_told-Stays (some e) t unopened = same t
on_upgrade_told-Stays none t (accepting r) = same t
on_upgrade_told-Stays (some e) t (accepting r) = same t
on_upgrade_told-Stays none t announcing = same t
on_upgrade_told-Stays (some e) t announcing = same t
on_upgrade_told-Stays none t left = same t
on_upgrade_told-Stays (some e) t left = same t

on_accepted-Stays :
    (c u : WebSocket) (t : Tunnel) (stage : UpgradeStage) → Stays t (on_accepted c u t stage)
unfolding on_accepted
on_accepted-Stays c u t (accepting r) = same t
on_accepted-Stays c u t unopened = same t
on_accepted-Stays c u t (telling r) = same t
on_accepted-Stays c u t announcing = same t
on_accepted-Stays c u t left = same t

on_established-Stays :
    (thrown : Option Thrown) (t : Tunnel) (stage : UpgradeStage)
    → Stays t (on_established thrown t stage)
unfolding on_established
on_established-Stays none t announcing = same t
on_established-Stays (some e) t announcing = bootstrap_failed-Stays e t
on_established-Stays none t unopened = same t
on_established-Stays (some e) t unopened = same t
on_established-Stays none t (telling r) = same t
on_established-Stays (some e) t (telling r) = same t
on_established-Stays none t (accepting r) = same t
on_established-Stays (some e) t (accepting r) = same t
on_established-Stays none t left = same t
on_established-Stays (some e) t left = same t

on_message_failed-Stays : (e : Thrown) (t : Tunnel) (b : Bool) → Stays t (on_message_failed e t b)
unfolding on_message_failed tear_down
on_message_failed-Stays e t false = same t
on_message_failed-Stays e t true = ground arith

note-Stays : (thrown : Option Thrown) (t : Tunnel) → Stays t (note thrown t)
unfolding note
note-Stays none t = same t
note-Stays (some e) t = if-Stays (is_abort e) t _ _ (same t) (same t)

on_ended-Stays :
    (side : Side) (code : ℕ) (reason : Option String) (thrown : Option Thrown) (t : Tunnel)
    (b : Bool)
    → Stays t (on_ended side code reason thrown t b)
unfolding on_ended on_close close_client close_upstream with_ended note tear_down
on_ended-Stays side code reason thrown t false = same t
on_ended-Stays client code reason thrown t true = ground arith
on_ended-Stays upstream code reason thrown t true = ground arith

on_broken-Stays :
    (err : Thrown) (thrown : Option Thrown) (t : Tunnel) (b : Bool)
    → Stays t (on_broken err thrown t b)
unfolding on_broken note_broken tear_down
on_broken-Stays err thrown t false = same t
on_broken-Stays err thrown t true = ground arith

on_tunnel_event-Stays :
    (s : RequestScope) (e : Event) (t : Tunnel) → Stays t (on_tunnel_event s e t)
unfolding on_tunnel_event on_upstream_error
on_tunnel_event-Stays s (dispatched thrown) t =
    if-Stays t.is_dispatching t _ _ (on_dispatched-Stays thrown (with_scope s t)) (same t)
on_tunnel_event-Stays s failed t = same t
on_tunnel_event-Stays s (upgraded res k) t = on_upgraded-Stays res k (with_scope s t) t.stage
on_tunnel_event-Stays s (upgrade_told thrown) t =
    on_upgrade_told-Stays thrown (with_scope s t) t.stage
on_tunnel_event-Stays s (accepted c u) t = on_accepted-Stays c u (with_scope s t) t.stage
on_tunnel_event-Stays s (established thrown) t =
    on_established-Stays thrown (with_scope s t) t.stage
on_tunnel_event-Stays s (message_failed e) t =
    on_message_failed-Stays e (with_scope s t) (is_some t.client_ws)
on_tunnel_event-Stays s (ended side code reason thrown) t =
    on_ended-Stays side code reason thrown (with_scope s t) (is_some t.client_ws)
on_tunnel_event-Stays s (broken side err thrown) t =
    on_broken-Stays err thrown (with_scope s t) (is_some t.client_ws)
on_tunnel_event-Stays s (socket_shut side) t =
    if-Stays (is_watched side t) t _ _ (tear_down-Stays (with_scope s t)) (same t)
on_tunnel_event-Stays s (timed_out side) t =
    if-Stays (is_watched side t) t _ _ (tear_down-Stays (with_scope s t)) (same t)

on_tunnel_events-Ends :
    (side : Side) (events : List (RequestScope × Event)) (t : Tunnel)
    → Ends side t
    → Ends side (on_tunnel_events events t)
unfolding on_tunnel_events
on_tunnel_events-Ends side [] t h = h
on_tunnel_events-Ends side ((s, e) ∷ events) t h =
    on_tunnel_events-Ends side events _ (Ends-Stays side t _ (on_tunnel_event-Stays s e t) h)

torn_stays :
    (events : List (RequestScope × Event)) (t : Tunnel)
    → t.is_torn_down ≡ true
    → (on_tunnel_events events t).is_torn_down ≡ true
unfolding on_tunnel_events
torn_stays [] t h = h
torn_stays ((s, e) ∷ events) t h = torn_stays events _ ((on_tunnel_event-Stays s e t).0 h)

-- Once a side has ended, the tunnel is torn down at the latest when the timer for the other side runs
-- out, whatever events come in between and after that, whatever the scope is by then, and also if a
-- listener of "ws:close" threw or the request is hijacked.
pub ended_tears_down :
    (side : Side) (code : ℕ) (reason : Option String) (thrown : Option Thrown)
    (s later : RequestScope) (between after : List (RequestScope × Event)) (t : Tunnel)
    → is_some t.client_ws ≡ true
    → (on_tunnel_events after (
        on_tunnel_event later (timed_out (other_side side)) (
          on_tunnel_events between
            (on_tunnel_event s (ended side code reason thrown) t)))).is_torn_down
      ≡ true
unfolding on_tunnel_event
ended_tears_down side code reason thrown s later between after t h =
    let ending = on_ended side code reason thrown (with_scope s t) (is_some t.client_ws) in
    let u = on_tunnel_events between ending in
    torn_stays after _ (
      fires (is_watched (other_side side) u) (tear_down (with_scope later u)) u
        (tear_down-torn (with_scope later u))
        (on_tunnel_events-Ends side between ending
          (on_ended-Ends side code reason thrown (with_scope s t) (is_some t.client_ws) h)))
