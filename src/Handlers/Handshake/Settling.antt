-- ===== src/Handlers/Handshake/Settling.antt =====
-- When the promise of the TLS connection is settled, and when it never is.
use mitm_core.Prelude.{
  ◌≤◌, true, false, Option, none, some, List, [], ◌∷◌, ◌≡◌, ◌≢◌, refl, ◌⊎◌, inl, inr, length, arith,
}
use mitm_core.Net.{Socket}
use mitm_core.Scope.{RequestScope, HttpVersion}
use mitm_core.Context.Manager.{Manager}
use mitm_core.Handlers.Handshake.Tls.{
  TlsEvent, timed_out, secured, bridged, failed, closed, Connection, on_tls_event, on_tls_events,
  on_timed_out, on_secured, on_bridged, on_failed, with_version, new_connection,
}

-- Nothing happened; or the request goes on over the bridge; or no callback settles any more.
abbrev pub IsOpen : Connection → Type 0
IsOpen c = (c.is_settled ≡ false) × (c.is_bridging ≡ false) × (c.calls ≡ [])

abbrev IsBridging : Connection → Type 0
IsBridging c = (c.is_settled ≡ true) × (c.is_bridging ≡ true) × (c.calls ≡ [])

abbrev IsDone : Connection → Type 0
IsDone c = (c.is_settled ≡ true) × (c.is_bridging ≡ false) × (length c.calls ≤ 1)

abbrev IsSound : Connection → Type 0
IsSound c = IsOpen c ⊎ IsBridging c ⊎ IsDone c

with_version-IsSound :
    (v : Option HttpVersion) (c : Connection)
    → (c.is_settled ≡ true) × (c.is_bridging ≡ false) × (c.calls ≡ [])
    → IsSound (with_version v c)
unfolding with_version
with_version-IsSound none c h = ground arith
with_version-IsSound (some HttpVersion.h1) c h = ground arith
with_version-IsSound (some HttpVersion.h2) c h = ground arith
with_version-IsSound (some HttpVersion.h3) c h = ground arith
with_version-IsSound (some HttpVersion.unknown) c h = ground arith

on_secured-IsSound : (c : Connection) → IsSound c → IsSound (on_secured c)
unfolding on_secured
on_secured-IsSound c (inl (n, b, k)) =
    rw n (with_version-IsSound _ (record c { is_settled = true }) (refl, b, k))
on_secured-IsSound c (inr (inl h)) = ground arith
on_secured-IsSound c (inr (inr h)) = ground arith

on_tls_event-IsSound :
    (s : RequestScope) (e : TlsEvent) (c : Connection) → IsSound c → IsSound (on_tls_event s e c)
unfolding on_tls_event on_timed_out on_bridged on_failed
on_tls_event-IsSound s timed_out c h = ground arith
on_tls_event-IsSound s secured c h = on_secured-IsSound (record c { scope = s }) h
on_tls_event-IsSound s (bridged none) c h = ground arith
on_tls_event-IsSound s (bridged (some e)) c h = ground arith
on_tls_event-IsSound s (failed e) c h = ground arith
on_tls_event-IsSound s closed c h = h

on_tls_events-IsSound :
    (events : List (RequestScope × TlsEvent)) (c : Connection)
    → IsSound c
    → IsSound (on_tls_events events c)
unfolding on_tls_events
on_tls_events-IsSound [] c h = h
on_tls_events-IsSound ((s, e) ∷ events) c h =
    on_tls_events-IsSound events (on_tls_event s e c) (on_tls_event-IsSound s e c h)

at_most_one : (c : Connection) → IsSound c → length c.calls ≤ 1
at_most_one c h = ground arith

-- Whatever callbacks run and in whatever order, the promise of the handshake is settled at most
-- once.
pub handshake_settles_once :
    (s : RequestScope) (m : Manager) (socket tls_socket : Socket)
    (events : List (RequestScope × TlsEvent))
    → length (on_tls_events events (new_connection s m socket tls_socket)).calls ≤ 1
unfolding new_connection
handshake_settles_once s m socket tls_socket events =
    at_most_one (on_tls_events events (new_connection s m socket tls_socket))
      (on_tls_events-IsSound events (new_connection s m socket tls_socket) (inl (refl, refl, refl)))

-- The version is neither of the two that are answered.
abbrev pub IsUnanswered : Option HttpVersion → Type 0
IsUnanswered v = (v ≢ some HttpVersion.h1) × (v ≢ some HttpVersion.h2)

abbrev IsStuck : Connection → Type 0
IsStuck c = (c.is_settled ≡ true) × (c.is_bridging ≡ false) × (c.calls ≡ [])

on_tls_event-IsStuck :
    (s : RequestScope) (e : TlsEvent) (c : Connection) → IsStuck c → IsStuck (on_tls_event s e c)
unfolding on_tls_event on_timed_out on_secured on_bridged on_failed
on_tls_event-IsStuck s timed_out c h = ground arith
on_tls_event-IsStuck s secured c h = ground arith
on_tls_event-IsStuck s (bridged none) c h = ground arith
on_tls_event-IsStuck s (bridged (some e)) c h = ground arith
on_tls_event-IsStuck s (failed e) c h = ground arith
on_tls_event-IsStuck s closed c h = h

on_tls_events-IsStuck :
    (events : List (RequestScope × TlsEvent)) (c : Connection)
    → IsStuck c
    → IsStuck (on_tls_events events c)
unfolding on_tls_events
on_tls_events-IsStuck [] c h = h
on_tls_events-IsStuck ((s, e) ∷ events) c h =
    on_tls_events-IsStuck events (on_tls_event s e c) (on_tls_event-IsStuck s e c h)

with_version-IsStuck :
    (v : Option HttpVersion) (c : Connection)
    → IsUnanswered v
    → IsStuck c
    → IsStuck (with_version v c)
unfolding with_version
with_version-IsStuck none c u h = h
with_version-IsStuck (some HttpVersion.h1) c u h = absurd (u.0 refl)
with_version-IsStuck (some HttpVersion.h2) c u h = absurd (u.1 refl)
with_version-IsStuck (some HttpVersion.h3) c u h = h
with_version-IsStuck (some HttpVersion.unknown) c u h = h

secured-IsStuck :
    (c : Connection)
    → IsUnanswered c.scope.session.protocol.http_version
    → IsOpen c
    → IsStuck (on_secured c)
unfolding on_secured
secured-IsStuck c u (n, b, k) = rw n (
    with_version-IsStuck c.scope.session.protocol.http_version (record c { is_settled = true }) u
      (refl, b, k))

-- Once a connection is secured whose version is neither HTTP/1 nor HTTP/2, its promise is never
-- settled, whatever callbacks run after that, the timer and errors included.
pub unanswered_hangs :
    (s : RequestScope) (c : Connection) (events : List (RequestScope × TlsEvent))
    → IsUnanswered s.session.protocol.http_version
    → IsOpen c
    → (on_tls_events events (on_tls_event s secured c)).calls ≡ []
unfolding on_tls_event
unanswered_hangs s c events u h =
    let (_, _, calls) =
      on_tls_events-IsStuck events (on_secured (record c { scope = s }))
        (secured-IsStuck (record c { scope = s }) u h) in
    calls
