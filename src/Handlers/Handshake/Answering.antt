-- ===== src/Handlers/Handshake/Answering.antt =====
-- When the promise of the TLS connection is settled.
use mitm_core.Prelude.{
  true, false, Option, none, some, List, [], ◌∷◌, ◌≡◌, refl, ◌⊎◌, inl, inr, length, arith, All,
}
use mitm_core.Net.{Socket}
use mitm_core.Signals.{Thrown}
use mitm_core.Scope.{RequestScope, HttpVersion}
use mitm_core.Context.Manager.{Manager}
use mitm_core.Handlers.Handshake.Tls.{
  TlsEvent, timed_out, secured, bridged, failed, closed, Connection, on_tls_event, on_tls_events,
  on_timed_out, on_secured, on_bridged, on_failed, with_version, new_connection,
}
use mitm_core.Handlers.Handshake.Settling.{IsOpen}

-- A connection is decided by its timer, by an error, or by being secured.
abbrev pub Decides : TlsEvent → Type 0
Decides timed_out = Unit
Decides (failed e) = Unit
Decides secured = Unit
Decides (bridged thrown) = ⊥
Decides closed = ⊥

-- Where the connection is secured, it is for one of the two versions that are answered.
abbrev pub IsAnswerable : RequestScope × TlsEvent → Type 0
IsAnswerable (s, secured) =
    (s.session.protocol.http_version ≡ some HttpVersion.h1)
    ⊎ (s.session.protocol.http_version ≡ some HttpVersion.h2)
IsAnswerable (s, timed_out) = Unit
IsAnswerable (s, failed e) = Unit
IsAnswerable (s, bridged thrown) = Unit
IsAnswerable (s, closed) = Unit

-- The promise waits for the bridge, or it is settled.
abbrev IsDecided : Connection → Type 0
IsDecided c =
    (c.is_settled ≡ true)
    × (((c.is_bridging ≡ true) × (c.calls ≡ [])) ⊎ ((c.is_bridging ≡ false) × (length c.calls ≡ 1)))

with_version-IsDecided :
    (v : Option HttpVersion) (c : Connection)
    → (v ≡ some HttpVersion.h1) ⊎ (v ≡ some HttpVersion.h2)
    → c.is_settled ≡ true
    → c.is_bridging ≡ false
    → c.calls ≡ []
    → IsDecided (with_version v c)
unfolding with_version
with_version-IsDecided none c (inl h) n b k = absurd cc
with_version-IsDecided none c (inr h) n b k = absurd cc
with_version-IsDecided (some HttpVersion.h1) c h n b k = ground arith
with_version-IsDecided (some HttpVersion.h2) c h n b k = ground arith
with_version-IsDecided (some HttpVersion.h3) c (inl h) n b k = absurd cc
with_version-IsDecided (some HttpVersion.h3) c (inr h) n b k = absurd cc
with_version-IsDecided (some HttpVersion.unknown) c (inl h) n b k = absurd cc
with_version-IsDecided (some HttpVersion.unknown) c (inr h) n b k = absurd cc

on_secured-IsDecided : (c : Connection) → IsDecided c → IsDecided (on_secured c)
unfolding on_secured
on_secured-IsDecided c h = ground arith

secured-IsDecided :
    (c : Connection)
    → (c.scope.session.protocol.http_version ≡ some HttpVersion.h1)
      ⊎ (c.scope.session.protocol.http_version ≡ some HttpVersion.h2)
    → IsOpen c
    → IsDecided (on_secured c)
unfolding on_secured
secured-IsDecided c v (n, b, k) = rw n (
    with_version-IsDecided c.scope.session.protocol.http_version (record c { is_settled = true }) v
      refl b k)

on_tls_event-IsDecided :
    (s : RequestScope) (e : TlsEvent) (c : Connection)
    → IsDecided c
    → IsDecided (on_tls_event s e c)
unfolding on_tls_event on_timed_out on_bridged on_failed
on_tls_event-IsDecided s timed_out c h = ground arith
on_tls_event-IsDecided s secured c h = on_secured-IsDecided (record c { scope = s }) h
on_tls_event-IsDecided s (bridged none) c h = ground arith
on_tls_event-IsDecided s (bridged (some e)) c h = ground arith
on_tls_event-IsDecided s (failed e) c h = ground arith
on_tls_event-IsDecided s closed c h = h

on_tls_event-Decides :
    (s : RequestScope) (e : TlsEvent) (c : Connection)
    → Decides e
    → IsAnswerable (s, e)
    → IsOpen c
    → IsDecided (on_tls_event s e c)
unfolding on_tls_event on_timed_out on_failed
on_tls_event-Decides s timed_out c d a h = ground arith
on_tls_event-Decides s secured c d a h = secured-IsDecided (record c { scope = s }) a h
on_tls_event-Decides s (bridged thrown) c d a h = elim d [ ]
on_tls_event-Decides s (failed e) c d a h = ground arith
on_tls_event-Decides s closed c d a h = elim d [ ]

-- The other events leave a connection that waits as it is.
on_tls_event-IsOpen :
    (s : RequestScope) (e : TlsEvent) (c : Connection)
    → IsAnswerable (s, e)
    → IsOpen c
    → IsOpen (on_tls_event s e c) ⊎ IsDecided (on_tls_event s e c)
unfolding on_tls_event
on_tls_event-IsOpen s timed_out c a h = inr (on_tls_event-Decides s timed_out c tt a h)
on_tls_event-IsOpen s secured c a h = inr (on_tls_event-Decides s secured c tt a h)
on_tls_event-IsOpen s (bridged thrown) c a (n, b, k) = inl (rw b (n, refl, k))
on_tls_event-IsOpen s (failed e) c a h = inr (on_tls_event-Decides s (failed e) c tt a h)
on_tls_event-IsOpen s closed c a h = inl h

stays :
    (events : List (RequestScope × TlsEvent)) (c : Connection)
    → IsDecided c
    → IsDecided (on_tls_events events c)
unfolding on_tls_events
stays [] c h = h
stays ((s, e) ∷ events) c h = stays events _ (on_tls_event-IsDecided s e c h)

waits_until :
    (events : List (RequestScope × TlsEvent)) (c : Connection)
    → All IsAnswerable events
    → IsOpen c
    → IsOpen (on_tls_events events c) ⊎ IsDecided (on_tls_events events c)
unfolding on_tls_events
waits_until [] c a h = inl h
waits_until ((s, e) ∷ events) c (a, rest) h = elim (on_tls_event-IsOpen s e c a h) [
  | inl waits ↦ waits_until events _ rest waits
  | inr done ↦ inr (stays events _ done)
]

any-IsDecided :
    (s : RequestScope) (e : TlsEvent) (c : Connection)
    → Decides e
    → IsAnswerable (s, e)
    → IsOpen c ⊎ IsDecided c
    → IsDecided (on_tls_event s e c)
any-IsDecided s e c d a (inl h) = on_tls_event-Decides s e c d a h
any-IsDecided s e c d a (inr h) = on_tls_event-IsDecided s e c h

settles_with :
    (t : RequestScope) (thrown : Option Thrown) (c : Connection)
    → IsDecided c
    → (length c.calls ≡ 1)
      ⊎ ((c.calls ≡ []) × (length (on_tls_event t (bridged thrown) c).calls ≡ 1))
unfolding on_tls_event on_bridged
settles_with t none c h = ground arith
settles_with t (some e) c h = ground arith

-- However the callbacks of a connection fall, once its timer ran out, an error came or it was secured
-- among them, and if it is only ever secured for HTTP/1 or HTTP/2: its promise has been settled,
-- once, or it waits for the bridge, and the end of the bridge settles it, once.
pub handshake_settles :
    (s : RequestScope) (m : Manager) (socket tls_socket : Socket)
    (before after : List (RequestScope × TlsEvent)) (now later : RequestScope) (e : TlsEvent)
    (thrown : Option Thrown)
    → Decides e
    → All IsAnswerable before
    → IsAnswerable (now, e)
    → let c =
        on_tls_events after
          (on_tls_event now e (on_tls_events before (new_connection s m socket tls_socket))) in
      (length c.calls ≡ 1)
      ⊎ ((c.calls ≡ []) × (length (on_tls_event later (bridged thrown) c).calls ≡ 1))
unfolding new_connection
handshake_settles s m socket tls_socket before after now later e thrown d a b =
    settles_with later thrown _ (
      stays after _ (
        any-IsDecided now e _ d b
          (waits_until before (new_connection s m socket tls_socket) a (refl, refl, refl))))
