-- ===== src/Transport/Ws/Tunnel/Closing.antt =====
-- The close frames that a tunnel sends, and that a side that ended ends the tunnel.
use mitm_core.Prelude.{
  ℕ, ◌≤◌, Bool, true, false, Option, none, some, if◌then◌else◌, string_eq, ◌≡◌, ◌≢◌, arith, ◌⊎◌,
  WhenSome,
}
use mitm_core.Net.{Socket, IncomingMessage}
use mitm_core.Signals.{Thrown}
use mitm_core.Scope.{RequestScope}
use mitm_core.Transport.Ws.{WebSocket}
use mitm_core.Transport.Ws.Tunnel.{
  Tunnel, UpgradeStage, unopened, telling, accepting, announcing, left, is_abort, tear_down,
  bootstrap_failed, on_upgrade, on_upgrade_told, on_dispatched, after_upgrade_told, safe_close_code,
}
use mitm_core.Transport.Ws.Tunnel.Events.{
  Event, accepted, ended, note, note_broken, on_accepted, on_established, on_upgraded,
}

-- The codes that `ws` agrees to send, by its documentation of `isValidStatusCode`.
abbrev pub IsSendable : ℕ → Type 0
IsSendable code =
    ((1000 ≤ code) × (code ≤ 1014) × (code ≢ 1004) × (code ≢ 1005) × (code ≢ 1006))
    ⊎ ((3000 ≤ code) × (code ≤ 4999))

-- The codes that a "close" of `ws` comes with: one that was received, or one of the three that
-- stand for no code, a broken connection and a failed handshake of TLS; 0 is no argument at all.
abbrev pub IsReceived : ℕ → Type 0
IsReceived code = IsSendable code ⊎ (code ≡ 1005) ⊎ (code ≡ 1006) ⊎ (code ≡ 1015) ⊎ (code ≡ 0)

pub safe_close_code-IsSendable : (code : ℕ) → IsReceived code → IsSendable (safe_close_code code)
unfolding safe_close_code
safe_close_code-IsSendable code h = ground arith

-- What a socket was told to close with may be sent.
abbrev pub ClosesWell : Option WebSocket → Type 0
ClosesWell o = WhenSome (λ ws. WhenSome (λ frame. IsSendable frame.0) ws.close_frame) o

abbrev pub BothCloseWell : Tunnel → Type 0
BothCloseWell t = ClosesWell t.client_ws × ClosesWell t.upstream_ws

-- The events give new sockets without a close frame, and the codes that `ws` gives.
abbrev pub IsValid : RequestScope × Event → Type 0
IsValid (s, accepted c u) = (c.close_frame ≡ none) × (u.close_frame ≡ none)
IsValid (s, ended side code reason thrown) = IsReceived code
IsValid _ = Unit

pub if-Both :
    (b : Bool) (t u : Tunnel)
    → BothCloseWell t
    → BothCloseWell u
    → BothCloseWell (if b then t else u)
if-Both true t u h k = h
if-Both false t u h k = k

pub tear_down-Both : (t : Tunnel) → BothCloseWell t → BothCloseWell (tear_down t)
unfolding tear_down
tear_down-Both t h = if-Both t.is_torn_down t _ h h

pub note-Both :
    (thrown : Option Thrown) (t : Tunnel) → BothCloseWell t → BothCloseWell (note thrown t)
unfolding note
note-Both none t h = h
note-Both (some e) t h = if-Both (is_abort e) _ _ h h

pub note_broken-Both :
    (err : Thrown) (thrown : Option Thrown) (t : Tunnel)
    → BothCloseWell t
    → BothCloseWell (note_broken err thrown t)
unfolding note_broken
note_broken-Both err none t h = h
note_broken-Both err (some e) t h = if-Both (is_abort err) _ _ h h

pub bootstrap_failed-Both :
    (e : Thrown) (t : Tunnel) → BothCloseWell t → BothCloseWell (bootstrap_failed e t)
unfolding bootstrap_failed
bootstrap_failed-Both e t h =
    if-Both (is_abort e) _ _ h (tear_down-Both (record t { stage = left }) h)

pub on_dispatched-Both :
    (thrown : Option Thrown) (t : Tunnel) → BothCloseWell t → BothCloseWell (on_dispatched thrown t)
unfolding on_dispatched
on_dispatched-Both none t h = if-Both t.scope.lifecycle.is_hijacked _ _ h h
on_dispatched-Both (some e) t h = if-Both (is_abort e) _ _ h h

pub on_upgrade_told-Both :
    (thrown : Option Thrown) (t : Tunnel) (stage : UpgradeStage)
    → BothCloseWell t
    → BothCloseWell (on_upgrade_told thrown t stage)
unfolding on_upgrade_told after_upgrade_told
on_upgrade_told-Both (some e) t (telling res) h =
    if-Both (is_abort e) _ _ (tear_down-Both (record t { stage = left }) h)
      (bootstrap_failed-Both e t h)
on_upgrade_told-Both none t (telling res) h = if-Both t.scope.lifecycle.is_hijacked _ _ h h
on_upgrade_told-Both none t unopened h = h
on_upgrade_told-Both none t (accepting res) h = h
on_upgrade_told-Both none t announcing h = h
on_upgrade_told-Both none t left h = h
on_upgrade_told-Both (some e) t unopened h = h
on_upgrade_told-Both (some e) t (accepting res) h = h
on_upgrade_told-Both (some e) t announcing h = h
on_upgrade_told-Both (some e) t left h = h

pub on_upgraded-Both :
    (res : IncomingMessage) (socket : Socket) (t : Tunnel) (stage : UpgradeStage)
    → BothCloseWell t
    → BothCloseWell (on_upgraded res socket t stage)
unfolding on_upgraded on_upgrade
on_upgraded-Both res socket t unopened h = if-Both t.request_sent _ _ h h
on_upgraded-Both res socket t (telling r) h = h
on_upgraded-Both res socket t (accepting r) h = h
on_upgraded-Both res socket t announcing h = h
on_upgraded-Both res socket t left h = h

new_frame : (ws : WebSocket) → ws.close_frame ≡ none → ClosesWell (some ws)
new_frame ws e = rw e tt

pub on_accepted-Both :
    (c u : WebSocket) (t : Tunnel) (stage : UpgradeStage)
    → c.close_frame ≡ none
    → u.close_frame ≡ none
    → BothCloseWell t
    → BothCloseWell (on_accepted c u t stage)
unfolding on_accepted
on_accepted-Both c u t (accepting res) p q h = (new_frame c p, new_frame u q)
on_accepted-Both c u t unopened p q h = h
on_accepted-Both c u t (telling res) p q h = h
on_accepted-Both c u t announcing p q h = h
on_accepted-Both c u t left p q h = h

pub on_established-Both :
    (thrown : Option Thrown) (t : Tunnel) (stage : UpgradeStage)
    → BothCloseWell t
    → BothCloseWell (on_established thrown t stage)
unfolding on_established
on_established-Both none t announcing h = h
on_established-Both (some e) t announcing h = bootstrap_failed-Both e t h
on_established-Both none t unopened h = h
on_established-Both none t (telling res) h = h
on_established-Both none t (accepting res) h = h
on_established-Both none t left h = h
on_established-Both (some e) t unopened h = h
on_established-Both (some e) t (telling res) h = h
on_established-Both (some e) t (accepting res) h = h
on_established-Both (some e) t left h = h
