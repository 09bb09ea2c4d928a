-- ===== src/Transport/Ws/Tunnel/Teardown.antt =====
-- The tunnel is torn down at most once, and for good.
use mitm_core.Prelude.{
  ℕ, ◌+◌, ◌≤◌, String, Bool, true, false, Option, none, some, if◌then◌else◌, string_eq, ◌≡◌, refl,
  arith, ◌⊎◌, WhenSome,
}
use mitm_core.Net.{Socket}
use mitm_core.Signals.{Thrown}
use mitm_core.Transport.Ws.{WebSocket, is_open, Side, client, upstream}
use mitm_core.Transport.Ws.Tunnel.{
  Tunnel, UpgradeStage, unopened, telling, accepting, announcing, left, is_abort, tear_down,
  bootstrap_failed, on_upgrade_told, has_begun, clean_up, clean_up_optional, after_upgrade_told,
}
use mitm_core.Transport.Ws.Tunnel.Events.{
  note, note_broken, on_close, on_accepted, on_established, on_ended, on_broken, on_message_failed,
  close_client, close_upstream, with_ended,
}

abbrev pub AllDestroyed : Tunnel → Type 0
AllDestroyed t =
    (t.client_socket.destroyed ≡ true) × WhenSome (λ k. k.destroyed ≡ true) t.upstream_socket

-- The request was not sent; the pipeline was finished if it was given up.
abbrev pub Unsent : Tunnel → Type 0
Unsent t =
    (t.request_sent ≡ false)
    × (t.stage ≡ unopened)
    × (t.client_ws ≡ none)
    × (t.watched_client ≡ false)
    × (t.watched_upstream ≡ false)
    × (t.is_torn_down ≡ false)
    × (t.finishes + (if t.is_dispatching then 1 else 0) ≤ 1)

-- It was sent, and no upgrade came.
abbrev pub Waiting : Tunnel → Type 0
Waiting t =
    (t.is_dispatching ≡ false)
    × (t.stage ≡ unopened)
    × (t.client_ws ≡ none)
    × (t.watched_client ≡ false)
    × (t.watched_upstream ≡ false)
    × (t.is_torn_down ≡ false)
    × (t.finishes ≡ 0)

-- An upgrade came; a tunnel that is torn down has no socket left and finished its pipeline.
abbrev pub Begun : Tunnel → Type 0
Begun t =
    (t.is_dispatching ≡ false)
    × (has_begun t.stage ≡ true)
    × (((t.is_torn_down ≡ false) × (t.finishes ≡ 0))
        ⊎ ((t.is_torn_down ≡ true) × (t.finishes ≡ 1) × AllDestroyed t))

abbrev pub IsSound : Tunnel → Type 0
IsSound t = Unsent t ⊎ Waiting t ⊎ Begun t

pub clean_up-destroyed : (k : Socket) → (clean_up k).destroyed ≡ true
clean_up-destroyed k = ground arith

clean_up_optional-destroyed :
    (o : Option Socket) → WhenSome (λ k. k.destroyed ≡ true) (clean_up_optional o)
clean_up_optional-destroyed none = tt
clean_up_optional-destroyed (some k) = clean_up-destroyed k

pub tear_down-Begun : (t : Tunnel) → Begun t → Begun (tear_down t)
unfolding tear_down
tear_down-Begun t h =
    ground
      (arith, clean_up-destroyed t.client_socket, clean_up_optional-destroyed t.upstream_socket)

pub if-Begun : (b : Bool) (t u : Tunnel) → Begun t → Begun u → Begun (if b then t else u)
if-Begun true t u h k = h
if-Begun false t u h k = k

pub note-Begun : (thrown : Option Thrown) (t : Tunnel) → Begun t → Begun (note thrown t)
unfolding note
note-Begun none t h = h
note-Begun (some e) t h = if-Begun (is_abort e) _ _ h h

pub note_broken-Begun :
    (err : Thrown) (thrown : Option Thrown) (t : Tunnel)
    → Begun t
    → Begun (note_broken err thrown t)
unfolding note_broken
note_broken-Begun err none t h = h
note_broken-Begun err (some e) t h = if-Begun (is_abort err) _ _ h h

pub bootstrap_failed-Begun : (e : Thrown) (t : Tunnel) → Begun t → Begun (bootstrap_failed e t)
unfolding bootstrap_failed
bootstrap_failed-Begun e t (d, g, r) =
    if-Begun (is_abort e) _ _ (d, refl, r)
      (tear_down-Begun (record t { stage = left }) (d, refl, r))

pub on_upgrade_told-Begun :
    (thrown : Option Thrown) (t : Tunnel) (stage : UpgradeStage)
    → Begun t
    → Begun (on_upgrade_told thrown t stage)
unfolding on_upgrade_told after_upgrade_told
on_upgrade_told-Begun (some e) t (telling res) (d, g, r) =
    if-Begun (is_abort e) _ _ (tear_down-Begun (record t { stage = left }) (d, refl, r))
      (bootstrap_failed-Begun e t (d, g, r))
on_upgrade_told-Begun none t (telling res) (d, g, r) =
    if-Begun t.scope.lifecycle.is_hijacked _ _ (d, refl, r) (d, refl, r)
on_upgrade_told-Begun none t unopened h = h
on_upgrade_told-Begun none t (accepting res) h = h
on_upgrade_told-Begun none t announcing h = h
on_upgrade_told-Begun none t left h = h
on_upgrade_told-Begun (some e) t unopened h = h
on_upgrade_told-Begun (some e) t (accepting res) h = h
on_upgrade_told-Begun (some e) t announcing h = h
on_upgrade_told-Begun (some e) t left h = h

pub on_accepted-Begun :
    (c u : WebSocket) (t : Tunnel) (stage : UpgradeStage)
    → Begun t
    → Begun (on_accepted c u t stage)
unfolding on_accepted
on_accepted-Begun c u t (accepting res) (d, g, r) = (d, refl, r)
on_accepted-Begun c u t unopened h = h
on_accepted-Begun c u t (telling res) h = h
on_accepted-Begun c u t announcing h = h
on_accepted-Begun c u t left h = h

pub on_established-Begun :
    (thrown : Option Thrown) (t : Tunnel) (stage : UpgradeStage)
    → Begun t
    → Begun (on_established thrown t stage)
unfolding on_established
on_established-Begun none t announcing (d, g, r) = (d, refl, r)
on_established-Begun (some e) t announcing h = bootstrap_failed-Begun e t h
on_established-Begun none t unopened h = h
on_established-Begun none t (telling res) h = h
on_established-Begun none t (accepting res) h = h
on_established-Begun none t left h = h
on_established-Begun (some e) t unopened h = h
on_established-Begun (some e) t (telling res) h = h
on_established-Begun (some e) t (accepting res) h = h
on_established-Begun (some e) t left h = h

pub close_upstream-Begun :
    (code : ℕ) (reason : Option String) (t : Tunnel) (o : Option WebSocket)
    → Begun t
    → Begun (close_upstream code reason t o)
unfolding close_upstream
close_upstream-Begun code reason t none h = tear_down-Begun t h
close_upstream-Begun code reason t (some ws) h = if-Begun (is_open ws) _ _ h (tear_down-Begun t h)

pub close_client-Begun :
    (code : ℕ) (reason : Option String) (t : Tunnel) (o : Option WebSocket)
    → Begun t
    → Begun (close_client code reason t o)
unfolding close_client
close_client-Begun code reason t none h = tear_down-Begun t h
close_client-Begun code reason t (some ws) h = if-Begun (is_open ws) _ _ h (tear_down-Begun t h)

pub on_ended-Begun :
    (side : Side) (code : ℕ) (reason : Option String) (thrown : Option Thrown) (t : Tunnel)
    (b : Bool)
    → Begun t
    → Begun (on_ended side code reason thrown t b)
unfolding on_ended on_close with_ended
on_ended-Begun side code reason thrown t false h = h
on_ended-Begun client code reason thrown t true h =
    close_upstream-Begun code reason _ _ (note-Begun thrown (with_ended client t) h)
on_ended-Begun upstream code reason thrown t true h =
    close_client-Begun code reason _ _ (note-Begun thrown (with_ended upstream t) h)

pub on_broken-Begun :
    (err : Thrown) (thrown : Option Thrown) (t : Tunnel) (b : Bool)
    → Begun t
    → Begun (on_broken err thrown t b)
unfolding on_broken
on_broken-Begun err thrown t false h = h
on_broken-Begun err thrown t true h =
    tear_down-Begun (note_broken err thrown t) (note_broken-Begun err thrown t h)

pub on_message_failed-Begun :
    (e : Thrown) (t : Tunnel) (b : Bool) → Begun t → Begun (on_message_failed e t b)
unfolding on_message_failed
on_message_failed-Begun e t false h = h
on_message_failed-Begun e t true h = tear_down-Begun _ (if-Begun (is_abort e) t _ h h)
