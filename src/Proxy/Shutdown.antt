-- ===== src/Proxy/Shutdown.antt =====
-- What a stop waits for, and what it leaves.
use mitm_core.Prelude.{
  ℕ, zero, suc, ◌+◌, ◌*◌, ◌≤◌, ◌<◌, true, false, ◌≡◌, ◌≢◌, refl, ◌⊎◌, inl, inr, arith, length,
  nat_eq, ltb, ◌==◌, nat_beq_iff, Bool-cases, subst, Option, none, All, map, reverse, ◌++◌, [],
  string_eq, pair_eq, some,
}
use native.Mathlib.Decide.{dec_le}
use mitm_core.Signals.{Thrown}
use mitm_core.Context.Active.{AreDestroyed, destroy_active_requests_lem}
use mitm_core.Connections.{Connections, destroy_all, destroy_sockets_lem}
use mitm_core.Proxy.{
  Proxy, Plugin, cleanup, cleanup_initialized_plugins, stop, stop_internal, use_plugin, poll, drain,
}
use mitm_core.Context.Manager.{Manager}
use mitm_core.Context.Request.{get_active_requests}

-- The manager has no active request at this time.
abbrev pub IsDrained : (ℕ → Manager) → ℕ → Type 0
IsDrained at t = length (get_active_requests (at t)) ≡ 0

not_ltb : (a b : ℕ) → ltb a b ≡ false → b ≤ a
not_ltb a b h = ground arith

poll_lem :
    (timeout : ℕ) (at : ℕ → Manager) (fuel k : ℕ)
    → k * 50 ≤ timeout
    → (poll timeout at fuel k ≤ timeout)
      × ((poll timeout at fuel k ≡ timeout) ⊎ IsDrained at (poll timeout at fuel k))
unfolding poll
poll_lem timeout at zero k h = (omega arith, inl refl)
poll_lem timeout at (suc fuel) k h =
    elim (Bool-cases (length (get_active_requests (at (k * 50))) == 0)) [
      | inl e ↦ rw e (h, inr ((nat_beq_iff _ 0).0 e))
      | inr e ↦ elim (Bool-cases (ltb timeout ((k + 1) * 50))) [
        | inl over ↦ rw (e, over) (omega arith, inl refl)
        | inr within ↦
            rw (e, within)
              (poll_lem timeout at fuel (k + 1) (not_ltb timeout ((k + 1) * 50) within))
      ]
    ]

-- It looks at every multiple of 50 ms before it ends, if there is fuel for them.
poll_waits :
    (timeout : ℕ) (at : ℕ → Manager) (fuel k j : ℕ)
    → timeout < (k + fuel) * 50
    → k ≤ j
    → j * 50 < poll timeout at fuel k
    → poll timeout at fuel k ≤ timeout
    → length (get_active_requests (at (j * 50))) ≢ 0
unfolding poll
poll_waits timeout at zero k j enough from before bound = absurd (omega arith)
poll_waits timeout at (suc fuel) k j enough from before bound =
    elim (Bool-cases (length (get_active_requests (at (k * 50))) == 0)) [
      | inl e ↦ absurd (omega (arith, rw e at before))
      | inr e ↦ elim (dec_le (suc k) j) [
        | no same ↦
            subst (λ i. length (get_active_requests (at (i * 50))) ≢ 0) (omega arith) (active e)
        | yes later ↦ elim (Bool-cases (ltb timeout ((k + 1) * 50))) [
          | inl over ↦ absurd (late over (rw (e, over) at before) later)
          | inr within ↦
              poll_waits timeout at fuel (k + 1) j (omega arith) (omega arith)
                (rw (e, within) at before) (rw (e, within) at bound)
        ]
      ]
    ]
  where
    active :
        (length (get_active_requests (at (k * 50))) == 0) ≡ false
        → length (get_active_requests (at (k * 50))) ≢ 0
    active e = ground arith

    late : ltb timeout ((k + 1) * 50) ≡ true → j * 50 < timeout → suc k ≤ j → ⊥
    late over early later = ground arith

-- The drain of a stop ends at the timeout at the latest; if it ends before, no request is active at
-- that time; and at every look before it ends, once in 50 ms, there is one.
pub drain_lem :
    (timeout : ℕ) (at : ℕ → Manager) (j : ℕ)
    → (drain timeout at ≤ timeout)
      × ((drain timeout at ≡ timeout) ⊎ IsDrained at (drain timeout at))
      × ((drain timeout at ≤ j * 50) ⊎ (length (get_active_requests (at (j * 50))) ≢ 0))
unfolding drain
drain_lem timeout at j =
    let (bound, ends) = poll_lem timeout at (timeout + 1) 0 (omega arith) in
    (
      bound,
      ends,
      elim (dec_le (poll timeout at (timeout + 1) 0) (j * 50)) [
        | yes le ↦ inl le
        | no gt ↦ inr (
            poll_waits timeout at (timeout + 1) 0 j (omega arith) (omega arith) (omega arith) bound)
      ],
    )

stop_begins :
    (cleanup_fails : Plugin → Option Thrown) (timeout : ℕ) (at : ℕ → Manager)
    (close_fails : Option Thrown) (p : Proxy) (c : Connections)
    → p.is_listening ≡ true
    → p.stop_promise ≡ none
    → stop cleanup_fails timeout at close_fails p c
      ≡ stop_internal cleanup_fails timeout at close_fails p c
unfolding stop
stop_begins cleanup_fails timeout at close_fails p c open_ fresh = rw (fresh, open_) refl

stop_again :
    (cleanup_fails : Plugin → Option Thrown) (timeout : ℕ) (at : ℕ → Manager)
    (close_fails : Option Thrown) (p : Proxy) (c : Connections) (result : Option Thrown)
    → p.stop_promise ≡ some result
    → ((stop cleanup_fails timeout at close_fails p c).proxy ≡ p)
      × ((stop cleanup_fails timeout at close_fails p c).thrown ≡ result)
unfolding stop
stop_again cleanup_fails timeout at close_fails p c result e = ground arith

-- The first stop of a listening proxy leaves nothing behind, whatever the plugins throw: the server does not
-- listen, no request is active, every request that still was has its streams destroyed, every tracked
-- socket is destroyed and none is tracked, no plugin listens, and the initialized plugins are cleaned
-- up in the opposite order, each once. A second stop repeats the result and calls no plugin, and no
-- plugin can be registered any more.
pub stop_lem :
    (cleanup_fails : Plugin → Option Thrown) (timeout later : ℕ) (at at' : ℕ → Manager)
    (close_fails again_fails : Option Thrown) (p : Proxy) (c c' : Connections) (plugin : Plugin)
    → p.is_listening ≡ true
    → p.stop_promise ≡ none
    → let s = stop cleanup_fails timeout at close_fails p c in
      let again = stop cleanup_fails later at' again_fails s.proxy c' in
      let before = at (drain timeout at) in
      (s.proxy.is_listening ≡ false)
      × (get_active_requests s.manager ≡ [])
      × All (λ entry. AreDestroyed (s.manager.requests entry.1)) before.active_requests
      × (s.connections.active_sockets ≡ [])
      × All (λ ref. (s.connections.sockets ref).destroyed ≡ true) c.active_sockets
      × (s.proxy.bus ≡ [])
      × (s.proxy.initialized_plugins ≡ [])
      × (s.proxy.plugin_calls ≡ p.plugin_calls ++ map cleanup (reverse p.initialized_plugins))
      × (again.proxy ≡ s.proxy)
      × (again.thrown ≡ s.thrown)
      × (use_plugin plugin s.proxy ≡ none)
unfolding stop_internal cleanup_initialized_plugins destroy_all use_plugin
stop_lem cleanup_fails timeout later at at' close_fails again_fails p c c' plugin open_ fresh =
    let (destroyed, none_active, none_alive, none_found) =
      destroy_active_requests_lem (at (drain timeout at)) in
    rw (stop_begins cleanup_fails timeout at close_fails p c open_ fresh) (
      refl,
      none_active,
      destroyed,
      refl,
      destroy_sockets_lem c.active_sockets c.sockets,
      refl,
      refl,
      refl,
      again.0,
      again.1,
      ground arith,
    )
  where
    again :
        let s = stop_internal cleanup_fails timeout at close_fails p c in
        let t = stop cleanup_fails later at' again_fails s.proxy c' in
        (t.proxy ≡ s.proxy) × (t.thrown ≡ s.thrown)
    again = stop_again cleanup_fails later at' again_fails _ c' _ refl
