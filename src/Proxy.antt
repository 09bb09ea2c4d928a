-- ===== src/Proxy.antt =====
-- lib/Proxy.ts: the plugins of a proxy, its start and its stop. What the operating system, the
-- plugins and the callbacks answer is given to the operations that wait for it.
pub mod Plugins
pub mod Shutdown
pub mod Server
use Prim.Native.String.{◌++◌ as append}
use mitm_core.Prelude.{
  ℕ, suc, zero, ◌+◌, ◌*◌, String, Bool, true, false, ◌||◌, not, Option, none, some, List, [], ◌∷◌,
  ◌++◌, if◌then◌else◌, reverse, mem, keep_if, is_some, ltb, length, ◌==◌, nat_eq, string_eq,
  pair_eq, map, ◌&&◌,
}
use mitm_core.Prelude.Text.{decimal}
use mitm_core.Net.{Ref}
use mitm_core.Signals.{Thrown, error}
use mitm_core.Context.Manager.{Manager}
use mitm_core.Context.Request.{get_active_requests, destroy_active_requests}
use mitm_core.Connections.{Connections, destroy_all}

-- A plugin is known by its reference and its event, which is the plugin's listener on the bus, too.
abbrev pub Plugin : Type 0
Plugin = Ref × String

-- The calls of the plugins' own methods, in their order.
pub data PluginCall : Type 0 where
  init cleanup : Plugin → PluginCall

pub record Proxy : Type 0 where
  pub is_starting : Bool
  pub is_listening : Bool
  -- `stopPromise`, and what it settles with: nothing, or what it rejects with.
  pub stop_promise : Option (Option Thrown)
  pub active_plugins : List Plugin
  pub initialized_plugins : List Plugin
  pub bus : List Plugin
  pub has_shutdown_handlers : Bool
  pub plugin_calls : List PluginCall

-- The test at the head of `use`, `unuse` and `listen`.
abbrev pub is_closed : Proxy → Bool
is_closed p = p.is_starting || p.is_listening || is_some p.stop_promise

-- `use`; `none` is the exception.
unfoldable pub use_plugin : Plugin → Proxy → Option Proxy
use_plugin plugin p =
    if is_closed p
    then none
    else if mem plugin p.active_plugins
    then some p
    else some
        (record p { active_plugins = p.active_plugins ++ plugin ∷ []; bus = p.bus ++ plugin ∷ [] })

-- `unuse`; the listener that `use` put on the bus is taken off.
unfoldable pub unuse_plugin : Plugin → Proxy → Option Proxy
unuse_plugin plugin p =
    if is_closed p
    then none
    else some (record p {
      active_plugins = keep_if (λ q. not (q == plugin)) p.active_plugins;
      bus = keep_if (λ q. not (q == plugin)) p.bus;
    })

-- `error instanceof Error ? error : new Error(String(error))` is kept as it is thrown.
clean_each : (Plugin → Option Thrown) → List Plugin → List Thrown
clean_each fails [] = []
clean_each fails (plugin ∷ plugins) = elim (fails plugin) [
  | none ↦ clean_each fails plugins
  | some e ↦ e ∷ clean_each fails plugins
]

-- `cleanupInitializedPlugins`; `fails` says what the `cleanup` of a plugin throws.
unfoldable pub cleanup_initialized_plugins : (Plugin → Option Thrown) → Proxy → Proxy × List Thrown
unfolding clean_each
cleanup_initialized_plugins fails p =
    let plugins = reverse p.initialized_plugins in
    (
      record p { initialized_plugins = []; plugin_calls = p.plugin_calls ++ map cleanup plugins },
      clean_each fails plugins,
    )

-- How `httpServer.listen` ended: with an error, or with the answer of the callback.
pub data Opening : Type 0 where
  refused : Thrown → Opening
  opened : Option Thrown → Opening

module _ (init_fails cleanup_fails : Plugin → Option Thrown) where
  -- The loop of `initializePlugins`, and its `catch`.
  unfoldable pub initialize_each : List Plugin → Proxy → Proxy × Option Thrown
  initialize_each [] p = (p, none)
  initialize_each (plugin ∷ plugins) p =
      let called = record p { plugin_calls = p.plugin_calls ++ init plugin ∷ [] } in
      let rest =
        initialize_each plugins
          (record called { initialized_plugins = p.initialized_plugins ++ plugin ∷ [] }) in
      elim (init_fails plugin) [
        | none ↦ rest
        | some e ↦ ((cleanup_initialized_plugins cleanup_fails called).0, some e)
      ]

  unfoldable pub initialize_plugins : Proxy → Proxy × Option Thrown
  unfolding initialize_each
  initialize_plugins p = initialize_each p.active_plugins p

  -- The promise of `listen`; the server is closed again if the callback throws.
  open_server : Opening → Proxy → Proxy × Option Thrown
  open_server (refused e) p = (record p { has_shutdown_handlers = true }, some e)
  open_server (opened none) p =
      (record p { is_listening = true; has_shutdown_handlers = true }, none)
  open_server (opened (some e)) p = (record p { has_shutdown_handlers = true }, some e)

  -- The `catch` and the `finally` of `listen`.
  unfoldable pub end_listen : Proxy × Option Thrown → Proxy × Option Thrown
  end_listen (p, none) = (record p { is_starting = false }, none)
  end_listen (p, some e) =
      let (q, errors) = cleanup_initialized_plugins cleanup_fails p in
      (record q { is_starting = false }, some e)

  unfoldable pub after_plugins : Opening → Proxy × Option Thrown → Proxy × Option Thrown
  unfolding open_server
  after_plugins opening (p, none) = open_server opening p
  after_plugins opening (p, some e) = (p, some e)

  unfoldable pub listen : Opening → Proxy → Proxy × Option Thrown
  unfolding end_listen after_plugins
  listen opening p =
      if is_closed p
      then (p, some (error "Proxy is already starting, running, or stopped." none))
      else end_listen (after_plugins opening (initialize_plugins (record p { is_starting = true })))

-- The time at which the drain ends, in milliseconds: it looks for active requests at once and then
-- every 50 ms, and gives up at the timeout. `at` is the manager as it is at a time.
unfoldable pub poll : ℕ → (ℕ → Manager) → ℕ → ℕ → ℕ
poll timeout at zero k = timeout
poll timeout at (suc fuel) k =
    let later = poll timeout at fuel (k + 1) in
    if length (get_active_requests (at (k * 50))) == 0
    then k * 50
    else if ltb timeout ((k + 1) * 50)
    then timeout
    else later

-- The fuel is more than the number of times that the interval can fire.
unfoldable pub drain : ℕ → (ℕ → Manager) → ℕ
unfolding poll
drain timeout at = poll timeout at (timeout + 1) 0

-- What `stopInternal` throws in the end.
stop_error : Option Thrown → List Thrown → Option Thrown
stop_error (some e) errors = some e
stop_error none [] = none
stop_error none (e ∷ errors) = some (
    error
      (append "Proxy stopped, but "
        (append (decimal (length (e ∷ errors))) " plugin cleanup operation(s) failed."))
      none)

pub record Stopped : Type 0 where
  pub proxy : Proxy
  pub manager : Manager
  pub connections : Connections
  pub thrown : Option Thrown

-- `stopInternal`: `at` is the manager while the server drains, and `close_fails` what `close`
-- reports.
unfoldable pub stop_internal :
    (Plugin → Option Thrown) → ℕ → (ℕ → Manager) → Option Thrown → Proxy → Connections → Stopped
unfolding stop_error
stop_internal cleanup_fails timeout at close_fails p c =
    let closed = record p { is_listening = false; has_shutdown_handlers = false; bus = [] } in
    let (cleaned, errors) = cleanup_initialized_plugins cleanup_fails closed in
    let result = stop_error close_fails errors in
    record {
      proxy = record cleaned { stop_promise = some result };
      manager = destroy_active_requests (at (drain timeout at));
      connections = destroy_all c;
      thrown = result;
    }

-- `stop`.
unfoldable pub stop :
    (Plugin → Option Thrown) → ℕ → (ℕ → Manager) → Option Thrown → Proxy → Connections → Stopped
stop cleanup_fails timeout at close_fails p c = elim p.stop_promise [
  | some result ↦ record { proxy = p; manager = at 0; connections = c; thrown = result }
  | none ↦
      if p.is_listening
      then stop_internal cleanup_fails timeout at close_fails p c
      else record { proxy = p; manager = at 0; connections = c; thrown = none }
]
