-- ===== src/Tests/Lifecycles.antt =====
-- The start and the stop of a proxy with two plugins.
use mitm_core.Prelude.{
  ℕ, ◌*◌, ◌≤◌, true, false, ◌≡◌, ◌≢◌, refl, ◌⊎◌, Option, none, some, [], ◌∷◌, ◌++◌, map, reverse,
  All, length, ◌==◌, nat_eq, string_eq, pair_eq, if◌then◌else◌,
}
use mitm_core.Signals.{Thrown}
use mitm_core.Context.Manager.{Manager}
use mitm_core.Context.Request.{get_active_requests}
use mitm_core.Context.Active.{AreDestroyed}
use mitm_core.Connections.{Connections}
use mitm_core.Proxy.{Proxy, Plugin, cleanup, opened, listen, drain, stop, use_plugin}
use mitm_core.Proxy.Plugins.{listen_fails, calls_of_failure}
use mitm_core.Proxy.Shutdown.{drain_lem, IsDrained, stop_lem}
use mitm_core.Tests.Samples.{sample_socket, refused}
use mitm_core.Tests.Contexts.{sample_manager}

abbrev logger : Plugin
logger = (1, "proxy:client-http-request")

abbrev blocker : Plugin
blocker = (2, "proxy:client-connect")

abbrev blocker_fails : Plugin → Option Thrown
blocker_fails q = if q == blocker then some refused else none

abbrev none_fails : Plugin → Option Thrown
none_fails q = none

abbrev idle_proxy : Proxy
idle_proxy = record {
  is_starting = false;
  is_listening = false;
  stop_promise = none;
  active_plugins = logger ∷ blocker ∷ [];
  initialized_plugins = [];
  bus = logger ∷ blocker ∷ [];
  has_shutdown_handlers = false;
  plugin_calls = [];
}

listen_fails_example : listen blocker_fails none_fails (opened none) idle_proxy ≡ (
  record idle_proxy {
    initialized_plugins = [];
    plugin_calls = [] ++ calls_of_failure [] (logger ∷ []) blocker;
  },
  some refused,
)
listen_fails_example =
    listen_fails blocker_fails none_fails (logger ∷ []) [] blocker refused (opened none) idle_proxy
      refl refl refl (refl, tt) refl

abbrev busy : ℕ → Manager
busy t = sample_manager

drain_example :
    (drain 1500 busy ≤ 1500)
    × ((drain 1500 busy ≡ 1500) ⊎ IsDrained busy (drain 1500 busy))
    × ((drain 1500 busy ≤ 3 * 50) ⊎ (length (get_active_requests (busy (3 * 50))) ≢ 0))
drain_example = drain_lem 1500 busy 3

abbrev running_proxy : Proxy
running_proxy = record idle_proxy {
  is_listening = true;
  initialized_plugins = logger ∷ blocker ∷ [];
  has_shutdown_handlers = true;
}

abbrev sample_connections : Connections
sample_connections = record { sockets = λ _. sample_socket; active_sockets = 7 ∷ [] }

stop_example :
    let s = stop blocker_fails 1500 busy none running_proxy sample_connections in
    let again = stop blocker_fails 0 busy none s.proxy sample_connections in
    let before = busy (drain 1500 busy) in
    (s.proxy.is_listening ≡ false)
    × (get_active_requests s.manager ≡ [])
    × All (λ entry. AreDestroyed (s.manager.requests entry.1)) before.active_requests
    × (s.connections.active_sockets ≡ [])
    × All (λ ref. (s.connections.sockets ref).destroyed ≡ true) sample_connections.active_sockets
    × (s.proxy.bus ≡ [])
    × (s.proxy.initialized_plugins ≡ [])
    × (s.proxy.plugin_calls ≡ [] ++ map cleanup (reverse (logger ∷ blocker ∷ [])))
    × (again.proxy ≡ s.proxy)
    × (again.thrown ≡ s.thrown)
    × (use_plugin logger s.proxy ≡ none)
stop_example =
    stop_lem blocker_fails 1500 0 busy busy none none running_proxy sample_connections
      sample_connections logger refl refl
