-- ===== src/Proxy/Plugins.antt =====
-- The order in which a start calls the plugins.
use mitm_core.Prelude.{
  true, false, ◌≡◌, refl, ap, ◌∙◌, Option, none, some, List, [], ◌∷◌, ◌++◌, map, reverse, All,
  arith, nat_eq, string_eq,
}
use mathlib.Core.List.{append_assoc, append-nil}
use mitm_core.Signals.{Thrown}
use mitm_core.Proxy.{
  Proxy, Plugin, PluginCall, init, cleanup, cleanup_initialized_plugins, initialize_each,
  initialize_plugins, end_listen, after_plugins, listen, Opening, is_closed,
}

-- What is left of a start that failed: the plugins were initialized in order up to one that threw,
-- and those that had been initialized were cleaned up in the opposite order.
abbrev pub calls_of_failure : List Plugin → List Plugin → Plugin → List PluginCall
calls_of_failure before pre plugin =
    (map init pre ++ init plugin ∷ []) ++ map cleanup (reverse (before ++ pre))

no_more :
    (calls : List PluginCall) (before : List Plugin) (plugin : Plugin)
    → (calls ++ init plugin ∷ []) ++ map cleanup (reverse before)
      ≡ calls ++ calls_of_failure before [] plugin
no_more calls before plugin = simp (append_assoc, append-nil)

one_more :
    (calls : List PluginCall) (before pre : List Plugin) (q plugin : Plugin)
    → (calls ++ init q ∷ []) ++ calls_of_failure (before ++ q ∷ []) pre plugin
      ≡ calls ++ calls_of_failure before (q ∷ pre) plugin
one_more calls before pre q plugin = simp (append_assoc)

module _ (init_fails cleanup_fails : Plugin → Option Thrown) where
  abbrev failed_with : Proxy → Thrown → List PluginCall → Proxy × Option Thrown
  failed_with p e calls = (record p { initialized_plugins = []; plugin_calls = calls }, some e)

  initialize_each_fails :
      (pre post : List Plugin) (plugin : Plugin) (e : Thrown) (p : Proxy)
      → All (λ q. init_fails q ≡ none) pre
      → init_fails plugin ≡ some e
      → initialize_each init_fails cleanup_fails (pre ++ plugin ∷ post) p
        ≡ failed_with p e (p.plugin_calls ++ calls_of_failure p.initialized_plugins pre plugin)
  unfolding initialize_each cleanup_initialized_plugins
  initialize_each_fails [] post plugin e p h fails =
      rw fails (ap (failed_with p e) (no_more p.plugin_calls p.initialized_plugins plugin))
  initialize_each_fails (q ∷ pre) post plugin e p (ok, h) fails = rw ok (
      initialize_each_fails pre post plugin e _ h fails
      ∙ ap (failed_with p e) (one_more p.plugin_calls p.initialized_plugins pre q plugin))

  listen_begins :
      (opening : Opening) (p : Proxy)
      → is_closed p ≡ false
      → listen init_fails cleanup_fails opening p
        ≡ end_listen init_fails cleanup_fails (
            after_plugins init_fails cleanup_fails opening (
              initialize_each init_fails cleanup_fails p.active_plugins
                (record p { is_starting = true })))
  unfolding listen initialize_plugins
  listen_begins opening p free = rw free refl

  listen_ends :
      (opening : Opening) (p : Proxy) (e : Thrown) (calls : List PluginCall)
      → is_closed p ≡ false
      → end_listen init_fails cleanup_fails (
          after_plugins init_fails cleanup_fails opening
            (failed_with (record p { is_starting = true }) e calls))
        ≡ failed_with p e calls
  unfolding end_listen after_plugins cleanup_initialized_plugins
  listen_ends opening p e calls free = ground (arith, append-nil calls)

  -- If a plugin throws as the proxy starts, the start fails with its error: the plugins after it
  -- are not initialized, those before it are cleaned up in the opposite order, each once, none is left
  -- initialized, and the server neither listens nor starts.
  pub listen_fails :
      (pre post : List Plugin) (plugin : Plugin) (e : Thrown) (opening : Opening) (p : Proxy)
      → is_closed p ≡ false
      → p.initialized_plugins ≡ []
      → p.active_plugins ≡ pre ++ plugin ∷ post
      → All (λ q. init_fails q ≡ none) pre
      → init_fails plugin ≡ some e
      → listen init_fails cleanup_fails opening p
        ≡ failed_with p e (p.plugin_calls ++ calls_of_failure [] pre plugin)
  listen_fails pre post plugin e opening p free none_ active h fails =
      let begun : Proxy = record p { is_starting = true } in
      let failed =
        ap (λ plugins. initialize_each init_fails cleanup_fails plugins begun) active
        ∙ initialize_each_fails pre post plugin e begun h fails
        ∙ ap (λ before. failed_with begun e (p.plugin_calls ++ calls_of_failure before pre plugin))
            none_ in
      listen_begins opening p free
      ∙ ap
          (λ r.
            end_listen init_fails cleanup_fails (after_plugins init_fails cleanup_fails opening r))
          failed
      ∙ listen_ends opening p e _ free
