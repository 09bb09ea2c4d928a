-- ===== src/Transport/Bridge/Once.antt =====
-- From its start on, the promise of the bridge is settled once.
use mitm_core.Prelude.{ℕ, Bool, ◌≡◌, arith, string_eq, nat_eq, ◌≤◌, List, length, String, Option}
use mitm_core.Transport.Bridge.{Event, run_events, Bridge}
use mitm_core.Scope.{ExplicitHeaderOverrides, RequestScope}
use mitm_core.Cache.Store.{Lru, Cache}
use mitm_core.Context.Manager.{Manager}
use mitm_core.Transport.Bridge.Start.{execute, started}
use mitm_core.Transport.Bridge.Settling.{Settles, IsSound-once, run_events-Settles}

module _ (lru : Lru) where
  -- The bridge starts sound: it is open and waits, or the answer came from the cache and it was
  -- resolved, once.
  pub execute-Settles :
      (now : ℕ) (use_response_cache : Bool) (s : RequestScope) (m : Manager) (c : Cache lru)
      (b : Bridge lru)
      → execute lru now use_response_cache s m c ≡ started b
      → Settles lru b
  unfolding execute
  execute-Settles now use_response_cache s m c b e = ground arith

  -- From the start of the bridge, whatever events come and in whatever order, `resolve` and `reject`
  -- are called at most once in all.
  pub settles_once :
      (date_parse : String → Option ℕ) (globals : Option ExplicitHeaderOverrides) (now : ℕ)
      (use_response_cache : Bool) (s : RequestScope) (m : Manager) (c : Cache lru) (b : Bridge lru)
      (events : List (ℕ × RequestScope × Event))
      → execute lru now use_response_cache s m c ≡ started b
      → length (run_events lru date_parse globals events b).calls ≤ 1
  settles_once date_parse globals now use_response_cache s m c b events e = IsSound-once (
      run_events-Settles lru date_parse globals events b
        (execute-Settles now use_response_cache s m c b e))
