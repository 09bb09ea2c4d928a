-- ===== src/Tests/Transports.antt =====
-- The relay and the bridge at concrete responses and events.
use mitm_core.Prelude.{
  string_eq, ℕ, ◌≤◌, true, false, ◌||◌, ◌≡◌, ◌≢◌, refl, ◌⊎◌, none, some, List, [], ◌∷◌, ◌++◌, map,
  mem, if◌then◌else◌, length, nat_eq, string_eq,
}
use mitm_core.Prelude.Assoc.{lookup}
use mitm_core.Prelude.Text.{to_lower}
use mitm_core.Net.{text, ClientRequest}
use mitm_core.Scope.{RequestScope}
use mitm_core.Pipeline.Failure.Answers.{HasEnded}
use mitm_core.Headers.Layers.{present, first_of, last_entry}
use mitm_core.Transport.Dispatch.{Work, Streamed, final_headers}
use mitm_core.Transport.Dispatch.Relay.{final_headers_lem}
use mitm_core.Transport.Errors.{is_client_disconnected, is_expected_drop, upstream_failure}
use mitm_core.Transport.Upstream.{
  UpstreamEvent, upstream_error, connect_dispatched, client_closed, response_closed, on_events,
  init_flags,
}
use mitm_core.Transport.Upstream.Guards.{IsGuarded, init_flags-IsGuarded}
use mitm_core.Transport.Bridge.Start.{execute}
use mitm_core.Transport.Bridge.Once.{settles_once}
use mitm_core.Transport.Bridge.{
  Bridge, Event, run_events, end_failed, waiting, rejected, responded, announced, failed, told,
  connect_refused,
}
use mitm_core.Transport.Bridge.Answers.{end_failed_lem}
use mitm_core.Cache.Serve.{new_processor, try_serve_hit}
use mitm_core.Tests.Samples.{
  sample_scope, sample_res, sample_upstream_res, refused, sample_overrides,
}
use mitm_core.Tests.Contexts.{sample_manager}
use mitm_core.Tests.Caches.{keeping_lru, no_dates, sample_cache, sample_processor}

final_headers_example :
    let sent = final_headers keeping_lru (some sample_overrides) sample_scope sample_upstream_res in
    ((lookup "content-length" sent ≢ none)
      ⊎ (lookup "transfer-encoding" sent ≡ some (text "chunked")))
    × (lookup "connection" sent ≡ (
        if mem "connection" (map to_lower ("Server" ∷ []))
        then none
        else present (first_of (last_entry "connection" []) (last_entry "connection" []))))
final_headers_example =
    final_headers_lem keeping_lru (some sample_overrides) sample_scope sample_upstream_res
      "connection" refl refl

abbrev sample_upstream_req : ClientRequest
sample_upstream_req = record { id = 5; method = some "GET"; headers = []; destroyed = false }

abbrev sample_work : Work keeping_lru
sample_work = record {
  scope = sample_scope;
  manager = sample_manager;
  processor = sample_processor;
  cache = sample_cache;
  upstream_res = sample_upstream_res;
  upstream_req = sample_upstream_req;
  thrown = none;
}

abbrev broken : Streamed
broken = record { chunks = (1 ∷ []) ∷ []; res = sample_res; thrown = some refused }

abbrev sample_bridge : Bridge keeping_lru
sample_bridge = record {
  work = sample_work;
  is_settled = false;
  calls = [];
  stage = waiting;
  failing = none;
}

-- The upstream responds and then fails while the listeners run; the plugins hear of it at the end.
abbrev sample_events : List (ℕ × RequestScope × Event)
sample_events =
    (3, sample_scope, responded sample_upstream_res)
    ∷ (4, sample_scope, failed refused)
    ∷ (5, sample_scope, announced none)
    ∷ (6, sample_scope, connect_refused refused)
    ∷ (7, sample_scope, told none)
    ∷ []

abbrev sent_scope : RequestScope
sent_scope = record sample_scope {
  request = record (sample_scope.request) {
    upstream = record { req = some sample_upstream_req; res = none };
  };
}

settles_once_example :
    length
      (run_events keeping_lru no_dates none sample_events (record sample_bridge {
        work = record sample_work {
          scope = sent_scope;
          processor = record sample_processor {
            use_response_cache = false;
            is_cacheable = false;
            cache_key = none;
            cached_res = none;
          };
          upstream_res = record {
            method = none;
            url = none;
            status_code = none;
            http_version = none;
            headers = [];
            encrypted = false;
            destroyed = false;
          };
        };
      })).calls
    ≤ 1
unfolding execute new_processor try_serve_hit
settles_once_example =
    settles_once keeping_lru no_dates none 3 false sent_scope sample_manager sample_cache _
      sample_events refl

end_failed_example :
    let c = end_failed keeping_lru 3 refused sample_bridge in
    ((sample_scope.request.client.res ≡ none) ⊎ HasEnded c.work.scope.request.client.res)
    × (c.work.upstream_req.destroyed ≡ true)
    × (c.work.scope.lifecycle.next_phase ≡ none)
    × (lookup sample_scope.request.request_id c.work.manager.active_requests ≡ none)
    × (c.calls ≡ [] ++ rejected refused ∷ [])
    × (c.work.scope.lifecycle.failure ≡ (
        if is_expected_drop refused || is_client_disconnected refused
        then sample_scope.lifecycle.failure
        else some (upstream_failure 3 refused)))
end_failed_example = end_failed_lem keeping_lru 3 refused sample_bridge

abbrev upstream_events : List (RequestScope × UpstreamEvent)
upstream_events =
    (sample_scope, connect_dispatched none)
    ∷ (sample_scope, upstream_error refused)
    ∷ (sample_scope, connect_dispatched none)
    ∷ (sample_scope, client_closed)
    ∷ (sample_scope, response_closed)
    ∷ []

init_flags-IsGuarded_example : IsGuarded (on_events upstream_events (init_flags 3 sample_scope))
init_flags-IsGuarded_example = init_flags-IsGuarded 3 sample_scope upstream_events
