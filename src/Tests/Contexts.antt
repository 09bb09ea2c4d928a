-- ===== src/Tests/Contexts.antt =====
-- The context manager at a socket and requests of the tests.
use mitm_core.Prelude.{◌≡◌, none, some, [], ◌∷◌, nat_eq, string_eq, pair_eq}
use mitm_core.Prelude.Assoc.{lookup}
use mitm_core.Context.Manager.{Manager}
use mitm_core.Context.Request.{Incoming, destroy_request_lifecycle, get_or_create_scope}
use mitm_core.Context.KeepAlive.{reused_request_inactive}
use mitm_core.Tests.Samples.{
  sample_socket, sample_session, sample_request, sample_lifecycle, sample_req, sample_res,
}

-- No session, and one request, that is active.
abbrev pub sample_manager : Manager
sample_manager = record {
  sessions = λ _. sample_session;
  requests = λ _. sample_request;
  lifecycles = λ _. sample_lifecycle;
  fresh = 2;
  context_store = [];
  connection_index = [];
  request_index = ((0, "h1"), 1) ∷ [];
  active_requests = (1, 1) ∷ [];
  request_life_cycle_index = (1, 1) ∷ [];
  listeners = [];
}

abbrev sample_incoming : Incoming
sample_incoming = record { message = sample_req; res = some sample_res }

reused_request_inactive_example :
    let (m1, first) = get_or_create_scope 3 sample_socket none "h1" sample_manager in
    let id = (m1.requests first.request).request_id in
    let (m2, second) =
      get_or_create_scope 4 sample_socket none "h1" (destroy_request_lifecycle id m1) in
    (second.session ≡ first.session)
    × (second.request ≡ first.request)
    × (lookup id m2.active_requests ≡ none)
reused_request_inactive_example = reused_request_inactive 3 4 sample_socket sample_manager
