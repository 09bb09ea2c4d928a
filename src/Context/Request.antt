-- ===== src/Context/Request.antt =====
-- The requests and lifecycles of the context manager. `now` is `Date.now()`.
use mitm_core.Prelude.{
  ℕ, ◌+◌, String, true, false, ◌&&◌, Option, none, some, List, [], ◌∷◌, ◌++◌, map, ◌==◌, nat_eq,
  string_eq, pair_eq, if◌then◌else◌, update, is_some,
}
use mitm_core.Prelude.Assoc.{Assoc, lookup, insert, remove}
use mitm_core.Context.Manager.{
  Manager, RequestKey, close, forget_request, get_or_create_session_context,
}
use mitm_core.Net.{Ref, Socket, Response, IncomingMessage, header_text}
use mitm_core.State.{new_store}
use mitm_core.Scope.{SessionContext, RequestContext, RequestLifecycle, ClientSide, Target}

-- The request that a context is made for, with the response that hangs on it.
pub record Incoming : Type 0 where
  pub message : IncomingMessage
  pub res : Option Response

abbrev client_of : Option Incoming → ClientSide
client_of none = record { req = none; res = none; method = none; url = none; headers = none }
client_of (some i) = record {
  req = some i.message;
  res = i.res;
  method = i.message.method;
  url = i.message.url;
  headers = some i.message.headers;
}

abbrev target_of : Option Incoming → Target
target_of none = record { original_host = none; original_url = none; host = none; url = none }
target_of (some i) = record {
  original_host = header_text "host" i.message.headers;
  original_url = i.message.url;
  host = none;
  url = none;
}

new_request : Ref → Option Incoming → RequestContext
new_request id req = record {
  request_id = id;
  client = client_of req;
  upstream = record { req = none; res = none };
  target = target_of req;
  web_socket = none;
  explicit_header_overrides = none;
}

-- `if (requestKey) { … }` of `createRequestContext`.
index_request : SessionContext → Option RequestKey → Ref → Manager → Manager
index_request session none id m = m
index_request session (some key) id m = record m {
  request_index = insert key id m.request_index;
  listeners =
      m.listeners
      ++ record { socket = session.socket.id; event = close; callback = forget_request key } ∷ [];
}

unfoldable pub create_request_context :
    SessionContext → Option Incoming → Option RequestKey → Manager → Manager × Ref
unfolding new_request index_request
create_request_context session req key m =
    let id = m.fresh in
    let made = record m { requests = update id (new_request id req) m.requests; fresh = id + 1 } in
    let indexed = index_request session key id made in
    (record indexed { active_requests = insert id id indexed.active_requests }, id)

unfoldable pub get_or_create_request_context :
    SessionContext → Option Incoming → String → Manager → Manager × Ref
get_or_create_request_context session req stream_id m =
    let key : RequestKey = (session.connection_id, stream_id) in
    if stream_id == "h1" && is_some req
    then create_request_context session req none m
    else elim (lookup key m.request_index) [
      | none ↦ create_request_context session req (some key) m
      | some ref ↦ (m, ref)
    ]

new_lifecycle : ℕ → RequestLifecycle
new_lifecycle now = record {
  is_hijacked = false;
  timestamps = record {
    received_at = now;
    upstream_sent_at = none;
    upstream_received_at = none;
    responded_at = none;
    duration = none;
  };
  next_phase = none;
  state = new_store;
  abort = none;
  failure = none;
}

unfoldable pub create_lifecycle : ℕ → Ref → Manager → Manager × Ref
unfolding new_lifecycle
create_lifecycle now request_id m = (
  record m {
    lifecycles = update m.fresh (new_lifecycle now) m.lifecycles;
    fresh = m.fresh + 1;
    request_life_cycle_index = insert request_id m.fresh m.request_life_cycle_index;
  },
  m.fresh,
)

unfoldable pub get_or_create_request_lifecycle : ℕ → Ref → Manager → Manager × Ref
unfolding create_lifecycle
get_or_create_request_lifecycle now request_id m =
    elim (lookup request_id m.request_life_cycle_index) [
      | none ↦ create_lifecycle now request_id m
      | some ref ↦ (m, ref)
    ]

-- The three objects of a `RequestScope`.
pub record ScopeRefs : Type 0 where
  pub session : Ref
  pub request : Ref
  pub lifecycle : Ref

unfoldable pub get_or_create_scope :
    ℕ → Socket → Option Incoming → String → Manager → Manager × ScopeRefs
get_or_create_scope now socket req stream_id m =
    let (m1, session) = get_or_create_session_context socket m in
    let (m2, request) = get_or_create_request_context (m1.sessions session) req stream_id m1 in
    let (m3, lifecycle) = get_or_create_request_lifecycle now (m2.requests request).request_id m2 in
    (m3, record { session = session; request = request; lifecycle = lifecycle })

-- `getActiveRequests`.
unfoldable pub get_active_requests : Manager → List RequestContext
get_active_requests m = map (λ e. m.requests e.1) m.active_requests

unfoldable pub destroy_resources : RequestContext → RequestContext
destroy_resources r = record r {
  client = record (r.client) {
    res = elim r.client.res [
      | none ↦ none
      | some res ↦
          some (if res.destroyed then res else record res { destroyed = true; writable = false })
    ];
  };
  upstream = record {
    req = elim r.upstream.req [ none ↦ none | some q ↦ some (record q { destroyed = true }) ];
    res = elim r.upstream.res [ none ↦ none | some q ↦ some (record q { destroyed = true }) ];
  };
}

unfoldable pub destroy_each : Assoc Ref Ref → (Ref → RequestContext) → Ref → RequestContext
unfolding destroy_resources
destroy_each [] heap = heap
destroy_each ((id, ref) ∷ rest) heap =
    destroy_each rest (update ref (destroy_resources (heap ref)) heap)

-- `destroyActiveRequests`; an exception of one `destroy` is logged and the rest goes on.
unfoldable pub destroy_active_requests : Manager → Manager
unfolding destroy_each
destroy_active_requests m = record m {
  requests = destroy_each m.active_requests m.requests;
  active_requests = [];
  request_life_cycle_index = [];
  request_index = [];
}

unfoldable pub destroy_request_lifecycle : Ref → Manager → Manager
destroy_request_lifecycle request_id m = record m {
  request_life_cycle_index = remove request_id m.request_life_cycle_index;
  active_requests = remove request_id m.active_requests;
}
