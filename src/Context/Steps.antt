-- ===== src/Context/Steps.antt =====
-- What can happen to the context manager, in any order. `setContext`, which nothing calls, is not
-- among the steps.
use mitm_core.Prelude.{
  ℕ, String, ◌≡◌, Option, [], arith, nat_eq, string_eq, pair_eq, update, nat_beq_iff,
}
use mitm_core.Prelude.Assoc.{lookup}
use mitm_core.Net.{Ref, Socket}
use mitm_core.Scope.{SessionContext, RequestContext, RequestLifecycle}
use mitm_core.Context.Manager.{Manager, Event, get_or_create_session_context, remove_context, emit}
use mitm_core.Context.Request.{
  Incoming, ScopeRefs, get_or_create_scope, destroy_request_lifecycle, destroy_active_requests,
}
use mitm_core.Context.WellFormed.{IsWellFormed, session-IsWellFormed, scope-IsWellFormed}
use mitm_core.Context.Owned.{
  IsOwned, session-IsOwned, scope-IsOwned, emit-IsOwned, remove_context-IsOwned,
  destroy_request_lifecycle-IsOwned, destroy_active_requests-IsOwned,
}
use mitm_core.Context.Kept.{
  emit-IsWellFormed, remove_context-IsWellFormed, destroy_request_lifecycle-IsWellFormed,
  destroy_active_requests-IsWellFormed,
}

-- A call of the manager, an event of a socket, or a write of a handler or plugin to an object,
-- which never changes an id.
pub data Step (m : Manager) : Manager → Type 0 where
  asked :
      (now : ℕ) (socket : Socket) (req : Option Incoming) (stream_id : String)
      → Step m (get_or_create_scope now socket req stream_id m).0
  session_asked : (socket : Socket) → Step m (get_or_create_session_context socket m).0
  emitted : (socket : Ref) (event : Event) → Step m (emit socket event m)
  context_removed : (socket : Socket) → Step m (remove_context socket m)
  destroyed : (id : Ref) → Step m (destroy_request_lifecycle id m)
  all_destroyed : Step m (destroy_active_requests m)
  wrote_session :
      (ref : Ref) (s : SessionContext)
      → s.connection_id ≡ (m.sessions ref).connection_id
      → Step m (record m { sessions = update ref s m.sessions })
  wrote_request :
      (ref : Ref) (r : RequestContext)
      → r.request_id ≡ (m.requests ref).request_id
      → Step m (record m { requests = update ref r m.requests })
  wrote_lifecycle :
      (ref : Ref) (l : RequestLifecycle)
      → Step m (record m { lifecycles = update ref l m.lifecycles })

pub data Steps (m : Manager) : Manager → Type 0 where
  here : Steps m m
  later : {k l : Manager} → Steps m k → Step k l → Steps m l

-- The manager before its first call; the heaps hold nothing that a map finds.
pub record IsNew (m : Manager) : Type 0 where
  pub no_context : m.context_store ≡ []
  pub no_connection : m.connection_index ≡ []
  pub no_active : m.active_requests ≡ []
  pub no_request : m.request_index ≡ []
  pub no_lifecycle : m.request_life_cycle_index ≡ []

new-IsWellFormed : (m : Manager) → IsNew m → IsWellFormed m
unfolding lookup
new-IsWellFormed m n = record {
  stored = λ id ref p. ground (arith, n.no_context);
  stored_once = λ id other ref p q. ground (arith, n.no_context);
  connected = λ id ref p. ground (arith, n.no_connection);
  active = λ id ref p. ground (arith, n.no_active);
  indexed = λ key ref p. ground (arith, n.no_request);
  indexed_once = λ key other ref p q. ground (arith, n.no_request);
  lived = λ id ref p. ground (arith, n.no_lifecycle);
  lived_once = λ id other ref p q. ground (arith, n.no_lifecycle);
}

Step-IsWellFormed : {m k : Manager} → Step m k → IsWellFormed m → IsWellFormed k
Step-IsWellFormed {m} (asked now socket req stream_id) h =
    scope-IsWellFormed now socket req stream_id m h
Step-IsWellFormed {m} (session_asked socket) h = session-IsWellFormed socket m h
Step-IsWellFormed {m} (emitted socket event) h = emit-IsWellFormed socket event m h
Step-IsWellFormed {m} (context_removed socket) h = remove_context-IsWellFormed socket m h
Step-IsWellFormed {m} (destroyed id) h = destroy_request_lifecycle-IsWellFormed id m h
Step-IsWellFormed {m} all_destroyed h = destroy_active_requests-IsWellFormed m h
Step-IsWellFormed {m} (wrote_session ref s same) h = record {
  stored = λ id r p. ground (arith, h.stored id r p, nat_beq_iff ref r);
  stored_once = h.stored_once;
  connected = λ id r p. ground (arith, h.connected id r p, nat_beq_iff ref r);
  active = h.active;
  indexed = h.indexed;
  indexed_once = h.indexed_once;
  lived = h.lived;
  lived_once = h.lived_once;
}
Step-IsWellFormed {m} (wrote_request ref new same) h = record {
  stored = h.stored;
  stored_once = h.stored_once;
  connected = h.connected;
  active = λ id r p. ground (arith, h.active id r p, nat_beq_iff ref r);
  indexed = λ key r p. ground (arith, h.indexed key r p, nat_beq_iff ref r);
  indexed_once = h.indexed_once;
  lived = h.lived;
  lived_once = h.lived_once;
}
Step-IsWellFormed {m} (wrote_lifecycle ref l) h = record {
  stored = h.stored;
  stored_once = h.stored_once;
  connected = h.connected;
  active = h.active;
  indexed = h.indexed;
  indexed_once = h.indexed_once;
  lived = h.lived;
  lived_once = h.lived_once;
}

pub kept-IsWellFormed : {m k : Manager} → Steps m k → IsWellFormed m → IsWellFormed k
kept-IsWellFormed here h = h
kept-IsWellFormed (later steps step) h = Step-IsWellFormed step (kept-IsWellFormed steps h)

-- After any steps from a new manager, what its maps find are objects that were made, a session or
-- an active request under its own id, and no two sockets find the same session, no two request keys
-- the same request, and no two requests the same lifecycle.
pub steps-IsWellFormed : {m k : Manager} → IsNew m → Steps m k → IsWellFormed k
steps-IsWellFormed {m} n steps = kept-IsWellFormed steps (new-IsWellFormed m n)

-- A step leaves a scope its socket's own.
pub Step-IsOwned :
    (socket_id : Ref) (a : ScopeRefs) {m k : Manager}
    → Step m k
    → IsOwned socket_id a m
    → IsOwned socket_id a k
Step-IsOwned i a {m} (asked now socket req stream_id) h =
    scope-IsOwned i a now socket req stream_id m h
Step-IsOwned i a {m} (session_asked socket) h = session-IsOwned i a socket m h
Step-IsOwned i a {m} (emitted socket event) h = emit-IsOwned i a socket event m h
Step-IsOwned i a {m} (context_removed socket) h = remove_context-IsOwned i a socket m h
Step-IsOwned i a {m} (destroyed id) h = destroy_request_lifecycle-IsOwned i a id m h
Step-IsOwned i a {m} all_destroyed h = destroy_active_requests-IsOwned i a m h
Step-IsOwned i a (wrote_session ref s same) h = record {
  made = h.made;
  stored = h.stored;
  indexed = h.indexed;
  lived = h.lived;
}
Step-IsOwned i a (wrote_request ref r same) h = record {
  made = h.made;
  stored = h.stored;
  indexed = h.indexed;
  lived = h.lived;
}
Step-IsOwned i a (wrote_lifecycle ref l) h = record {
  made = h.made;
  stored = h.stored;
  indexed = h.indexed;
  lived = h.lived;
}

pub steps-IsOwned :
    (socket_id : Ref) (a : ScopeRefs) {m k : Manager}
    → Steps m k
    → IsOwned socket_id a m
    → IsOwned socket_id a k
steps-IsOwned i a here h = h
steps-IsOwned i a (later steps step) h = Step-IsOwned i a step (steps-IsOwned i a steps h)
