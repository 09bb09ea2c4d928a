-- ===== src/Context/Manager.antt =====
-- The state of the context manager, its sessions and its listeners: the sessions, requests and
-- lifecycles that are alive, and the maps that find them. The objects lie in a heap, since the maps
-- and the scopes share them; `fresh` is the next reference, which also stands for the next
-- `crypto.randomUUID()`: neither is ever given twice. `listeners` are the callbacks that the manager
-- put on sockets.
use mitm_core.Prelude.{
  ◌+◌, String, Bool, true, false, not, ◌&&◌, Option, none, some, List, [], ◌∷◌, ◌++◌, ◌==◌, nat_eq,
  string_eq, pair_eq, if◌then◌else◌, update, keep_if,
}
use mitm_core.Prelude.Assoc.{Assoc, lookup, insert, remove}
use mitm_core.Net.{Ref, Socket}
use mitm_core.Scope.{SessionContext, RequestContext, RequestLifecycle}

-- `${connectionId}:${streamId}`: a UUID holds no colon, so the pair says as much as the text.
abbrev pub RequestKey : Type 0
RequestKey = Ref × String

pub data Event : Type 0 where
  close error : Event

abbrev pub event_beq : Event → Event → Bool
event_beq close close = true
event_beq error error = true
event_beq _ _ = false

pub data Callback : Type 0 where
  forget_request : RequestKey → Callback
  forget_connection : Ref → Callback

pub record Listener : Type 0 where
  pub socket : Ref
  pub event : Event
  pub callback : Callback

pub record Manager : Type 0 where
  pub sessions : Ref → SessionContext
  pub requests : Ref → RequestContext
  pub lifecycles : Ref → RequestLifecycle
  pub fresh : Ref
  pub context_store : Assoc Ref Ref
  pub connection_index : Assoc Ref Ref
  pub request_index : Assoc RequestKey Ref
  pub active_requests : Assoc Ref Ref
  pub request_life_cycle_index : Assoc Ref Ref
  pub listeners : List Listener

-- `setContext`; the object is `ref`.
unfoldable pub set_context : Socket → Ref → Manager → Manager
set_context socket ref m = record m {
  context_store = insert socket.id ref m.context_store;
  connection_index = insert (m.sessions ref).connection_id ref m.connection_index;
}

new_session : Ref → Socket → SessionContext
new_session id socket = record {
  connection_id = id;
  socket = socket;
  protocol = record { connection_type = none; http_version = none };
  head = none;
  custom_certificates = none;
}

unfoldable pub create_session : Socket → Manager → Manager × Ref
unfolding new_session
create_session socket m =
    let id = m.fresh in
    (
      record m {
        sessions = update id (new_session id socket) m.sessions;
        fresh = id + 1;
        context_store = insert socket.id id m.context_store;
        connection_index = insert id id m.connection_index;
        listeners =
            m.listeners
            ++ record { socket = socket.id; event = close; callback = forget_connection id }
              ∷ record { socket = socket.id; event = error; callback = forget_connection id }
              ∷ [];
      },
      id,
    )

unfoldable pub get_or_create_session_context : Socket → Manager → Manager × Ref
unfolding create_session
get_or_create_session_context socket m = elim (lookup socket.id m.context_store) [
  | none ↦ create_session socket m
  | some ref ↦ (m, ref)
]

unfoldable pub get_proxy_ctx_by_id : Ref → Manager → Option SessionContext
get_proxy_ctx_by_id id m = elim (lookup id m.connection_index) [
  | none ↦ none
  | some ref ↦ some (m.sessions ref)
]

unfoldable pub remove_context : Socket → Manager → Manager
remove_context socket m = elim (lookup socket.id m.context_store) [
  | none ↦ m
  | some ref ↦ record m {
    connection_index = remove (m.sessions ref).connection_id m.connection_index;
  }
]

unfoldable pub run_callback : Callback → Manager → Manager
run_callback (forget_request key) m = record m { request_index = remove key m.request_index }
run_callback (forget_connection id) m = record m { connection_index = remove id m.connection_index }

abbrev pub is_for : Ref → Event → Listener → Bool
is_for socket event l = l.socket == socket && event_beq l.event event

unfoldable pub run_callbacks : Ref → Event → List Listener → Manager → Manager
unfolding run_callback
run_callbacks socket event [] m = m
run_callbacks socket event (l ∷ ls) m =
    run_callbacks socket event ls (if is_for socket event l then run_callback l.callback m else m)

-- A socket emits `close` or `error`: its `once` listeners run and are taken off.
unfoldable pub emit : Ref → Event → Manager → Manager
unfolding run_callbacks
emit socket event m =
    let ran = run_callbacks socket event m.listeners m in
    record ran { listeners = keep_if (λ l. not (is_for socket event l)) m.listeners }
