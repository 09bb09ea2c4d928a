-- ===== src/Context/Sessions.antt =====
-- One session for each socket, until the socket closes.
use mitm_core.Prelude.{
  true, ◌≡◌, refl, ◌⊎◌, inl, inr, none, some, List, [], ◌∷◌, ◌++◌, arith, nat_eq, nat_beq_iff,
  string_eq, pair_eq, if◌then◌else◌, Option-cases,
}
use mitm_core.Prelude.Assoc.{lookup, lookup-insert_self, lookup-remove_self, lookup-remove}
use mitm_core.Net.{Ref, Socket}
use mitm_core.Context.Manager.{
  Manager, Listener, Event, close, error, Callback, forget_request, forget_connection,
  create_session, get_or_create_session_context, get_proxy_ctx_by_id, emit, run_callbacks,
  run_callback, is_for, event_beq,
}

session_again :
    (socket : Socket) (m : Manager)
    → let (m', ref) = get_or_create_session_context socket m in
      get_or_create_session_context socket m' ≡ (m', ref)
unfolding get_or_create_session_context
session_again socket m = elim (Option-cases (lookup socket.id m.context_store)) [
  | inl e ↦ ground (arith, lookup-insert_self socket.id m.fresh m.context_store)
  | inr (ref, e) ↦ ground arith
]

session_created :
    (socket : Socket) (m : Manager)
    → lookup socket.id m.context_store ≡ none
    → let (m', ref) = get_or_create_session_context socket m in
      (get_proxy_ctx_by_id ref m' ≡ some (m'.sessions ref))
      × ((m'.sessions ref).connection_id ≡ ref)
      × ((m'.sessions ref).socket ≡ socket)
unfolding get_or_create_session_context get_proxy_ctx_by_id
session_created socket m e = ground (arith, lookup-insert_self m.fresh m.fresh m.connection_index)

event_beq_refl : (e : Event) → event_beq e e ≡ true
event_beq_refl close = refl
event_beq_refl error = refl

abbrev pub Listens : Listener → List Listener → Type 0
Listens l [] = ⊥
Listens l (x ∷ xs) = (x ≡ l) ⊎ Listens l xs

Listens-append : (l : Listener) (xs ys : List Listener) → Listens l ys → Listens l (xs ++ ys)
Listens-append l [] ys h = h
Listens-append l (x ∷ xs) ys h = inr (Listens-append l xs ys h)

module _ (k : Ref) (e : Event) where
  -- Callbacks only take entries away.
  gone_connection :
      (id : Ref) (ls : List Listener) (m : Manager)
      → lookup id m.connection_index ≡ none
      → lookup id (run_callbacks k e ls m).connection_index ≡ none
  unfolding run_callbacks
  gone_connection id [] m h = h
  gone_connection id (l ∷ ls) m h = gone_connection id ls _ (one l.callback)
    where
      one :
          (c : Callback)
          → lookup id (if is_for k e l then run_callback c m else m).connection_index ≡ none
      one (forget_request j) = ground arith
      one (forget_connection j) = ground (arith, lookup-remove j id m.connection_index)

  called_connection :
      (id : Ref) (ls : List Listener) (m : Manager)
      → Listens (record { socket = k; event = e; callback = forget_connection id }) ls
      → lookup id (run_callbacks k e ls m).connection_index ≡ none
  unfolding run_callbacks
  called_connection id [] m h = elim h [ ]
  called_connection id (l ∷ ls) m (inl eq) = gone_connection id ls _ (
      rw eq (
        ground
          (arith, nat_beq_iff k k, event_beq_refl e, lookup-remove_self id m.connection_index)))
  called_connection id (l ∷ ls) m (inr h) = called_connection id ls _ h

pub created :
    (socket : Socket) (m : Manager)
    → lookup socket.id m.context_store ≡ none
    → get_or_create_session_context socket m ≡ create_session socket m
unfolding get_or_create_session_context
created socket m e = ground arith

created_forgotten :
    (socket : Socket) (m : Manager) (event : Event)
    → let (m', ref) = create_session socket m in
      lookup ref (emit socket.id event m').connection_index ≡ none
unfolding create_session emit
created_forgotten socket m close =
    called_connection socket.id close m.fresh _ _ (Listens-append _ m.listeners _ (inl refl))
created_forgotten socket m error =
    called_connection socket.id error m.fresh _ _ (Listens-append _ m.listeners _ (inr (inl refl)))

unindexed :
    (id : Ref) (m : Manager) → lookup id m.connection_index ≡ none → get_proxy_ctx_by_id id m ≡ none
unfolding get_proxy_ctx_by_id
unindexed id m e = ground arith

session_forgotten :
    (socket : Socket) (m : Manager) (event : Event)
    → lookup socket.id m.context_store ≡ none
    → let (m', ref) = get_or_create_session_context socket m in
      get_proxy_ctx_by_id ref (emit socket.id event m') ≡ none
session_forgotten socket m event e =
    rw (created socket m e) (unindexed _ _ (created_forgotten socket m event))

-- A new socket gets one session: asking again gives the same one and changes nothing, it names the
-- socket and is found by its connection id, and a close or an error of the socket makes it
-- unreachable by that id.
pub session_lives :
    (socket : Socket) (m : Manager) (event : Event)
    → lookup socket.id m.context_store ≡ none
    → let (m', ref) = get_or_create_session_context socket m in
      (get_or_create_session_context socket m' ≡ (m', ref))
      × (get_proxy_ctx_by_id ref m' ≡ some (m'.sessions ref))
      × ((m'.sessions ref).connection_id ≡ ref)
      × ((m'.sessions ref).socket ≡ socket)
      × (get_proxy_ctx_by_id ref (emit socket.id event m') ≡ none)
session_lives socket m event e =
    let (found, id, own) = session_created socket m e in
    (session_again socket m, found, id, own, session_forgotten socket m event e)
