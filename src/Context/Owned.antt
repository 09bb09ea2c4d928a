-- ===== src/Context/Owned.antt =====
-- A scope is its socket's own: the maps of the context manager find its session only at the socket,
-- its request only under the session, and its lifecycle only at the request. What a call of the
-- manager makes later is new, so it stays so.
use mitm_core.Prelude.{
  ℕ, ◌<◌, String, ◌≡◌, Option, none, some, List, [], ◌∷◌, arith, nat_eq, string_eq, pair_eq,
  if◌then◌else◌, Option-cases, inl, inr, true, false,
}
use mitm_core.Prelude.Assoc.{lookup}
use mitm_core.Prelude.Entries.{Each, Each-insert, Each-remove}
use mitm_core.Net.{Ref, Socket}
use mitm_core.Scope.{SessionContext}
use mitm_core.Context.Manager.{
  Manager, RequestKey, Listener, Event, Callback, forget_request, forget_connection, remove_context,
  create_session, get_or_create_session_context, run_callback, run_callbacks, emit, is_for,
}
use mitm_core.Context.Request.{
  Incoming, ScopeRefs, create_request_context, get_or_create_request_context, create_lifecycle,
  get_or_create_request_lifecycle, get_or_create_scope, destroy_request_lifecycle,
  destroy_active_requests,
}
use mitm_core.Context.Sessions.{created}
use mitm_core.Context.Kept.{unknown, removed}
use mitm_core.Context.WellFormed.{known, request_elim, made_lifecycle, lived_lifecycle}

module _ (socket_id : Ref) (a : ScopeRefs) where
  pub record IsOwned (m : Manager) : Type 0 where
    pub made : (a.session < m.fresh) × (a.request < m.fresh) × (a.lifecycle < m.fresh)
    pub stored : Each (λ id ref. ref ≡ a.session → id ≡ socket_id) m.context_store
    pub indexed : Each (λ key ref. ref ≡ a.request → key.0 ≡ a.session) m.request_index
    pub lived : Each (λ id ref. ref ≡ a.lifecycle → id ≡ a.request) m.request_life_cycle_index

  create_session-IsOwned :
      (socket : Socket) (m : Manager) → IsOwned m → IsOwned (create_session socket m).0
  unfolding create_session
  create_session-IsOwned socket m h = record {
    made = omega (arith, h.made);
    stored =
        Each-insert (λ id ref. ref ≡ a.session → id ≡ socket_id) socket.id m.fresh m.context_store
          (λ same. omega (arith, h.made, same)) h.stored;
    indexed = h.indexed;
    lived = h.lived;
  }

  pub session-IsOwned :
      (socket : Socket) (m : Manager)
      → IsOwned m
      → IsOwned (get_or_create_session_context socket m).0
  session-IsOwned socket m h = elim (Option-cases (lookup socket.id m.context_store)) [
    | inl e ↦ rw (created socket m e) (create_session-IsOwned socket m h)
    | inr (ref, e) ↦ rw (known socket m ref e) h
  ]

  create_request-IsOwned :
      (session : SessionContext) (req : Option Incoming) (key : Option RequestKey) (m : Manager)
      → IsOwned m
      → IsOwned (create_request_context session req key m).0
  unfolding create_request_context
  create_request-IsOwned session req none m h = record {
    made = omega (arith, h.made);
    stored = h.stored;
    indexed = h.indexed;
    lived = h.lived;
  }
  create_request-IsOwned session req (some key) m h = record {
    made = omega (arith, h.made);
    stored = h.stored;
    indexed =
        Each-insert (λ k ref. ref ≡ a.request → k.0 ≡ a.session) key m.fresh m.request_index
          (λ same. omega (arith, h.made, same)) h.indexed;
    lived = h.lived;
  }

  request-IsOwned :
      (session : SessionContext) (req : Option Incoming) (stream_id : String) (m : Manager)
      → IsOwned m
      → IsOwned (get_or_create_request_context session req stream_id m).0
  request-IsOwned session req stream_id m h =
      request_elim (λ r. IsOwned r.0) session req stream_id m
        (create_request-IsOwned session req none m h)
        (create_request-IsOwned session req (some (session.connection_id, stream_id)) m h)
        (λ _ _. h)

  create_lifecycle-IsOwned :
      (now : ℕ) (id : Ref) (m : Manager) → IsOwned m → IsOwned (create_lifecycle now id m).0
  unfolding create_lifecycle
  create_lifecycle-IsOwned now id m h = record {
    made = omega (arith, h.made);
    stored = h.stored;
    indexed = h.indexed;
    lived =
        Each-insert (λ i ref. ref ≡ a.lifecycle → i ≡ a.request) id m.fresh
          m.request_life_cycle_index (λ same. omega (arith, h.made, same)) h.lived;
  }

  lifecycle-IsOwned :
      (now : ℕ) (id : Ref) (m : Manager)
      → IsOwned m
      → IsOwned (get_or_create_request_lifecycle now id m).0
  lifecycle-IsOwned now id m h = elim (Option-cases (lookup id m.request_life_cycle_index)) [
    | inl e ↦ rw (made_lifecycle now id m e) (create_lifecycle-IsOwned now id m h)
    | inr (ref, e) ↦ rw (lived_lifecycle now id m ref e) h
  ]

  pub scope-IsOwned :
      (now : ℕ) (socket : Socket) (req : Option Incoming) (stream_id : String) (m : Manager)
      → IsOwned m
      → IsOwned (get_or_create_scope now socket req stream_id m).0
  unfolding get_or_create_scope
  scope-IsOwned now socket req stream_id m h =
      let (m1, session) = get_or_create_session_context socket m in
      let (m2, request) = get_or_create_request_context (m1.sessions session) req stream_id m1 in
      lifecycle-IsOwned now (m2.requests request).request_id m2
        (request-IsOwned (m1.sessions session) req stream_id m1 (session-IsOwned socket m h))

  run_callback-IsOwned : (c : Callback) (m : Manager) → IsOwned m → IsOwned (run_callback c m)
  unfolding run_callback
  run_callback-IsOwned (forget_request key) m h = record {
    made = h.made;
    stored = h.stored;
    indexed =
        Each-remove (λ k ref. ref ≡ a.request → k.0 ≡ a.session) key m.request_index h.indexed;
    lived = h.lived;
  }
  run_callback-IsOwned (forget_connection id) m h = record {
    made = h.made;
    stored = h.stored;
    indexed = h.indexed;
    lived = h.lived;
  }

  pub remove_context-IsOwned :
      (socket : Socket) (m : Manager) → IsOwned m → IsOwned (remove_context socket m)
  remove_context-IsOwned socket m h = elim (Option-cases (lookup socket.id m.context_store)) [
    | inl e ↦ rw (unknown socket m e) h
    | inr (ref, e) ↦
        rw (removed socket m ref e)
          (run_callback-IsOwned (forget_connection (m.sessions ref).connection_id) m h)
  ]

  run_callbacks-IsOwned :
      (socket : Ref) (event : Event) (ls : List Listener) (m : Manager)
      → IsOwned m
      → IsOwned (run_callbacks socket event ls m)
  unfolding run_callbacks
  run_callbacks-IsOwned socket event [] m h = h
  run_callbacks-IsOwned socket event (l ∷ ls) m h =
      run_callbacks-IsOwned socket event ls _
        (elim (is_for socket event l)
          as (λ b. IsOwned (if b then run_callback l.callback m else m)) [
            | true ↦ run_callback-IsOwned l.callback m h
            | false ↦ h
          ])

  pub emit-IsOwned :
      (socket : Ref) (event : Event) (m : Manager) → IsOwned m → IsOwned (emit socket event m)
  unfolding emit
  emit-IsOwned socket event m h =
      let ran = run_callbacks-IsOwned socket event m.listeners m h in
      record { made = ran.made; stored = ran.stored; indexed = ran.indexed; lived = ran.lived }

  pub destroy_request_lifecycle-IsOwned :
      (id : Ref) (m : Manager) → IsOwned m → IsOwned (destroy_request_lifecycle id m)
  unfolding destroy_request_lifecycle
  destroy_request_lifecycle-IsOwned id m h = record {
    made = h.made;
    stored = h.stored;
    indexed = h.indexed;
    lived =
        Each-remove (λ i ref. ref ≡ a.lifecycle → i ≡ a.request) id m.request_life_cycle_index
          h.lived;
  }

  pub destroy_active_requests-IsOwned :
      (m : Manager) → IsOwned m → IsOwned (destroy_active_requests m)
  unfolding destroy_active_requests lookup
  destroy_active_requests-IsOwned m h = record {
    made = h.made;
    stored = h.stored;
    indexed = λ key ref p. ground arith;
    lived = λ id ref p. ground arith;
  }
