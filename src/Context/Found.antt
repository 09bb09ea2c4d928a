-- ===== src/Context/Found.antt =====
-- What a call for a scope finds and makes.
use mitm_core.Prelude.{
  ℕ, String, ◌≡◌, refl, sym, ◌∙◌, Option, some, ◌⊎◌, arith, nat_eq, string_eq, pair_eq,
  Option-cases, inl, inr, nat_beq_iff, ap, subst, ◌≤◌,
}
use mitm_core.Prelude.Assoc.{lookup, lookup-insert_self}
use mitm_core.Prelude.Entries.{Each, Each-insert}
use mitm_core.Net.{Ref, Socket}
use mitm_core.Scope.{SessionContext}
use mitm_core.Context.Manager.{Manager, RequestKey, create_session, get_or_create_session_context}
use mitm_core.Context.Owned.{IsOwned}
use mitm_core.Context.Request.{
  Incoming, create_request_context, get_or_create_request_context, create_lifecycle, ScopeRefs,
  get_or_create_scope, get_or_create_request_lifecycle,
}
use mitm_core.Context.Sessions.{created}
use mitm_core.Context.WellFormed.{
  IsWellFormed, IsRequest, request_elim, session-IsWellFormed, request-IsWellFormed,
  lifecycle-IsWellFormed, known, made_lifecycle, lived_lifecycle,
}

pub session_found :
    (socket : Socket) (m : Manager)
    → let (m', ref) = get_or_create_session_context socket m in
      lookup socket.id m'.context_store ≡ some ref
unfolding create_session
session_found socket m = elim (Option-cases (lookup socket.id m.context_store)) [
  | inl e ↦ rw (created socket m e) (lookup-insert_self socket.id m.fresh m.context_store)
  | inr (ref, e) ↦ rw (known socket m ref e) e
]

-- A request is new, or the one that the key finds.
abbrev pub IsNewOrKeyed : RequestKey → Manager → Ref → Type 0
IsNewOrKeyed key m ref = (ref ≡ m.fresh) ⊎ (lookup key m.request_index ≡ some ref)

pub request_cases :
    (session : SessionContext) (req : Option Incoming) (stream_id : String) (m : Manager)
    → IsNewOrKeyed
        (session.connection_id, stream_id)
        m
        (get_or_create_request_context session req stream_id m).1
unfolding create_request_context
request_cases session req stream_id m =
    request_elim (λ r. IsNewOrKeyed (session.connection_id, stream_id) m r.1) session req stream_id
      m (inl refl) (inl refl) (λ ref e. inr e)

context-IsRequest :
    (session : SessionContext) (req : Option Incoming) (stream_id : String) (m : Manager)
    → IsWellFormed m
    → let (m', ref) = get_or_create_request_context session req stream_id m in IsRequest m' ref
unfolding create_request_context
context-IsRequest session req stream_id m h =
    request_elim (λ r. IsRequest r.0 r.1) session req stream_id m
      (ground (arith, nat_beq_iff m.fresh m.fresh)) (ground (arith, nat_beq_iff m.fresh m.fresh))
      (λ ref e. h.indexed (session.connection_id, stream_id) ref e)

-- The keys that find the request name the session.
request_keyed :
    (session : SessionContext) (req : Option Incoming) (stream_id : String) (m : Manager)
    → IsWellFormed m
    → let (m', request) = get_or_create_request_context session req stream_id m in
      Each (λ key ref. ref ≡ request → key.0 ≡ session.connection_id) m'.request_index
unfolding create_request_context
request_keyed session req stream_id m h =
    let key : RequestKey = (session.connection_id, stream_id) in
    request_elim (λ r. Each (λ k ref. ref ≡ r.1 → k.0 ≡ session.connection_id) r.0.request_index)
      session req stream_id m (λ k ref p same. omega (arith, h.indexed k ref p, same))
      (Each-insert (λ k ref. ref ≡ m.fresh → k.0 ≡ session.connection_id) key m.fresh
        m.request_index (λ _. refl) (λ k ref p same. omega (arith, h.indexed k ref p, same)))
      (λ found e k ref p same.
        ap (λ i. i.0)
          (h.indexed_once k key ref p
            (subst (λ r. lookup key m.request_index ≡ some r) (sym same) e)))

lifecycle_found :
    (now : ℕ) (id : Ref) (m : Manager)
    → let (m', ref) = get_or_create_request_lifecycle now id m in
      lookup id m'.request_life_cycle_index ≡ some ref
unfolding create_lifecycle
lifecycle_found now id m = elim (Option-cases (lookup id m.request_life_cycle_index)) [
  | inl e ↦
      rw (made_lifecycle now id m e) (lookup-insert_self id m.fresh m.request_life_cycle_index)
  | inr (ref, e) ↦ rw (lived_lifecycle now id m ref e) e
]

request_keeps :
    (session : SessionContext) (req : Option Incoming) (stream_id : String) (m : Manager)
    → let m' = (get_or_create_request_context session req stream_id m).0 in
      (m'.context_store ≡ m.context_store) × (m'.sessions ≡ m.sessions)
unfolding create_request_context
request_keeps session req stream_id m =
    request_elim (λ r. (r.0.context_store ≡ m.context_store) × (r.0.sessions ≡ m.sessions)) session
      req stream_id m (refl, refl) (refl, refl) (λ ref e. (refl, refl))

-- A lifecycle changes none of the other maps.
lifecycle_keeps :
    (now : ℕ) (id : Ref) (m : Manager)
    → let m' = (get_or_create_request_lifecycle now id m).0 in
      (m'.context_store ≡ m.context_store)
      × (m'.request_index ≡ m.request_index)
      × (m'.requests ≡ m.requests)
      × (m.fresh ≤ m'.fresh)
unfolding create_lifecycle
lifecycle_keeps now id m = elim (Option-cases (lookup id m.request_life_cycle_index)) [
  | inl e ↦ rw (made_lifecycle now id m e) (refl, refl, refl, omega arith)
  | inr (ref, e) ↦ rw (lived_lifecycle now id m ref e) (refl, refl, refl, omega arith)
]

-- What a scope is in the manager that made it: found at its socket, and owned by it.
pub record IsScopeOf (socket_id : Ref) (a : ScopeRefs) (m : Manager) : Type 0 where
  pub at_socket : lookup socket_id m.context_store ≡ some a.session
  pub at_request : lookup a.request m.request_life_cycle_index ≡ some a.lifecycle
  pub owned : IsOwned socket_id a m

pub scope-IsScopeOf :
    (now : ℕ) (socket : Socket) (req : Option Incoming) (stream_id : String) (m : Manager)
    → IsWellFormed m
    → let (m', a) = get_or_create_scope now socket req stream_id m in IsScopeOf socket.id a m'
unfolding get_or_create_scope
scope-IsScopeOf now socket req stream_id m h =
    let (m1, session) = get_or_create_session_context socket m in
    let s = m1.sessions session in
    let (m2, request) = get_or_create_request_context s req stream_id m1 in
    let id = (m2.requests request).request_id in
    let (m3, lifecycle) = get_or_create_request_lifecycle now id m2 in
    let h1 = session-IsWellFormed socket m h in
    let (_, connection) = h1.stored socket.id session (session_found socket m) in
    let h2 = request-IsWellFormed s req stream_id m1 h1 in
    let (request_made, own_id) = context-IsRequest s req stream_id m1 h1 in
    let h3 = lifecycle-IsWellFormed now id m2 h2 in
    let (store, index, _, grown) = lifecycle_keeps now id m2 in
    let at_socket : lookup socket.id m3.context_store ≡ some session =
      ap (λ c. lookup socket.id c) (store ∙ (request_keeps s req stream_id m1).0)
      ∙ session_found socket m in
    let at_id = lifecycle_found now id m2 in
    record {
      at_socket = at_socket;
      at_request = subst (λ i. lookup i m3.request_life_cycle_index ≡ some lifecycle) own_id at_id;
      owned = record {
        made = (
          (h3.stored socket.id session at_socket).0,
          omega (arith, request_made, grown),
          h3.lived id lifecycle at_id,
        );
        stored = λ i ref p same. h3.stored_once i socket.id ref p (at_socket ∙ ap some (sym same));
        indexed =
            subst (λ c. Each (λ key ref. ref ≡ request → key.0 ≡ session) c) (sym index)
              (λ key ref p same. request_keyed s req stream_id m1 h1 key ref p same ∙ connection);
        lived = λ i ref p same. h3.lived_once i id ref p (at_id ∙ ap some (sym same)) ∙ own_id;
      };
    }
