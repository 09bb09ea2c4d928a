-- ===== src/Context/WellFormed.antt =====
-- The maps of the context manager agree with the objects: what a map finds is an object that was
-- made, under its own id, and no two keys find the same request or lifecycle.
use mitm_core.Prelude.{
  ℕ, ◌+◌, ◌<◌, String, ◌≡◌, Option, none, some, ◌==◌, arith, nat_eq, nat_beq_iff, string_eq,
  pair_eq, Option-cases, Bool-cases, inl, inr, ◌&&◌, is_some,
}
use mitm_core.Prelude.Assoc.{lookup}
use mitm_core.Prelude.Entries.{Each, AreOnce, Each-insert, AreOnce-insert}
use mitm_core.Net.{Ref, Socket}
use mitm_core.Scope.{SessionContext}
use mitm_core.Context.Manager.{Manager, RequestKey, create_session, get_or_create_session_context}
use mitm_core.Context.Sessions.{created}
use mitm_core.Context.Request.{
  Incoming, create_request_context, get_or_create_request_context, create_lifecycle,
  get_or_create_request_lifecycle, get_or_create_scope,
}

abbrev pub IsSession : Manager → Ref → Type 0
IsSession m ref = (ref < m.fresh) × ((m.sessions ref).connection_id ≡ ref)

abbrev pub IsRequest : Manager → Ref → Type 0
IsRequest m ref = (ref < m.fresh) × ((m.requests ref).request_id ≡ ref)

pub record IsWellFormed (m : Manager) : Type 0 where
  pub stored : Each (λ _ ref. IsSession m ref) m.context_store
  pub stored_once : AreOnce m.context_store
  pub connected : Each (λ id ref. (ref ≡ id) × IsSession m ref) m.connection_index
  pub active : Each (λ id ref. (ref ≡ id) × IsRequest m ref) m.active_requests
  pub indexed : Each (λ _ ref. IsRequest m ref) m.request_index
  pub indexed_once : AreOnce m.request_index
  pub lived : Each (λ _ ref. ref < m.fresh) m.request_life_cycle_index
  pub lived_once : AreOnce m.request_life_cycle_index

create_session-IsWellFormed :
    (socket : Socket) (m : Manager) → IsWellFormed m → IsWellFormed (create_session socket m).0
unfolding create_session
create_session-IsWellFormed socket m h =
    let m1 = (create_session socket m).0 in
    record {
      stored =
          Each-insert (λ _ ref. IsSession m1 ref) socket.id m.fresh m.context_store
            (ground (arith, nat_beq_iff m.fresh m.fresh))
            (λ id ref p. ground (arith, h.stored id ref p, nat_beq_iff m.fresh ref));
      stored_once =
          AreOnce-insert socket.id m.fresh m.context_store
            (λ id ref p. omega (arith, h.stored id ref p)) h.stored_once;
      connected =
          Each-insert (λ id ref. (ref ≡ id) × IsSession m1 ref) m.fresh m.fresh m.connection_index
            (ground (arith, nat_beq_iff m.fresh m.fresh))
            (λ id ref p. ground (arith, h.connected id ref p, nat_beq_iff m.fresh ref));
      active = λ id ref p. ground (arith, h.active id ref p);
      indexed = λ key ref p. ground (arith, h.indexed key ref p);
      indexed_once = h.indexed_once;
      lived = λ id ref p. ground (arith, h.lived id ref p);
      lived_once = h.lived_once;
    }

pub known :
    (socket : Socket) (m : Manager) (ref : Ref)
    → lookup socket.id m.context_store ≡ some ref
    → get_or_create_session_context socket m ≡ (m, ref)
unfolding get_or_create_session_context
known socket m ref e = ground arith

pub session-IsWellFormed :
    (socket : Socket) (m : Manager)
    → IsWellFormed m
    → IsWellFormed (get_or_create_session_context socket m).0
session-IsWellFormed socket m h = elim (Option-cases (lookup socket.id m.context_store)) [
  | inl e ↦ rw (created socket m e) (create_session-IsWellFormed socket m h)
  | inr (ref, e) ↦ rw (known socket m ref e) h
]

create_request-IsWellFormed :
    (session : SessionContext) (req : Option Incoming) (key : Option RequestKey) (m : Manager)
    → IsWellFormed m
    → IsWellFormed (create_request_context session req key m).0
unfolding create_request_context
create_request-IsWellFormed session req none m h =
    let m1 = (create_request_context session req none m).0 in
    record {
      stored = λ id ref p. ground (arith, h.stored id ref p);
      stored_once = h.stored_once;
      connected = λ id ref p. ground (arith, h.connected id ref p);
      active =
          Each-insert (λ id ref. (ref ≡ id) × IsRequest m1 ref) m.fresh m.fresh m.active_requests
            (ground (arith, nat_beq_iff m.fresh m.fresh))
            (λ id ref p. ground (arith, h.active id ref p, nat_beq_iff m.fresh ref));
      indexed = λ k ref p. ground (arith, h.indexed k ref p, nat_beq_iff m.fresh ref);
      indexed_once = h.indexed_once;
      lived = λ id ref p. ground (arith, h.lived id ref p);
      lived_once = h.lived_once;
    }
create_request-IsWellFormed session req (some key) m h =
    let m1 = (create_request_context session req (some key) m).0 in
    record {
      stored = λ id ref p. ground (arith, h.stored id ref p);
      stored_once = h.stored_once;
      connected = λ id ref p. ground (arith, h.connected id ref p);
      active =
          Each-insert (λ id ref. (ref ≡ id) × IsRequest m1 ref) m.fresh m.fresh m.active_requests
            (ground (arith, nat_beq_iff m.fresh m.fresh))
            (λ id ref p. ground (arith, h.active id ref p, nat_beq_iff m.fresh ref));
      indexed =
          Each-insert (λ _ ref. IsRequest m1 ref) key m.fresh m.request_index
            (ground (arith, nat_beq_iff m.fresh m.fresh))
            (λ k ref p. ground (arith, h.indexed k ref p, nat_beq_iff m.fresh ref));
      indexed_once =
          AreOnce-insert key m.fresh m.request_index (λ k ref p. omega (arith, h.indexed k ref p))
            h.indexed_once;
      lived = λ id ref p. ground (arith, h.lived id ref p);
      lived_once = h.lived_once;
    }

-- A request is made without a key, made with one, or found by it.
pub request_elim :
    (P : Manager × Ref → Type 0) (session : SessionContext) (req : Option Incoming)
    (stream_id : String) (m : Manager)
    → let key : RequestKey = (session.connection_id, stream_id) in
      P (create_request_context session req none m)
      → P (create_request_context session req (some key) m)
      → ((ref : Ref) → lookup key m.request_index ≡ some ref → P (m, ref))
      → P (get_or_create_request_context session req stream_id m)
unfolding get_or_create_request_context
request_elim P session req stream_id m unkeyed made found =
    let key : RequestKey = (session.connection_id, stream_id) in
    elim (Bool-cases (stream_id == "h1" && is_some req)) [
      | inl new ↦ rw new unkeyed
      | inr keyed ↦ elim (Option-cases (lookup key m.request_index)) [
        | inl e ↦ rw (keyed, e) made
        | inr (ref, e) ↦ rw (keyed, e) (found ref e)
      ]
    ]

pub request-IsWellFormed :
    (session : SessionContext) (req : Option Incoming) (stream_id : String) (m : Manager)
    → IsWellFormed m
    → IsWellFormed (get_or_create_request_context session req stream_id m).0
request-IsWellFormed session req stream_id m h =
    request_elim (λ r. IsWellFormed r.0) session req stream_id m
      (create_request-IsWellFormed session req none m h)
      (create_request-IsWellFormed session req (some (session.connection_id, stream_id)) m h)
      (λ _ _. h)

create_lifecycle-IsWellFormed :
    (now : ℕ) (id : Ref) (m : Manager) → IsWellFormed m → IsWellFormed (create_lifecycle now id m).0
unfolding create_lifecycle
create_lifecycle-IsWellFormed now id m h = record {
  stored = λ i ref p. ground (arith, h.stored i ref p);
  stored_once = h.stored_once;
  connected = λ i ref p. ground (arith, h.connected i ref p);
  active = λ i ref p. ground (arith, h.active i ref p);
  indexed = λ key ref p. ground (arith, h.indexed key ref p);
  indexed_once = h.indexed_once;
  lived =
      Each-insert (λ _ ref. ref < m.fresh + 1) id m.fresh m.request_life_cycle_index (omega arith)
        (λ i ref p. omega (arith, h.lived i ref p));
  lived_once =
      AreOnce-insert id m.fresh m.request_life_cycle_index
        (λ i ref p. omega (arith, h.lived i ref p)) h.lived_once;
}

pub made_lifecycle :
    (now : ℕ) (id : Ref) (m : Manager)
    → lookup id m.request_life_cycle_index ≡ none
    → get_or_create_request_lifecycle now id m ≡ create_lifecycle now id m
unfolding get_or_create_request_lifecycle
made_lifecycle now id m e = ground arith

pub lived_lifecycle :
    (now : ℕ) (id : Ref) (m : Manager) (ref : Ref)
    → lookup id m.request_life_cycle_index ≡ some ref
    → get_or_create_request_lifecycle now id m ≡ (m, ref)
unfolding get_or_create_request_lifecycle
lived_lifecycle now id m ref e = ground arith

pub lifecycle-IsWellFormed :
    (now : ℕ) (id : Ref) (m : Manager)
    → IsWellFormed m
    → IsWellFormed (get_or_create_request_lifecycle now id m).0
lifecycle-IsWellFormed now id m h = elim (Option-cases (lookup id m.request_life_cycle_index)) [
  | inl e ↦ rw (made_lifecycle now id m e) (create_lifecycle-IsWellFormed now id m h)
  | inr (ref, e) ↦ rw (lived_lifecycle now id m ref e) h
]

pub scope-IsWellFormed :
    (now : ℕ) (socket : Socket) (req : Option Incoming) (stream_id : String) (m : Manager)
    → IsWellFormed m
    → IsWellFormed (get_or_create_scope now socket req stream_id m).0
unfolding get_or_create_scope
scope-IsWellFormed now socket req stream_id m h =
    let (m1, session) = get_or_create_session_context socket m in
    let (m2, request) = get_or_create_request_context (m1.sessions session) req stream_id m1 in
    lifecycle-IsWellFormed now (m2.requests request).request_id m2 (
      request-IsWellFormed (m1.sessions session) req stream_id m1 (session-IsWellFormed socket m h))
