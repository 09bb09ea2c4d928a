-- ===== src/Context/KeepAlive.antt =====
-- The second request on a kept-alive connection. The server's handlers ask for the scope of the
-- socket alone, without the request, so the key of the connection finds the first one's context.
use mitm_core.Prelude.{
  ℕ, ◌≡◌, ap, ◌∙◌, inl, inr, none, some, arith, nat_eq, string_eq, pair_eq, Option-cases,
}
use mitm_core.Prelude.Assoc.{lookup, lookup-insert_self, lookup-remove_self}
use mitm_core.Net.{Ref, Socket}
use mitm_core.Context.Manager.{Manager, RequestKey, get_or_create_session_context}
use mitm_core.Context.Request.{
  get_or_create_scope, destroy_request_lifecycle, get_or_create_request_context,
  create_request_context, get_or_create_request_lifecycle,
}

-- The maps lead from the socket to this session, and from its connection to this request.
abbrev Finds : Socket → Manager → Ref → Ref → Type 0
Finds socket m session request =
    let key : RequestKey = ((m.sessions session).connection_id, "h1") in
    (lookup socket.id m.context_store ≡ some session) × (lookup key m.request_index ≡ some request)

session_found :
    (socket : Socket) (m : Manager)
    → let (m', ref) = get_or_create_session_context socket m in
      lookup socket.id m'.context_store ≡ some ref
unfolding get_or_create_session_context
session_found socket m = elim (Option-cases (lookup socket.id m.context_store)) [
  | inl e ↦ ground (arith, lookup-insert_self socket.id m.fresh m.context_store)
  | inr (ref, e) ↦ ground arith
]

request_found :
    (socket : Socket) (session : Ref) (m : Manager)
    → lookup socket.id m.context_store ≡ some session
    → let (m', ref) = get_or_create_request_context (m.sessions session) none "h1" m in
      Finds socket m' session ref
unfolding get_or_create_request_context create_request_context
request_found socket session m e =
    let key : RequestKey = ((m.sessions session).connection_id, "h1") in
    elim (Option-cases (lookup key m.request_index)) [
      | inl n ↦ ground (arith, lookup-insert_self key m.fresh m.request_index)
      | inr (ref, s) ↦ ground arith
    ]

lifecycle_keeps :
    (now : ℕ) (id : Ref) (socket : Socket) (session request : Ref) (m : Manager)
    → Finds socket m session request
    → let m' = (get_or_create_request_lifecycle now id m).0 in
      Finds socket m' session request
      × (m'.active_requests ≡ m.active_requests)
      × (m'.requests ≡ m.requests)
unfolding get_or_create_request_lifecycle
lifecycle_keeps now id socket session request m f = ground arith

scope_found :
    (now : ℕ) (socket : Socket) (m : Manager)
    → let (m', refs) = get_or_create_scope now socket none "h1" m in
      Finds socket m' refs.session refs.request
unfolding get_or_create_scope
scope_found now socket m =
    let (m1, session) = get_or_create_session_context socket m in
    let (m2, request) = get_or_create_request_context (m1.sessions session) none "h1" m1 in
    (lifecycle_keeps now (m2.requests request).request_id socket session request m2
      (request_found socket session m1 (session_found socket m))).0

scope_again :
    (now : ℕ) (socket : Socket) (session request : Ref) (m : Manager)
    → Finds socket m session request
    → let (m', refs) = get_or_create_scope now socket none "h1" m in
      (refs.session ≡ session) × (refs.request ≡ request) × (m'.active_requests ≡ m.active_requests)
unfolding get_or_create_scope get_or_create_session_context get_or_create_request_context
    get_or_create_request_lifecycle
scope_again now socket session request m f = ground arith

-- Two requests on one connection: the scope of the second names the request context of the first,
-- and once the first's lifecycle is destroyed, which its response's `close` does, the second request
-- is not among the active ones, so a shutdown does not wait for it.
pub reused_request_inactive :
    (now later : ℕ) (socket : Socket) (m : Manager)
    → let (m1, first) = get_or_create_scope now socket none "h1" m in
      let id = (m1.requests first.request).request_id in
      let (m2, second) =
        get_or_create_scope later socket none "h1" (destroy_request_lifecycle id m1) in
      (second.session ≡ first.session)
      × (second.request ≡ first.request)
      × (lookup id m2.active_requests ≡ none)
unfolding destroy_request_lifecycle
reused_request_inactive now later socket m =
    let (m1, first) = get_or_create_scope now socket none "h1" m in
    let id = (m1.requests first.request).request_id in
    let f = scope_found now socket m in
    let (s, r, a) =
      scope_again later socket first.session first.request (destroy_request_lifecycle id m1) f in
    (s, r, ap (lookup id) a ∙ lookup-remove_self id m1.active_requests)
