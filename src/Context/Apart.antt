-- ===== src/Context/Apart.antt =====
-- The scopes of two sockets share nothing, whatever happens to the context manager in between.
use mitm_core.Prelude.{
  ℕ, String, ◌≢◌, sym, ◌∙◌, Option, arith, inl, inr, nat_eq, string_eq, pair_eq,
}
use mitm_core.Net.{Ref, Socket}
use mitm_core.Context.Manager.{Manager, get_or_create_session_context}
use mitm_core.Context.Request.{Incoming, ScopeRefs, get_or_create_scope}
use mitm_core.Context.WellFormed.{IsWellFormed, session-IsWellFormed, scope-IsWellFormed}
use mitm_core.Context.Owned.{IsOwned, session-IsOwned, scope-IsOwned}
use mitm_core.Context.Steps.{IsNew, Steps, steps-IsWellFormed, steps-IsOwned, kept-IsWellFormed}
use mitm_core.Context.Found.{scope-IsScopeOf, request_cases, session_found}

abbrev pub AreApart : ScopeRefs → ScopeRefs → Type 0
AreApart a b = (a.session ≢ b.session) × (a.request ≢ b.request) × (a.lifecycle ≢ b.lifecycle)

-- The request of another session is not the one that is owned.
request_apart :
    (now : ℕ) (socket : Socket) (req : Option Incoming) (stream_id : String) (m : Manager)
    (id : Ref) (a : ScopeRefs)
    → IsWellFormed m
    → IsOwned id a m
    → let b = (get_or_create_scope now socket req stream_id m).1 in
      a.session ≢ b.session → a.request ≢ b.request
unfolding get_or_create_scope
request_apart now socket req stream_id m id a h o apart same =
    let (m1, session) = get_or_create_session_context socket m in
    let s = m1.sessions session in
    let o1 = session-IsOwned id a socket m o in
    let h1 = session-IsWellFormed socket m h in
    let (_, connection) = h1.stored socket.id session (session_found socket m) in
    elim (request_cases s req stream_id m1) [
      | inl new ↦ omega (arith, o1.made, new, same)
      | inr found ↦
          apart (sym (o1.indexed (s.connection_id, stream_id) _ found (sym same)) ∙ connection)
    ]

scope_apart :
    (now : ℕ) (socket : Socket) (req : Option Incoming) (stream_id : String) (m : Manager)
    (id : Ref) (a : ScopeRefs)
    → IsWellFormed m
    → IsOwned id a m
    → id ≢ socket.id
    → AreApart a (get_or_create_scope now socket req stream_id m).1
scope_apart now socket req stream_id m id a h o other =
    let b = (get_or_create_scope now socket req stream_id m).1 in
    let found = scope-IsScopeOf now socket req stream_id m h in
    let o2 = scope-IsOwned id a now socket req stream_id m o in
    let sessions : a.session ≢ b.session =
      λ same. other (sym (o2.stored socket.id b.session found.at_socket (sym same))) in
    let requests = request_apart now socket req stream_id m id a h o sessions in
    (
      sessions,
      requests,
      λ same. requests (sym (o2.lived b.request b.lifecycle found.at_request (sym same))),
    )

-- From a new manager on, the scope that it hands out for one socket, and the one that it hands out
-- later for another, whatever steps come before and in between, have no session, request or
-- lifecycle in common.
pub scopes_apart :
    {m k l : Manager} (now later_now : ℕ) (socket other : Socket) (req other_req : Option Incoming)
    (stream_id other_id : String)
    → IsNew m
    → Steps m k
    → Steps (get_or_create_scope now socket req stream_id k).0 l
    → socket.id ≢ other.id
    → AreApart
        (get_or_create_scope now socket req stream_id k).1
        (get_or_create_scope later_now other other_req other_id l).1
scopes_apart {k = k} {l = l} now later_now socket other req other_req stream_id other_id n before
      after differ =
    let h = steps-IsWellFormed n before in
    let a = (get_or_create_scope now socket req stream_id k).1 in
    let found = scope-IsScopeOf now socket req stream_id k h in
    scope_apart later_now other other_req other_id l socket.id a
      (kept-IsWellFormed after (scope-IsWellFormed now socket req stream_id k h))
      (steps-IsOwned socket.id a after found.owned) differ
