-- ===== src/Context/Active.antt =====
-- The requests that are active: what makes one, and what ends it.
use mitm_core.Prelude.{
  true, ◌≡◌, refl, Option, none, some, [], ◌∷◌, ◌==◌, WhenSome, arith, nat_eq, nat_beq_iff,
  string_eq, pair_eq, if◌then◌else◌, All, update,
}
use mitm_core.Prelude.Assoc.{Assoc, lookup, insert, lookup-insert, lookup-remove}
use mitm_core.Net.{Ref, Response, ClientRequest, IncomingMessage}
use mitm_core.Scope.{SessionContext, RequestContext}
use mitm_core.Context.Manager.{Manager, RequestKey}
use mitm_core.Context.Request.{
  Incoming, create_request_context, get_active_requests, destroy_active_requests,
  destroy_request_lifecycle, destroy_each, destroy_resources,
}

-- A request context is active from the moment it is made, under its own request id, and the other
-- requests stay as active as they were; `destroyRequestLifecycle` ends that request, its lifecycle
-- too, and no other.
pub active_until_destroyed :
    (session : SessionContext) (req : Option Incoming) (key : Option RequestKey) (m : Manager)
    (id : Ref)
    → let (m', ref) = create_request_context session req key m in
      (lookup id m'.active_requests ≡ (if ref == id then some ref else lookup id m.active_requests))
      × ((m'.requests ref).request_id ≡ ref)
      × (lookup id (destroy_request_lifecycle ref m').active_requests
          ≡ (if ref == id then none else lookup id m.active_requests))
      × (lookup id (destroy_request_lifecycle ref m').request_life_cycle_index
          ≡ (if ref == id then none else lookup id m.request_life_cycle_index))
unfolding create_request_context destroy_request_lifecycle
active_until_destroyed session req none m id = ground (
  arith,
  nat_beq_iff m.fresh m.fresh,
  lookup-insert m.fresh id m.fresh m.active_requests,
  lookup-remove m.fresh id (insert m.fresh m.fresh m.active_requests),
  lookup-remove m.fresh id m.request_life_cycle_index,
)
active_until_destroyed session req (some key) m id = ground (
  arith,
  nat_beq_iff m.fresh m.fresh,
  lookup-insert m.fresh id m.fresh m.active_requests,
  lookup-remove m.fresh id (insert m.fresh m.fresh m.active_requests),
  lookup-remove m.fresh id m.request_life_cycle_index,
)

-- No connection to the upstream or response to the client is left open.
abbrev pub AreDestroyed : RequestContext → Type 0
AreDestroyed r =
    WhenSome (λ (q : ClientRequest). q.destroyed ≡ true) r.upstream.req
    × WhenSome (λ (q : IncomingMessage). q.destroyed ≡ true) r.upstream.res
    × WhenSome (λ (q : Response). q.destroyed ≡ true) r.client.res

destroy_resources-AreDestroyed : (r : RequestContext) → AreDestroyed (destroy_resources r)
unfolding destroy_resources
destroy_resources-AreDestroyed r = ground arith

update-AreDestroyed :
    (ref r : Ref) (heap : Ref → RequestContext)
    → AreDestroyed (heap ref)
    → AreDestroyed (update r (destroy_resources (heap r)) heap ref)
update-AreDestroyed ref r heap d = ground (arith, destroy_resources-AreDestroyed (heap r))

update-AreDestroyed_self :
    (r : Ref) (heap : Ref → RequestContext)
    → AreDestroyed (update r (destroy_resources (heap r)) heap r)
update-AreDestroyed_self r heap =
    ground (arith, nat_beq_iff r r, destroy_resources-AreDestroyed (heap r))

destroy_each-AreDestroyed_kept :
    (ref : Ref) (l : Assoc Ref Ref) (heap : Ref → RequestContext)
    → AreDestroyed (heap ref)
    → AreDestroyed (destroy_each l heap ref)
unfolding destroy_each
destroy_each-AreDestroyed_kept ref [] heap d = d
destroy_each-AreDestroyed_kept ref ((id, r) ∷ l) heap d =
    destroy_each-AreDestroyed_kept ref l _ (update-AreDestroyed ref r heap d)

destroy_each-AreDestroyed :
    (l : Assoc Ref Ref) (heap : Ref → RequestContext)
    → All (λ entry. AreDestroyed (destroy_each l heap entry.1)) l
unfolding destroy_each
destroy_each-AreDestroyed [] heap = tt
destroy_each-AreDestroyed ((id, r) ∷ l) heap = (
  destroy_each-AreDestroyed_kept r l _ (update-AreDestroyed_self r heap),
  destroy_each-AreDestroyed l _,
)

-- Forced shutdown: the upstream request, the upstream response and the client's response of every
-- request that was active are destroyed, and no request, lifecycle or request key is left.
pub destroy_active_requests_lem :
    (m : Manager)
    → All (λ entry. AreDestroyed ((destroy_active_requests m).requests entry.1)) m.active_requests
      × (get_active_requests (destroy_active_requests m) ≡ [])
      × ((destroy_active_requests m).request_life_cycle_index ≡ [])
      × ((destroy_active_requests m).request_index ≡ [])
unfolding destroy_active_requests get_active_requests
destroy_active_requests_lem m =
    (destroy_each-AreDestroyed m.active_requests m.requests, refl, refl, refl)
