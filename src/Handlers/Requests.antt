-- ===== src/Handlers/Requests.antt =====
-- How a request leaves its phase.
use mitm_core.Prelude.{
  ℕ, String, Bool, true, false, ◌≡◌, ◌≢◌, refl, ◌⊎◌, inl, inr, Option, none, some, arith, subst,
  sym, if◌then◌else◌,
}
use mitm_core.Net.{Response, IncomingMessage, ClientRequest}
use mitm_core.Phase.{Phase}
use mitm_core.Signals.{Thrown}
use mitm_core.Scope.{RequestScope, ExplicitHeaderOverrides}
use mitm_core.Url.{UrlLib, Url}
use mitm_core.Mutator.{apply_upstream_init_state}
use mitm_core.Transport.Upstream.{UpstreamOptions}
use mitm_core.Handlers.{
  after_made, make_upstream, send_or_refuse, handle_with, request_handle, is_h1,
}

abbrev pub HasThrown : RequestScope × Option Thrown → Type 0
HasThrown r = r.1 ≢ none

-- The response is ended with this status.
abbrev pub IsRefused : ℕ → Option Response → Type 0
IsRefused code none = ⊥
IsRefused code (some res) = (res.status_code ≡ code) × (res.writable_ended ≡ true)

enters_response :
    (s : RequestScope) (u : ClientRequest)
    → (apply_upstream_init_state s u).lifecycle.next_phase ≡ some Phase.response
unfolding apply_upstream_init_state
enters_response s u = refl

has_upstream :
    (s : RequestScope) (u : ClientRequest)
    → (apply_upstream_init_state s u).request.upstream.req ≢ none
unfolding apply_upstream_init_state
has_upstream s u = ground arith

module _ (lib : UrlLib) (globals : Option ExplicitHeaderOverrides)
    (make : UpstreamOptions → Thrown ⊎ ClientRequest)
    (emit_dispatch : RequestScope → RequestScope × Option Thrown) where
  -- What the handler leaves: an upstream request that the plugins were told of, with the phase
  -- `response` asked for; what was thrown; or a response that is ended with 400.
  abbrev pub Leaves : RequestScope × Option Thrown → Type 0
  Leaves r =
      ((t : RequestScope) × (t.lifecycle.next_phase ≡ some Phase.response)
        × (t.request.upstream.req ≢ none)
        × (r ≡ emit_dispatch t))
      ⊎ HasThrown r
      ⊎ IsRefused 400 r.0.request.client.res

  after_made-Leaves :
      (req : IncomingMessage) (s : RequestScope) (made : Thrown ⊎ ClientRequest)
      → Leaves (after_made lib globals make emit_dispatch req s made)
  unfolding after_made
  after_made-Leaves req s (inl e) = inr (inl (ground arith))
  after_made-Leaves req s (inr u) =
      inl (apply_upstream_init_state s u, enters_response s u, has_upstream s u, refl)

  make_upstream-Leaves :
      (now : ℕ) (req : IncomingMessage) (s : RequestScope) (options : Option UpstreamOptions)
      → Leaves (make_upstream lib globals make emit_dispatch now req s options)
  unfolding make_upstream
  make_upstream-Leaves now req s none = inr (inl (ground arith))
  make_upstream-Leaves now req s (some o) = after_made-Leaves req _ (make o)

  send_or_refuse-Leaves :
      (now : ℕ) (body : String) (req : IncomingMessage) (s : RequestScope) (res : Response)
      (url : Option Url)
      → s.request.client.res ≡ some res
      → res.writable_ended ≡ false
      → Leaves (send_or_refuse lib globals make emit_dispatch now body req s url)
  unfolding send_or_refuse
  send_or_refuse-Leaves now body req s res (some url) has open_ = make_upstream-Leaves now req s _
  send_or_refuse-Leaves now body req s res none has open_ = inr (inr (ground arith))

  either-Leaves :
      (test : Bool) (p q : RequestScope × Option Thrown)
      → Leaves p
      → Leaves q
      → Leaves (if test then p else q)
  either-Leaves true p q h k = h
  either-Leaves false p q h k = k

  handle_with-Leaves :
      (now : ℕ) (s : RequestScope) (req : IncomingMessage) (res : Response)
      → s.request.client.res ≡ some res
      → res.writable_ended ≡ false
      → Leaves (handle_with lib globals make emit_dispatch now s (some req) (some res))
  unfolding handle_with
  handle_with-Leaves now s req res has open_ =
      either-Leaves (is_h1 s) _ _ (send_or_refuse-Leaves now _ req s res _ has open_)
        (send_or_refuse-Leaves now _ req s res _ has open_)

  -- A request with a response that is not ended leaves its phase in one of three ways, whatever its
  -- HTTP version: with an upstream request that the plugins are told of, and the phase `response`
  -- asked for; with an error that is thrown; or with its response ended as 400.
  pub request_handle-Leaves :
      (now : ℕ) (s : RequestScope) (req : IncomingMessage) (res : Response)
      → s.request.client.req ≡ some req
      → s.request.client.res ≡ some res
      → res.writable_ended ≡ false
      → Leaves (request_handle lib globals make emit_dispatch now s)
  unfolding request_handle
  request_handle-Leaves now s req res has_req has_res open_ =
      subst (λ q. Leaves (handle_with lib globals make emit_dispatch now s q s.request.client.res))
        (sym has_req)
        (subst (λ r. Leaves (handle_with lib globals make emit_dispatch now s (some req) r))
          (sym has_res) (handle_with-Leaves now s req res has_res open_))
