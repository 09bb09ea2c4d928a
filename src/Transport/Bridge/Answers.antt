-- ===== src/Transport/Bridge/Answers.antt =====
-- What the client gets when the upstream request fails.
use mitm_core.Prelude.{
  ◌==◌, string_eq, ℕ, true, false, ◌||◌, ◌≡◌, ◌⊎◌, none, some, [], ◌∷◌, ◌++◌, arith, if◌then◌else◌,
  eq_iff, string_eq, nat_eq,
}
use mitm_core.Prelude.Assoc.{lookup, lookup-remove_self}
use mitm_core.Net.{Response}
use mitm_core.Signals.{Thrown}
use mitm_core.Context.Request.{destroy_request_lifecycle}
use mitm_core.Mutator.{fail_pipeline}
use mitm_core.Cache.Store.{Lru}
use mitm_core.Transport.Dispatch.{code_of}
use mitm_core.Pipeline.Failure.Answers.{IsOver, HasEnded}
use mitm_core.Transport.Errors.{
  answer_upstream_error, is_client_disconnected, is_expected_drop, upstream_failure,
}
use mitm_core.Transport.Bridge.{Bridge, end_failed, rejected}

-- The answer to an upstream error always ends or destroys the response. Where nothing was sent yet
-- and the response is not ended, a timeout is answered by 504, the loss of the client by closing the
-- response, and any other error by 502; a response that has begun is cut.
pub answer_upstream_error_lem :
    (e : Thrown) (res : Response)
    → IsOver (answer_upstream_error e res)
      × ((res.destroyed ≡ true)
          ⊎ (((res.headers_sent || res.writable_ended) ≡ true)
              × ((answer_upstream_error e res).destroyed ≡ true))
          ⊎ (((res.headers_sent || res.writable_ended) ≡ false)
              × (code_of e ≡ "ERR_UPSTREAM_TIMEOUT")
              × ((answer_upstream_error e res).status_code ≡ 504))
          ⊎ (((res.headers_sent || res.writable_ended) ≡ false)
              × ((code_of e == "ERR_UPSTREAM_TIMEOUT") ≡ false)
              × (is_client_disconnected e ≡ true)
              × ((answer_upstream_error e res).destroyed ≡ true))
          ⊎ (((res.headers_sent || res.writable_ended) ≡ false)
              × ((code_of e == "ERR_UPSTREAM_TIMEOUT") ≡ false)
              × (is_client_disconnected e ≡ false)
              × ((answer_upstream_error e res).status_code ≡ 502)))
unfolding answer_upstream_error
answer_upstream_error_lem e res = ground (arith, eq_iff (code_of e) "ERR_UPSTREAM_TIMEOUT")

module _ (lru : Lru) where
  -- The callback of an upstream error, once the plugins were told and let it go on: the response of
  -- the client, if there is one, is ended or destroyed, the upstream request is destroyed, the
  -- request is over and not active, the promise is rejected with the error, and the failure is
  -- recorded, unless the client or the upstream only closed its connection.
  pub end_failed_lem :
      (now : ℕ) (e : Thrown) (b : Bridge lru)
      → let c = end_failed lru now e b in
        ((b.work.scope.request.client.res ≡ none) ⊎ HasEnded c.work.scope.request.client.res)
        × (c.work.upstream_req.destroyed ≡ true)
        × (c.work.scope.lifecycle.next_phase ≡ none)
        × (lookup b.work.scope.request.request_id c.work.manager.active_requests ≡ none)
        × (c.calls ≡ b.calls ++ rejected e ∷ [])
        × (c.work.scope.lifecycle.failure ≡ (
            if is_expected_drop e || is_client_disconnected e
            then b.work.scope.lifecycle.failure
            else some (upstream_failure now e)))
  unfolding end_failed fail_pipeline destroy_request_lifecycle
  end_failed_lem now e b =
      ground
        (arith, lookup-remove_self b.work.scope.request.request_id b.work.manager.active_requests)
