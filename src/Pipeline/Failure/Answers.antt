-- ===== src/Pipeline/Failure/Answers.antt =====
-- What the client sees of a failed or aborted pipeline.
use mitm_core.Prelude.{
  ℕ, true, false, ◌≡◌, ◌≢◌, refl, ◌⊎◌, inl, inr, Option, none, some, [], ◌∷◌, ◌++◌, arith,
}
use mitm_core.Net.{Response, Socket, chars}
use mitm_core.Phase.{Phase}
use mitm_core.Signals.{Thrown, signal, error, object, primitive, PipelineAbortSignal}
use mitm_core.Scope.{RequestScope, WebSocketContext, FailureScope}
use mitm_core.Pipeline.Failure.{
  handle_pipeline_failure, handle_thrown, failure_state, abort_state, normalize,
}

-- The response is over: ended, or cut.
abbrev pub IsOver : Response → Type 0
IsOver res = (res.writable_ended ≡ true) ⊎ (res.destroyed ≡ true)

-- A WebSocket upgrade that waits for its answer on a raw socket.
abbrev pub IsPendingUpgrade : Option WebSocketContext → Type 0
IsPendingUpgrade none = ⊥
IsPendingUpgrade (some w) = (w.is_upgraded ≡ false) × (w.raw_upgrade_socket ≢ none)

abbrev pub HasEnded : Option Response → Type 0
HasEnded none = ⊥
HasEnded (some res) = IsOver res

abbrev pub IsClosed : Socket → Type 0
IsClosed k = (k.writable ≡ false) ⊎ (k.destroyed ≡ true)

abbrev pub UpgradeIsClosed : Option WebSocketContext → Type 0
UpgradeIsClosed none = ⊥
UpgradeIsClosed (some w) = elim w.raw_upgrade_socket [ none ↦ ⊥ | some k ↦ IsClosed k ]

-- After a failure of a request that is no WebSocket upgrade and has a response object, the response
-- is ended or destroyed, whatever its state and the phase were: the client is not left waiting.
pub failure_ends_response :
    (now : ℕ) (s : RequestScope) (e : Thrown) (phase : Phase) (res : Response)
    → s.request.web_socket ≡ none
    → s.request.client.res ≡ some res
    → HasEnded (handle_pipeline_failure now s e phase).request.client.res
unfolding handle_pipeline_failure
failure_ends_response now s e phase res plain has_res = ground arith

-- After a failure of a WebSocket upgrade that is not completed, its raw socket is closed for
-- writing or destroyed, and the client's side of the request is as it was.
pub failure_closes_upgrade :
    (now : ℕ) (s : RequestScope) (e : Thrown) (phase : Phase)
    → IsPendingUpgrade s.request.web_socket
    → UpgradeIsClosed (handle_pipeline_failure now s e phase).request.web_socket
      × ((handle_pipeline_failure now s e phase).request.client ≡ s.request.client)
unfolding handle_pipeline_failure
failure_closes_upgrade now s e phase pending = ground arith

-- In the phases `request` and `response`, while the response is neither begun nor ended, a failure
-- is answered by a 502 with the text of the source, and the connection is left alone; the failure
-- is recorded with the phase, the time and the scope "request".
pub failure_before_headers :
    (now : ℕ) (s : RequestScope) (e : Thrown) (phase : Phase) (res : Response)
    → s.request.web_socket ≡ none
    → s.request.client.res ≡ some res
    → (phase ≡ Phase.request) ⊎ (phase ≡ Phase.response)
    → res.headers_sent ≡ false
    → res.writable_ended ≡ false
    → let after = handle_pipeline_failure now s e phase in
      (after.request.client.res
        ≡ some (record res {
          status_code = 502;
          body = some (chars "Proxy Error: Plugin Failure");
          headers_sent = true;
          writable_ended = true;
        }))
      × (after.session ≡ s.session)
      × (after.lifecycle.failure ≡ some (failure_state now e phase (some res)))
      × ((failure_state now e phase (some res)).scope ≡ FailureScope.request)
      × (after.lifecycle.next_phase ≡ none)
unfolding handle_pipeline_failure
failure_before_headers now s e phase res plain has_res where_ unsent open_ = ground arith

-- Whatever a handler throws, nothing is left to run, and what is recorded depends on the kind: the
-- signal is recorded as an abort and leaves the response, the sockets and the error listeners alone;
-- any other value is recorded as a failure, and the error listeners are told of it once.
pub thrown_recorded :
    (now : ℕ) (s : RequestScope) (e : Thrown) (phase : Phase)
    → let after = handle_thrown now s e phase in
      (after.lifecycle.next_phase ≡ none)
      × (((sig : PipelineAbortSignal) × (e ≡ signal sig)
            × (after.lifecycle.abort ≡ some (abort_state now sig phase))
            × (after.lifecycle.failure ≡ s.lifecycle.failure)
            × (after.request ≡ s.request)
            × (after.session ≡ s.session)
            × (after.reported ≡ s.reported))
          ⊎ ((after.lifecycle.failure ≡ some (failure_state now e phase s.request.client.res))
              × (after.lifecycle.abort ≡ s.lifecycle.abort)
              × (after.reported ≡ s.reported ++ normalize e ∷ [])))
unfolding handle_thrown
thrown_recorded now s (signal sig) phase = (refl, inl (sig, refl, refl, refl, refl, refl, refl))
thrown_recorded now s (error m c) phase = (refl, inr (ground arith))
thrown_recorded now s (object m c t) phase = (refl, inr (ground arith))
thrown_recorded now s (primitive t) phase = (refl, inr (ground arith))
