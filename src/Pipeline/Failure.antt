-- ===== src/Pipeline/Failure.antt =====
-- `handlePipelineFailure` and `handlePipelineAbort`. `now` is `Date.now()`.
pub mod Answers
use mitm_core.Prelude.{
  ℕ, String, Bool, true, false, ◌&&◌, ◌||◌, not, Option, none, some, List, [], ◌∷◌, if◌then◌else◌,
  or_else, ◌==◌, string_eq,
}
use mitm_core.Net.{Response, Socket, chars, end_with, destroy_response, end_socket, destroy_socket}
use mitm_core.Phase.{Phase, phase_eq}
use mitm_core.Signals.{Thrown, signal, error, object, primitive, PipelineAbortSignal}
use mitm_core.Scope.{
  RequestScope, FailureScope, FailureDisposition, PipelineAbortState, PipelineFailureState,
}
use mitm_core.Assign.{
  set_next_phase, set_abort, set_failure, set_res, set_web_socket, set_socket, report,
}

-- `message` of `handlePipelineFailure`.
failure_message : Thrown → String
failure_message (signal s) = s.message
failure_message (error message code) = message
failure_message (object message code shown) = or_else message shown
failure_message (primitive shown) = shown

failure_code : Thrown → Option String
failure_code (signal s) = none
failure_code (error message code) = code
failure_code (object message code shown) = code
failure_code (primitive shown) = none

-- `normalizedError`; `code ? { code } : {}` leaves an empty code out.
unfoldable pub normalize : Thrown → Thrown
unfolding failure_message failure_code
normalize (signal s) = signal s
normalize (error message code) = error message code
normalize (object message code shown) =
    error (or_else message shown)
      (elim code [ none ↦ none | some c ↦ if c == "" then none else some c ])
normalize (primitive shown) = error shown none

headers_were_sent : Option Response → Bool
headers_were_sent none = false
headers_were_sent (some res) = res.headers_sent

failure_scope : Phase → Option Response → FailureScope
unfolding headers_were_sent
failure_scope phase res =
    if phase == Phase.tcp || phase == Phase.handshake || headers_were_sent res
    then FailureScope.connection
    else FailureScope.request

-- The socket of an upgrade that is not completed is told of the failure, if it can be.
reject_upgrade : Socket → Socket
reject_upgrade ws =
    if not ws.destroyed && ws.writable
    then end_socket "HTTP/1.1 502 Bad Gateway\r\nConnection: close\r\n\r\n" ws
    else if not ws.destroyed
    then destroy_socket ws
    else ws

-- The 502 of a request that failed before its response began.
answer_502 : Response → Response
answer_502 res =
    if not res.headers_sent && not res.writable_ended
    then end_with (chars "Proxy Error: Plugin Failure") (record res { status_code = 502 })
    else res

-- The response is cut, or the connection where there is none to cut.
close_connection : RequestScope → RequestScope
close_connection s = elim s.request.client.res [
  | none ↦
      if not s.session.socket.destroyed then set_socket (destroy_socket s.session.socket) s else s
  | some res ↦
      if not res.destroyed
      then set_res (destroy_response res) s
      else if not s.session.socket.destroyed
      then set_socket (destroy_socket s.session.socket) s
      else s
]

answer_http : FailureScope → RequestScope → RequestScope
unfolding answer_502 close_connection
answer_http FailureScope.connection s = close_connection s
answer_http FailureScope.request s = elim s.request.client.res [
  | none ↦ s
  | some res ↦ set_res (answer_502 res) s
]

-- What the client is told of the failure.
answer_failure : FailureScope → RequestScope → RequestScope
unfolding answer_http reject_upgrade
answer_failure fs s = elim s.request.web_socket [
  | none ↦ answer_http fs s
  | some w ↦ elim w.raw_upgrade_socket [
    | none ↦ answer_http fs s
    | some ws ↦
        if w.is_upgraded
        then answer_http fs s
        else set_web_socket (record w { raw_upgrade_socket = some (reject_upgrade ws) }) s
  ]
]

unfoldable pub failure_state : ℕ → Thrown → Phase → Option Response → PipelineFailureState
unfolding failure_message failure_code failure_scope
failure_state now e phase res = record {
  message = failure_message e;
  phase = phase;
  failed_at = now;
  disposition = FailureDisposition.terminal;
  scope = failure_scope phase res;
  code = elim (failure_code e) [ none ↦ none | some c ↦ if c == "" then none else some c ];
  cause = some e;
}

unfoldable pub handle_pipeline_failure : ℕ → RequestScope → Thrown → Phase → RequestScope
unfolding failure_state normalize answer_failure
handle_pipeline_failure now s e phase = set_next_phase none (
    answer_failure (failure_scope phase s.request.client.res)
      (report (normalize e) (set_failure (failure_state now e phase s.request.client.res) s)))

-- `{ ...(signal.data ?? {}), message, phase, abortedAt }`.
unfoldable pub abort_state : ℕ → PipelineAbortSignal → Phase → PipelineAbortState
abort_state now s phase = record {
  message = s.message;
  reason = elim s.details [ none ↦ none | some d ↦ d.reason ];
  plugin = elim s.details [ none ↦ none | some d ↦ d.plugin ];
  event = elim s.details [ none ↦ none | some d ↦ d.event ];
  cause = elim s.details [ none ↦ none | some d ↦ d.cause ];
  phase = phase;
  aborted_at = now;
}

unfoldable pub handle_pipeline_abort : ℕ → RequestScope → PipelineAbortSignal → Phase → RequestScope
unfolding abort_state
handle_pipeline_abort now s sig phase =
    set_next_phase none (set_abort (abort_state now sig phase) s)

-- The `catch` of `run`: the signal is told from every other value.
unfoldable pub handle_thrown : ℕ → RequestScope → Thrown → Phase → RequestScope
unfolding handle_pipeline_failure handle_pipeline_abort
handle_thrown now s (signal sig) phase = handle_pipeline_abort now s sig phase
handle_thrown now s (error m c) phase = handle_pipeline_failure now s (error m c) phase
handle_thrown now s (object m c t) phase = handle_pipeline_failure now s (object m c t) phase
handle_thrown now s (primitive t) phase = handle_pipeline_failure now s (primitive t) phase
