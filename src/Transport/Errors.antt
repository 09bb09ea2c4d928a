-- ===== src/Transport/Errors.antt =====
-- core/transport/http1/H1OutboundBridge.ts: the kinds of errors of an upstream request, and what the
-- client is answered.
use mitm_core.Prelude.{
  ℕ, String, Bool, not, ◌&&◌, ◌||◌, none, some, [], ◌∷◌, if◌then◌else◌, ◌==◌, string_eq,
}
use mitm_core.Net.{Response, text, json, chars, respond, destroy_response}
use mitm_core.Phase.{Phase}
use mitm_core.Signals.{Thrown, signal, error, object, primitive}
use mitm_core.Scope.{PipelineFailureState, FailureDisposition, FailureScope}
use mitm_core.Transport.Dispatch.{code_of}

-- `err instanceof Error ? err.message : String(err)`.
unfoldable pub error_message : Thrown → String
error_message (signal s) = s.message
error_message (error message code) = message
error_message (object message code shown) = shown
error_message (primitive shown) = shown

unfoldable pub is_client_disconnected : Thrown → Bool
unfolding error_message
is_client_disconnected e =
    code_of e == "ERR_CLIENT_DISCONNECTED" || error_message e == "ERR_CLIENT_DISCONNECTED"

unfoldable pub is_expected_drop : Thrown → Bool
is_expected_drop e = code_of e == "ECONNRESET" || code_of e == "ERR_STREAM_PREMATURE_CLOSE"

unfoldable pub upstream_failure : ℕ → Thrown → PipelineFailureState
unfolding error_message
upstream_failure now e = record {
  message = error_message e;
  phase = Phase.request;
  failed_at = now;
  disposition = FailureDisposition.terminal;
  scope = FailureScope.request;
  code = if code_of e == "" then none else some (code_of e);
  cause = some e;
}

-- What the client gets when the upstream fails.
unfoldable pub answer_upstream_error : Thrown → Response → Response
unfolding is_client_disconnected
answer_upstream_error e res =
    if res.destroyed
    then res
    else if not res.headers_sent && not res.writable_ended
    then if code_of e == "ERR_UPSTREAM_TIMEOUT"
      then respond 504
          (("Content-Type", text "application/json")
            ∷ ("Content-Length", text "56")
            ∷ ("Connection", text "close")
            ∷ [])
          (json (("error", "Gateway Timeout: Upstream failed to respond.") ∷ []) none) res
      else if is_client_disconnected e
      then destroy_response res
      else respond 502
          (("Content-Type", text "text/plain")
            ∷ ("Content-Length", text "46")
            ∷ ("Connection", text "close")
            ∷ [])
          (chars "Bad Gateway: Remote target connection dropped.") res
    else destroy_response res

-- What the client gets when the handling of a response fails.
unfoldable pub answer_relay_error : Response → Response
answer_relay_error res =
    if res.destroyed || res.writable_ended
    then res
    else if res.headers_sent
    then destroy_response res
    else respond 502 (("Connection", text "close") ∷ [])
        (chars "Bad Gateway: Proxy response handling failed.") res
