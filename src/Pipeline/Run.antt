-- ===== src/Pipeline/Run.antt =====
-- `Pipeline.run`: one phase after the other, at most `MAX_JUMPS` of them. A handler's call is a
-- function of the scope: it returns the scope as the awaited call leaves it, and what it threw, if
-- it did. `now` is `Date.now()`.
pub mod Order
pub mod Stops
pub mod Loops
use Prim.Native.String.{◌++◌}
use mitm_core.Prelude.{
  ℕ, zero, suc, String, Bool, true, false, ◌||◌, Option, none, some, List, [], ◌∷◌, if◌then◌else◌,
  is_some, or_else,
}
use mitm_core.Net.{Response, text, json, write_head, end_with, destroy_response, destroy_socket}
use mitm_core.Phase.{Phase}
use mitm_core.Signals.{Thrown}
use mitm_core.Scope.{
  RequestScope, RequestLifecycle, FailureScope, FailureDisposition, PipelineFailureState,
}
use mitm_core.Assign.{set_next_phase, set_failure, set_res, set_socket}
use mitm_core.Pipeline.Failure.{handle_thrown}

-- `BaseHandler`.
pub record Handler : Type 0 where
  pub name : String
  pub phase : Phase
  pub handle : RequestScope → RequestScope × Option Thrown

-- `Record<Phase, BaseHandler[]>`.
pub record Pipelines : Type 0 where
  pub tcp : List Handler
  pub handshake : List Handler
  pub request : List Handler
  pub response : List Handler

abbrev pub steps_of : Pipelines → Phase → List Handler
steps_of p Phase.tcp = p.tcp
steps_of p Phase.handshake = p.handshake
steps_of p Phase.request = p.request
steps_of p Phase.response = p.response

abbrev pub max_jumps : ℕ
max_jumps = 10

-- `lifecycle.abort || lifecycle.failure || lifecycle.isHijacked`.
abbrev pub is_halted : RequestLifecycle → Bool
is_halted l = is_some l.abort || is_some l.failure || l.is_hijacked

loop_message : RequestScope → String
loop_message s =
    "The proxy engine encountered an infinite routing loop processing: "
    ++ or_else s.request.target.original_host "unknown-host"

-- The 508, or the end of the connection where it cannot be written.
answer_508 : RequestScope → Response → RequestScope
unfolding loop_message
answer_508 s res =
    if res.headers_sent
    then set_res (destroy_response res) s
    else elim (write_head 508
        (("Content-Type", text "application/json") ∷ ("Connection", text "close") ∷ []) res) [
          | none ↦ set_socket (destroy_socket s.session.socket) s
          | some res' ↦
              set_res
                (end_with
                  (json (("error", "Loop Detected") ∷ ("message", loop_message s) ∷ [])
                    (some s.request.request_id))
                  res')
                s
        ]

unfoldable pub loop_failure : ℕ → Phase → PipelineFailureState
loop_failure now phase = record {
  message = "Infinite pipeline phase loop detected";
  phase = phase;
  failed_at = now;
  disposition = FailureDisposition.terminal;
  scope = FailureScope.connection;
  code = none;
  cause = none;
}

-- What happens when the loop would start an eleventh phase.
unfoldable pub stop_loop : ℕ → Phase → RequestScope → RequestScope
unfolding answer_508 loop_failure
stop_loop now phase s =
    let stopped = set_next_phase none (set_failure (loop_failure now phase) s) in
    elim s.request.client.res [
      | none ↦ set_socket (destroy_socket s.session.socket) stopped
      | some res ↦ answer_508 stopped res
    ]

-- How the `for` over the steps of a phase ends: the loop over the phases goes on, or `run` is left.
pub data Steps : Type 0 where
  completed : RequestScope → Steps
  left : RequestScope → Steps

module _ (now : ℕ) where
  after_step : Phase → (RequestScope → Steps) → RequestScope × Option Thrown → Steps
  after_step phase rest (s, some e) = left (handle_thrown now s e phase)
  after_step phase rest (s, none) =
      if s.lifecycle.is_hijacked then left (set_next_phase none s) else rest s

  unfoldable pub run_steps : Phase → List Handler → RequestScope → Steps
  unfolding after_step
  run_steps phase [] s = completed s
  run_steps phase (h ∷ hs) s = after_step phase (run_steps phase hs) (h.handle s)

  -- A phase with no handlers ends the run.
  unfoldable pub run_phase : Phase → List Handler → RequestScope → Steps
  run_phase phase [] s = left s
  run_phase phase (h ∷ hs) s = run_steps phase (h ∷ hs) s

  after_phase : (RequestScope → RequestScope) → Steps → RequestScope
  after_phase again (completed s) = again s
  after_phase again (left s) = s

  -- The test of `while`, and the check at the head of its body.
  with_phase : RequestScope → (Phase → RequestScope) → RequestScope
  with_phase s body = elim s.lifecycle.next_phase [
    | none ↦ s
    | some phase ↦ if is_halted s.lifecycle then set_next_phase none s else body phase
  ]

  module _ (pipelines : Pipelines) where
    -- The `while`; the number counts the jumps that are left, `MAX_JUMPS - executionJumps`.
    unfoldable pub loop : ℕ → RequestScope → RequestScope
    unfolding with_phase after_phase
    loop zero s = with_phase s (λ phase. stop_loop now phase s)
    loop (suc jumps) s = with_phase s (λ phase.
        after_phase (loop jumps)
          (run_phase phase (steps_of pipelines phase) (set_next_phase none s)))

    module _ (ws_bridge : RequestScope → RequestScope × Option Thrown) where
      after_bridge : RequestScope × Option Thrown → RequestScope
      after_bridge (s, none) = s
      after_bridge (s, some e) = handle_thrown now s e Phase.request

      -- `Pipeline.run`; `ws_bridge` is `WSOutboundBridge.execute`.
      unfoldable pub run : RequestScope → RequestScope
      unfolding after_bridge with_phase
      run s = with_phase s λ _. elim s.request.web_socket [
        | none ↦ loop max_jumps s
        | some w ↦
            if w.is_upgraded
            then loop max_jumps s
            else after_bridge (ws_bridge (set_next_phase none s))
      ]
