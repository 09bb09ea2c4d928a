-- ===== src/Tests/Pipelines.antt =====
-- The pipeline at concrete scopes and handlers.
use mitm_core.Prelude.{◌≡◌, refl, true, Option, none, some, [], ◌∷◌, inl, arith}
use mitm_core.Net.{chars}
use mitm_core.Phase.{Phase, phase_eq}
use mitm_core.Signals.{Thrown}
use mitm_core.Scope.{RequestScope, FailureScope}
use mitm_core.Assign.{set_next_phase}
use mitm_core.Pipeline.Failure.{handle_pipeline_failure, failure_state}
use mitm_core.Pipeline.Failure.Answers.{
  HasEnded, UpgradeIsClosed, failure_ends_response, failure_closes_upgrade, failure_before_headers,
}
use mitm_core.Pipeline.Run.{
  Handler, Pipelines, run, run_steps, run_phase, completed, steps_of, max_jumps, stop_loop,
  loop_failure,
}
use mitm_core.Pipeline.Run.Stops.{Run, Starts, run_ends, run_finishes}
use mitm_core.Pipeline.Run.Loops.{run_recurs}
use mitm_core.Tests.Samples.{sample_scope, sample_upgrade, sample_res, refused}

-- Asks for the phase `request` again.
abbrev again : Handler
again = record {
  name = "Again";
  phase = Phase.request;
  handle = λ s. (set_next_phase (some Phase.request) s, none);
}

abbrev passing : Handler
passing = record { name = "Pass"; phase = Phase.request; handle = λ s. (s, none) }

abbrev throwing : Handler
throwing = record { name = "Throw"; phase = Phase.request; handle = λ s. (s, some refused) }

abbrev taking : Handler
taking = record {
  name = "Take";
  phase = Phase.response;
  handle = λ s. (record s { lifecycle = record (s.lifecycle) { is_hijacked = true } }, none);
}

abbrev looping : Pipelines
looping = record { tcp = []; handshake = []; request = again ∷ []; response = [] }

abbrev no_bridge : RequestScope → RequestScope × Option Thrown
no_bridge s = (s, none)

run_ends_example : Run 3 looping max_jumps sample_scope (run 3 looping no_bridge sample_scope)
run_ends_example = run_ends 3 looping no_bridge sample_scope tt

run_finishes_example :
    ((run 3 looping no_bridge sample_scope).lifecycle.next_phase ≡ none)
    × (run 3 looping no_bridge (run 3 looping no_bridge sample_scope)
        ≡ run 3 looping no_bridge sample_scope)
run_finishes_example = run_finishes 3 looping no_bridge sample_scope tt

abbrev Ready : RequestScope → Type 0
Ready s = Starts Phase.request s × (s.request.web_socket ≡ none)

run_phase-Ready :
    (s : RequestScope)
    → Ready s
    → (p : Phase) × (t : RequestScope) × Starts p s
      × (run_phase 3 p (steps_of looping p) (set_next_phase none s) ≡ completed t)
      × Ready t
unfolding run_phase run_steps
run_phase-Ready s r =
    (Phase.request, set_next_phase (some Phase.request) s, r.0, ground arith, ground arith)

run_recurs_example :
    (p : Phase) × (t : RequestScope) × Ready t
    × Starts p t
    × (run 3 looping no_bridge sample_scope ≡ stop_loop 3 p t)
    × ((run 3 looping no_bridge sample_scope).lifecycle.failure ≡ some (loop_failure 3 p))
run_recurs_example =
    run_recurs 3 looping Ready no_bridge run_phase-Ready sample_scope ((refl, refl), refl) tt

failure_ends_response_example :
    HasEnded (handle_pipeline_failure 3 sample_scope refused Phase.handshake).request.client.res
failure_ends_response_example =
    failure_ends_response 3 sample_scope refused Phase.handshake sample_res refl refl

failure_closes_upgrade_example :
    let after = handle_pipeline_failure 3 sample_upgrade refused Phase.request in
    UpgradeIsClosed after.request.web_socket
    × (after.request.client ≡ sample_upgrade.request.client)
failure_closes_upgrade_example =
    failure_closes_upgrade 3 sample_upgrade refused Phase.request (refl, ground arith)

failure_before_headers_example :
    let after = handle_pipeline_failure 3 sample_scope refused Phase.request in
    (after.request.client.res
      ≡ some (record sample_res {
        status_code = 502;
        body = some (chars "Proxy Error: Plugin Failure");
        headers_sent = true;
        writable_ended = true;
      }))
    × (after.session ≡ sample_scope.session)
    × (after.lifecycle.failure ≡ some (failure_state 3 refused Phase.request (some sample_res)))
    × ((failure_state 3 refused Phase.request (some sample_res)).scope ≡ FailureScope.request)
    × (after.lifecycle.next_phase ≡ none)
failure_before_headers_example =
    failure_before_headers 3 sample_scope refused Phase.request sample_res refl refl (inl refl) refl
      refl
