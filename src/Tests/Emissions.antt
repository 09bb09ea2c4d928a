-- ===== src/Tests/Emissions.antt =====
-- Emissions of the buses, and the middleware, at concrete listeners.
use mitm_core.Net.{ClientRequest}
use mitm_core.Handlers.{request_handle}
use mitm_core.Handlers.Requests.{Leaves, request_handle-Leaves}
use mitm_core.Prelude.{
  inr, false, ◌*◌, ◌+◌, max, true, refl, none, some, [], ◌∷◌, string_eq, nat_eq, length, arith,
}
use mitm_core.Tests.Entries.{sample_lib}
use mitm_core.Scope.{RequestScope}
use mitm_core.Events.{Listener, emit_plugins}
use mitm_core.Events.Limits.{SettlesWithin, emit_plugins-SettlesWithin}
use mitm_core.Middleware.{Emit}
use mitm_core.Tests.Samples.{sample_scope, sample_req, sample_res, refused}

abbrev hanging : Listener
hanging s = record {
  settled_after = none;
  scope = s;
  thrown = none;
  scope_at = λ t. s;
  free_from = λ due. some due;
}

-- It blocks the loop until 13, and settles then.
abbrev blocking : Listener
blocking s = record {
  settled_after = some 13;
  scope = s;
  thrown = none;
  scope_at = λ t. s;
  free_from = λ due. some (max due 13);
}

emit_plugins-SettlesWithin_example :
    SettlesWithin
      (length (blocking ∷ hanging ∷ []) * (10 + 3))
      (emit_plugins 10 (blocking ∷ hanging ∷ []) sample_scope)
emit_plugins-SettlesWithin_example =
    emit_plugins-SettlesWithin 10 3 (blocking ∷ hanging ∷ []) sample_scope (omega arith)
      ((λ s. (13, refl, omega arith)), ((λ s. (10, refl, omega arith)), tt))

abbrev staying : RequestScope → RequestScope
staying s = s

abbrev quiet : Emit
quiet s = (s, none)

abbrev crashing : Emit
crashing s = (s, some refused)

abbrev seizing : Emit
seizing s = (record s { lifecycle = record (s.lifecycle) { is_hijacked = true } }, none)

abbrev sample_upstream : ClientRequest
sample_upstream = record { id = 5; method = some "GET"; headers = []; destroyed = false }

request_handle-Leaves_example :
    Leaves sample_lib none
      (λ o. inr sample_upstream)
      quiet
      (request_handle sample_lib none (λ o. inr sample_upstream) quiet 3 sample_scope)
request_handle-Leaves_example =
    request_handle-Leaves sample_lib none (λ o. inr sample_upstream) quiet 3 sample_scope sample_req
      sample_res refl refl refl
