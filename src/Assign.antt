-- ===== src/Assign.antt =====
-- Assignments to fields of a scope that lie deeper than one record, and the calls on its parts.
use mitm_core.Prelude.{String, Option, some, ◌++◌, ◌∷◌, []}
use mitm_core.Net.{Response, Socket}
use mitm_core.Phase.{Phase}
use mitm_core.Signals.{Thrown}
use mitm_core.State
use mitm_core.State.{StateValue}
use mitm_core.Scope.{
  RequestScope, PipelineAbortState, PipelineFailureState, Target, WebSocketContext, ClientSide,
  UpstreamSide, Timestamps, Protocol,
}

abbrev pub set_next_phase : Option Phase → RequestScope → RequestScope
set_next_phase p s = record s { lifecycle = record (s.lifecycle) { next_phase = p } }

abbrev pub set_abort : PipelineAbortState → RequestScope → RequestScope
set_abort a s = record s { lifecycle = record (s.lifecycle) { abort = some a } }

abbrev pub set_failure : PipelineFailureState → RequestScope → RequestScope
set_failure f s = record s { lifecycle = record (s.lifecycle) { failure = some f } }

abbrev pub set_state : String → StateValue → RequestScope → RequestScope
set_state k v s = record s {
  lifecycle = record (s.lifecycle) { state = State.set k v s.lifecycle.state };
}

abbrev pub set_timestamps : Timestamps → RequestScope → RequestScope
set_timestamps t s = record s { lifecycle = record (s.lifecycle) { timestamps = t } }

abbrev pub set_client : ClientSide → RequestScope → RequestScope
set_client c s = record s { request = record (s.request) { client = c } }

abbrev pub set_upstream : UpstreamSide → RequestScope → RequestScope
set_upstream u s = record s { request = record (s.request) { upstream = u } }

abbrev pub set_target : Target → RequestScope → RequestScope
set_target t s = record s { request = record (s.request) { target = t } }

abbrev pub set_res : Response → RequestScope → RequestScope
set_res r s = set_client (record (s.request.client) { res = some r }) s

abbrev pub set_web_socket : WebSocketContext → RequestScope → RequestScope
set_web_socket w s = record s { request = record (s.request) { web_socket = some w } }

abbrev pub set_protocol : Protocol → RequestScope → RequestScope
set_protocol p s = record s { session = record (s.session) { protocol = p } }

abbrev pub set_socket : Socket → RequestScope → RequestScope
set_socket k s = record s { session = record (s.session) { socket = k } }

-- `reportProxyError`: its listeners never stop the caller.
abbrev pub report : Thrown → RequestScope → RequestScope
report e s = record s { reported = s.reported ++ e ∷ [] }
