-- ===== src/Tests/Sockets.antt =====
-- The context manager from its first call: a socket whose scope is made and destroyed, and another.
use mitm_core.Prelude.{refl, none, some, [], arith, nat_eq, string_eq, pair_eq}
use mitm_core.Net.{Socket}
use mitm_core.Context.Manager.{Manager, close, emit}
use mitm_core.Context.Request.{Incoming, destroy_request_lifecycle, get_or_create_scope}
use mitm_core.Context.WellFormed.{IsWellFormed}
use mitm_core.Context.Steps.{
  IsNew, Steps, here, later, asked, emitted, destroyed, steps-IsWellFormed,
}
use mitm_core.Context.Apart.{AreApart, scopes_apart}
use mitm_core.Tests.Samples.{
  sample_socket, sample_session, sample_request, sample_lifecycle, sample_req, sample_res,
}

abbrev new_manager : Manager
new_manager = record {
  sessions = λ _. sample_session;
  requests = λ _. sample_request;
  lifecycles = λ _. sample_lifecycle;
  fresh = 0;
  context_store = [];
  connection_index = [];
  request_index = [];
  active_requests = [];
  request_life_cycle_index = [];
  listeners = [];
}

new_manager-IsNew : IsNew new_manager
new_manager-IsNew = record {
  no_context = refl;
  no_connection = refl;
  no_active = refl;
  no_request = refl;
  no_lifecycle = refl;
}

abbrev other_socket : Socket
other_socket = record sample_socket { id = 8 }

abbrev incoming : Incoming
incoming = record { message = sample_req; res = some sample_res }

-- The first socket asks without a request; its request is destroyed, and it closes.
abbrev asked_once : Manager
asked_once = (get_or_create_scope 3 sample_socket none "h1" new_manager).0

abbrev closed_socket : Manager
closed_socket = emit 7 close (destroy_request_lifecycle 1 asked_once)

closed-Steps : Steps asked_once closed_socket
closed-Steps = later (later here (destroyed 1)) (emitted 7 close)

scopes_apart_example :
    AreApart
      (get_or_create_scope 3 sample_socket none "h1" new_manager).1
      (get_or_create_scope 4 other_socket (some incoming) "h1" closed_socket).1
scopes_apart_example =
    scopes_apart 3 4 sample_socket other_socket none (some incoming) "h1" "h1" new_manager-IsNew
      here closed-Steps (omega arith)

steps-IsWellFormed_example : IsWellFormed closed_socket
steps-IsWellFormed_example =
    steps-IsWellFormed new_manager-IsNew
      (later (later (later here (asked 3 sample_socket none "h1")) (destroyed 1)) (emitted 7 close))
