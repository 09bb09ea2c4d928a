-- ===== src/Transport/Inbound/Faults.antt =====
-- What reaches the pipeline of a decrypted request, and how its faults end.
use mitm_core.Prelude.{
  ℕ, String, true, none, some, [], ◌∷◌, if◌then◌else◌, string_eq, nat_eq, ◌≡◌, refl, arith, eq_iff,
}
use mitm_core.Prelude.Assoc.{lookup}
use mitm_core.Net.{Ref, Socket, Response, IncomingMessage, Headers}
use mitm_core.Signals.{Thrown}
use mitm_core.Scope.{RequestScope}
use mitm_core.Pipeline.Failure.Answers.{IsOver}
use mitm_core.Transport.Inbound.{
  is_request_hop, cleaned_request_headers, Scopes, Handled, on_request, request_in, after_request,
  Emitted, answer_fault, new_request_scope, with_cleaned_headers, destroy_once,
}

-- A header reaches the request's scope exactly if its name, in lower case, is none of the fourteen
-- of a hop, and then with its value.
pub cleaned_request_headers_lem :
    (name : String) (headers : Headers)
    → lookup name (cleaned_request_headers headers)
      ≡ (if is_request_hop name then none else lookup name headers)
unfolding cleaned_request_headers lookup
cleaned_request_headers_lem name [] = ground arith
cleaned_request_headers_lem name ((key, value) ∷ entries) =
    ground (arith, eq_iff key name, cleaned_request_headers_lem name entries)

answer_fault-IsOver : (res : Response) → IsOver (answer_fault res)
unfolding answer_fault
answer_fault-IsOver res = ground arith

-- What a fault leaves: the response is over, the socket destroyed, and the error reported.
abbrev pub IsAnswered : Thrown → Handled → Type 0
IsAnswered e h =
    ((res : Response) × (h.res ≡ some res) × IsOver res)
    × (h.socket.destroyed ≡ true)
    × (h.reported ≡ e ∷ [])

destroyed-destroy_once : (k : Socket) → (destroy_once k).destroyed ≡ true
unfolding destroy_once
destroyed-destroy_once k = ground arith

after_request-IsAnswered : (r : Emitted) (e : Thrown) → IsAnswered e (after_request r (some e))
unfolding after_request
after_request-IsAnswered r e =
    ((answer_fault r.res, refl, answer_fault-IsOver r.res), destroyed-destroy_once r.socket, refl)

-- If the emission of a decrypted request throws, whatever it did to the scope, to the response or to
-- the socket: the response that came with the request is over, by its own end, by the answer 502 or
-- by its destruction, the connection is destroyed, and the error is reported once.
pub on_request-IsAnswered :
    (emit : RequestScope → Response → Socket → Emitted) (id : Ref) (now : ℕ) (req : IncomingMessage)
    (res : Response) (k : Socket) (scopes : Scopes) (s : RequestScope) (e : Thrown)
    → lookup k.id scopes ≡ some s
    → (emit (with_cleaned_headers req (new_request_scope id now req res s)) res k).thrown ≡ some e
    → IsAnswered e (on_request emit id now req res k scopes)
unfolding on_request request_in
on_request-IsAnswered emit id now req res k scopes s e p q =
    rw (p, q)
      (after_request-IsAnswered
        (emit (with_cleaned_headers req (new_request_scope id now req res s)) res k) e)
