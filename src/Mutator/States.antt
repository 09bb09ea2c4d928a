-- ===== src/Mutator/States.antt =====
-- The phase that a scope asks for after its writes, and what becomes of a request that ends.
use Prim.Native.String.{◌++◌}
use mitm_core.Prelude.{
  ℕ, String, true, false, ◌≡◌, refl, Option, none, some, arith, ◌==◌, string_eq, nat_eq,
  if◌then◌else◌,
}
use mitm_core.Prelude.Assoc.{lookup, lookup-remove, lookup-insert_self}
use mitm_core.Net.{Ref, Buffer, IncomingMessage, Response, Socket}
use mitm_core.Phase.{Phase}
use mitm_core.State
use mitm_core.State.{flag}
use mitm_core.Scope.{RequestScope, Target}
use mitm_core.Context.Manager.{Manager}
use mitm_core.Context.Request.{destroy_request_lifecycle}
use mitm_core.Pipeline.Failure.Answers.{IsPendingUpgrade, UpgradeIsClosed, failure_closes_upgrade}
use mitm_core.Pipeline.Failure.{handle_pipeline_failure}
use mitm_core.Signals.{Thrown}
use mitm_core.Url.{UrlLib, Url, RequestData, parse_http_request_data}
use mitm_core.Mutator.{
  Applied, applied, refused, invalid, apply_http_plain_state, apply_connect_state,
  apply_https_decrypted_state, apply_upgrade_state, finish_pipeline, fail_pipeline, has_protocol,
}

-- Nothing of the lifecycle differs but the next phase, and the context stays the same request.
abbrev pub Continues : RequestScope → Option Phase → RequestScope → Type 0
Continues s phase t =
    (t.lifecycle ≡ record (s.lifecycle) { next_phase = phase })
    × (t.request.request_id ≡ s.request.request_id)
    × (t.session.connection_id ≡ s.session.connection_id)
    × (t.reported ≡ s.reported)

-- The phase is asked for if the state was applied, and the next phase is left alone otherwise.
abbrev pub Enters : Phase → RequestScope → Applied → Type 0
Enters phase s (applied t) = Continues s (some phase) t
Enters phase s (refused t) = t ≡ s
Enters phase s (invalid t) = Continues s s.lifecycle.next_phase t

-- The state was applied, and left this target.
abbrev pub IsAppliedTo : Target → Applied → Type 0
IsAppliedTo target (applied t) = t.request.target ≡ target
IsAppliedTo target (refused t) = ⊥
IsAppliedTo target (invalid t) = ⊥

module _ (lib : UrlLib) where
  -- Each kind of request enters its phase: a plain request, a decrypted one and an upgrade ask for
  -- `request`, a CONNECT asks for `handshake`; a URL that cannot be parsed leaves the next phase
  -- as it was; and nothing else of the lifecycle, no id and no report changes in any case.
  pub apply_state-Enters :
      (s : RequestScope) (req : IncomingMessage) (res : Response) (socket : Socket) (head : Buffer)
      → Enters Phase.request s (apply_http_plain_state lib s req res)
        × Enters Phase.handshake s (apply_connect_state lib s req socket head)
        × Enters Phase.request s (apply_https_decrypted_state lib s)
        × Enters Phase.request s (apply_upgrade_state lib s req socket head)
  unfolding apply_http_plain_state apply_connect_state apply_https_decrypted_state
      apply_upgrade_state
  apply_state-Enters s req res socket head =
      (ground arith, ground arith, ground arith, ground arith)

  -- A decrypted request goes to the port of the authority that its client connected to, whatever
  -- port its own URL names: if the URL and the authority can be parsed, the state is applied, the
  -- target is that URL with the port replaced, and the original URL and host stay as they were.
  pub apply_https_decrypted_state_port :
      (s : RequestScope) (req : IncomingMessage) (d : RequestData) (authority : String)
      (target a : Url)
      → s.request.client.req ≡ some req
      → s.request.target.original_url ≡ some authority
      → (authority == "") ≡ false
      → has_protocol lib authority ≡ false
      → parse_http_request_data lib req none none ≡ some d
      → (d.full_url == "") ≡ false
      → lib.parse d.full_url ≡ some target
      → lib.parse ("https://" ++ authority) ≡ some a
      → IsAppliedTo
          (record (s.request.target) {
            host = some d.host;
            url = some (lib.with_port a.port target).href;
          })
          (apply_https_decrypted_state lib s)
  unfolding apply_https_decrypted_state
  apply_https_decrypted_state_port s req d authority target a has_req named full plain parsed
        some_url at_url at_authority =
      ground arith

upgrade_pending :
    (lib : UrlLib) (s : RequestScope) (req : IncomingMessage) (socket : Socket) (head : Buffer)
    (t : RequestScope)
    → apply_upgrade_state lib s req socket head ≡ applied t
    → IsPendingUpgrade t.request.web_socket
unfolding apply_upgrade_state
upgrade_pending lib s req socket head t ok = ground arith

-- A WebSocket upgrade that was applied is pending on a raw socket, and a failure from then on, in
-- whatever phase, leaves that socket closed for writing or destroyed.
pub apply_upgrade_state-IsPendingUpgrade :
    (lib : UrlLib) (s : RequestScope) (req : IncomingMessage) (socket : Socket) (head : Buffer)
    (t : RequestScope) (now : ℕ) (e : Thrown) (phase : Phase)
    → apply_upgrade_state lib s req socket head ≡ applied t
    → IsPendingUpgrade t.request.web_socket
      × UpgradeIsClosed (handle_pipeline_failure now t e phase).request.web_socket
apply_upgrade_state-IsPendingUpgrade lib s req socket head t now e phase ok =
    let pending = upgrade_pending lib s req socket head t ok in
    (pending, (failure_closes_upgrade now t e phase pending).0)

-- A request that finishes or fails asks for no further phase, is flagged with the reason, and is
-- from then on neither active nor has a lifecycle; every other request keeps both.
pub pipeline_ends :
    (s : RequestScope) (m : Manager) (id : Ref)
    → let (finished, m1) = finish_pipeline s m in
      let (failed, m2) = fail_pipeline s m in
      let gone = λ (l : Option Ref). if s.request.request_id == id then none else l in
      (finished.lifecycle.next_phase ≡ none)
      × (failed.lifecycle.next_phase ≡ none)
      × (State.get "request.finished" finished.lifecycle.state ≡ some (flag true))
      × (State.get "error" failed.lifecycle.state ≡ some (flag true))
      × (lookup id m1.active_requests ≡ gone (lookup id m.active_requests))
      × (lookup id m1.request_life_cycle_index ≡ gone (lookup id m.request_life_cycle_index))
      × (m2 ≡ m1)
unfolding finish_pipeline fail_pipeline destroy_request_lifecycle State.set State.get
pipeline_ends s m id = (
  refl,
  refl,
  lookup-insert_self "request.finished" (flag true) s.lifecycle.state.entries,
  lookup-insert_self "error" (flag true) s.lifecycle.state.entries,
  lookup-remove s.request.request_id id m.active_requests,
  lookup-remove s.request.request_id id m.request_life_cycle_index,
  refl,
)
