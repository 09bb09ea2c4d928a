-- ===== src/Transport/Bridge.antt =====
-- H1OutboundBridge.ts: `execute` waits for what becomes of the upstream request, and settles its
-- promise. Its callbacks suspend at every `await`, so what happens in between is a sequence of
-- events: each is one synchronous stretch of a callback, given the scope as it is when it starts.
-- Awaiting is what a stretch ends with; an event that the bridge does not wait for changes nothing.
pub mod Start
pub mod Settling
pub mod Once
pub mod Answers
use mitm_core.Prelude.{
  ℕ, ◌-◌, String, Bool, true, false, not, ◌&&◌, ◌||◌, Option, none, some, List, [], ◌∷◌, ◌++◌,
  if◌then◌else◌, ◌==◌, string_eq, or_else,
}
use mitm_core.Net.{
  Response, IncomingMessage, ClientRequest, Body, text, json, chars, Headers, respond,
  destroy_response,
}
use mitm_core.Phase.{Phase}
use mitm_core.State.{flag}
use mitm_core.Signals.{Thrown, signal, error, object, primitive, PipelineAbortSignal}
use mitm_core.Scope.{
  RequestScope, ExplicitHeaderOverrides, PipelineFailureState, FailureDisposition, FailureScope,
}
use mitm_core.Assign.{set_res, set_state, set_abort, set_failure, set_timestamps, report}
use mitm_core.Context.Manager.{Manager}
use mitm_core.Pipeline.Failure.{abort_state}
use mitm_core.Mutator.{fail_pipeline}
use mitm_core.Cache.Store.{Lru, Cache}
use mitm_core.Cache.Processor.{Processor, initialize_upstream_intercept}
use mitm_core.Cache.Serve.{Served, new_processor, try_serve_hit, try_serve_revalidation}
use mitm_core.Transport.Errors.{
  error_message, is_client_disconnected, is_expected_drop, upstream_failure, answer_upstream_error,
  answer_relay_error,
}
use mitm_core.Transport.Dispatch.{
  Work, Begun, done, streaming, Streamed, begin_response, end_response, code_of,
}

-- The calls of the promise's `resolve` and `reject`.
pub data Call : Type 0 where
  resolved : Call
  rejected : Thrown → Call

-- Where the callback of `response` is suspended.
pub data Stage : Type 0 where
  waiting : Stage
  announcing requesting relaying : IncomingMessage → Stage
  ended : Stage

pub record Bridge (lru : Lru) : Type 0 where
  pub work : Work lru
  pub is_settled : Bool
  pub calls : List Call
  pub stage : Stage
  -- The error whose callback waits for the plugins.
  pub failing : Option Thrown

-- What happens next: a plugin aborts the upstream connection; the upstream responds; the listeners
-- of `UPSTREAM:RESPONSE` are done, and those of `proxy:upstream-request`; the stream of the response
-- has ended; the upstream request has an error; the plugins were told of it; and the upstream took
-- too long. An optional argument is what the listeners threw.
pub data Event : Type 0 where
  connect_refused : Thrown → Event
  responded : IncomingMessage → Event
  announced requested : Option Thrown → Event
  relayed : Streamed → Event
  failed : Thrown → Event
  told : Option Thrown → Event
  timed_out : Event

on_res : (Response → Response) → RequestScope → RequestScope
on_res f s = elim s.request.client.res [ none ↦ s | some res ↦ set_res (f res) s ]

module _ (lru : Lru) where
  abbrev pub with_scope : RequestScope → Bridge lru → Bridge lru
  with_scope s b = record b { work = record (b.work) { scope = s } }

  -- `safeResolve` and `safeReject`.
  unfoldable pub settle : Call → Bridge lru → Bridge lru
  settle call b =
      if b.is_settled then b else record b { is_settled = true; calls = b.calls ++ call ∷ [] }

  abbrev pub end_stage : Bridge lru → Bridge lru
  end_stage b = record b { stage = ended }

  -- The `catch` of the `response` callback.
  unfoldable pub catch_response : IncomingMessage → Thrown → Bridge lru → Bridge lru
  unfolding on_res answer_relay_error settle
  catch_response upstream_res (signal sig) b = end_stage (settle (rejected (signal sig)) b)
  catch_response upstream_res e b =
      let w = b.work in
      end_stage (
        settle (rejected e) (record b {
          work = record w {
            scope = on_res answer_relay_error (report e w.scope);
            upstream_res = record (w.upstream_res) { destroyed = true };
          };
        }))

  unfoldable pub conclude : IncomingMessage → Bridge lru → Option Thrown → Bridge lru
  unfolding catch_response
  conclude upstream_res b none = end_stage (settle resolved b)
  conclude upstream_res b (some e) = catch_response upstream_res e b

  -- What the dispatcher has left when it returned, or while its stream goes on.
  unfoldable pub after_relay : IncomingMessage → Bridge lru → Begun lru → Bridge lru
  unfolding conclude
  after_relay upstream_res b (done w) = conclude upstream_res (record b { work = w }) w.thrown
  after_relay upstream_res b (streaming w) = record b { work = w; stage = relaying upstream_res }

  -- The rest of the `error` callback, once the plugins were told; it settles the promise itself.
  unfoldable pub end_failed : ℕ → Thrown → Bridge lru → Bridge lru
  unfolding on_res answer_upstream_error is_client_disconnected is_expected_drop upstream_failure
  end_failed now e b =
      let s = b.work.scope in
      let noted =
        if is_expected_drop e || is_client_disconnected e
        then s
        else report e (set_failure (upstream_failure now e) s) in
      let (t, m) = fail_pipeline noted b.work.manager in
      record b {
        work = record (b.work) {
          scope = on_res (answer_upstream_error e) t;
          manager = m;
          upstream_req = record (b.work.upstream_req) { destroyed = true };
        };
        calls = b.calls ++ rejected e ∷ [];
      }

  go_on : ℕ → Thrown → Bridge lru → Bridge lru
  unfolding end_failed
  go_on now e b =
      if b.work.scope.lifecycle.is_hijacked
      then record b { calls = b.calls ++ resolved ∷ [] }
      else end_failed now e b

  -- What a plugin throws stops the callback if it is an abort, and is dropped otherwise.
  unfoldable pub end_told : ℕ → Thrown → Bridge lru → Option Thrown → Bridge lru
  unfolding go_on
  end_told now e b (some (signal sig)) =
      record (with_scope (set_abort (abort_state now sig Phase.request) b.work.scope) b) {
        calls = b.calls ++ rejected (signal sig) ∷ [];
      }
  end_told now e b (some (error x y)) = go_on now e b
  end_told now e b (some (object x y z)) = go_on now e b
  end_told now e b (some (primitive x)) = go_on now e b
  end_told now e b none = go_on now e b

  module _ (date_parse : String → Option ℕ) (globals : Option ExplicitHeaderOverrides) where
    -- The synchronous stretch that relays the response.
    relay : IncomingMessage → Bridge lru → Bridge lru
    unfolding after_relay
    relay upstream_res b =
        let w = b.work in
        let p = initialize_upstream_intercept upstream_res w.scope w.processor in
        after_relay upstream_res b (
          begin_response lru globals
            (record w { processor = p; upstream_res = upstream_res; thrown = none }))

    -- The stretch after the awaited events; `now` is `Date.now()`.
    unfoldable pub answer : ℕ → IncomingMessage → Bridge lru → Bridge lru
    unfolding relay
    answer now upstream_res b =
        let w = b.work in
        let r =
          try_serve_revalidation lru date_parse now w.processor w.cache w.scope upstream_res in
        if w.scope.lifecycle.is_hijacked
        then end_stage (settle resolved b)
        else if r.answer
        then end_stage (
            settle resolved (record b {
              work = record w {
                scope = r.scope;
                processor = r.processor;
                cache = r.cache;
                upstream_res = or_else r.upstream_res upstream_res;
              };
            }))
        else relay (or_else r.upstream_res upstream_res) b

    unfoldable pub on_responded : ℕ → IncomingMessage → Bridge lru → Stage → Bridge lru
    on_responded now upstream_res b waiting = if b.is_settled then end_stage b else record b {
      work = record (b.work) {
        scope =
            set_timestamps
              (record (b.work.scope.lifecycle.timestamps) { upstream_received_at = some now })
              b.work.scope;
        upstream_res = upstream_res;
      };
      stage = announcing upstream_res;
    }
    on_responded now upstream_res b _ = b

    unfoldable pub on_announced : Option Thrown → Bridge lru → Stage → Bridge lru
    on_announced (some e) b (announcing upstream_res) = catch_response upstream_res e b
    on_announced none b (announcing upstream_res) =
        if b.is_settled then end_stage b else record b { stage = requesting upstream_res }
    on_announced _ b _ = b

    unfoldable pub on_requested : ℕ → Option Thrown → Bridge lru → Stage → Bridge lru
    unfolding answer
    on_requested now (some e) b (requesting upstream_res) = catch_response upstream_res e b
    on_requested now none b (requesting upstream_res) =
        if b.is_settled then end_stage b else answer now upstream_res b
    on_requested now _ b _ = b

    unfoldable pub on_relayed : ℕ → Streamed → Bridge lru → Stage → Bridge lru
    on_relayed now streamed b (relaying upstream_res) =
        after_relay upstream_res b (done (end_response lru date_parse now streamed b.work))
    on_relayed now streamed b _ = b

    unfoldable pub on_told : ℕ → Option Thrown → Bridge lru → Option Thrown → Bridge lru
    unfolding end_told
    on_told now thrown b none = b
    on_told now thrown b (some e) = end_told now e (record b { failing = none }) thrown

    -- One stretch of a callback, at the time `now`; the scope is as the other stretches left it.
    unfoldable pub step : ℕ → RequestScope → Event → Bridge lru → Bridge lru
    unfolding on_responded on_announced on_requested on_relayed on_told
    step now s (connect_refused e) b = settle (rejected e) (with_scope s b)
    step now s (responded res) b = on_responded now res (with_scope s b) b.stage
    step now s (announced thrown) b = on_announced thrown (with_scope s b) b.stage
    step now s (requested thrown) b = on_requested now thrown (with_scope s b) b.stage
    step now s (relayed streamed) b = on_relayed now streamed (with_scope s b) b.stage
    step now s (failed e) b =
        let c = with_scope s b in
        if b.is_settled then c else record c { is_settled = true; failing = some e }
    step now s (told thrown) b = on_told now thrown (with_scope s b) b.failing
    step now s timed_out b =
        let c = with_scope s b in
        record c {
          work = record (c.work) {
            upstream_req = record (b.work.upstream_req) { destroyed = true };
          };
        }

    -- The events in the order in which the loop runs them, each with its time and the scope.
    unfoldable pub run_events : List (ℕ × RequestScope × Event) → Bridge lru → Bridge lru
    run_events [] b = b
    run_events ((now, s, e) ∷ events) b = run_events events (step now s e b)
