-- ===== src/Transport/Bridge/Start.antt =====
-- H1OutboundBridge.ts: `execute` up to the listeners that it installs, and the one of the client's
-- response.
use mitm_core.Prelude.{ℕ, ◌-◌, Bool, true, false, none, some, [], if◌then◌else◌, string_eq}
use mitm_core.Net.{IncomingMessage, ClientRequest}
use mitm_core.State.{flag}
use mitm_core.Scope.{RequestScope}
use mitm_core.Assign.{set_state, set_timestamps}
use mitm_core.Context.Manager.{Manager}
use mitm_core.Cache.Store.{Lru, Cache}
use mitm_core.Cache.Serve.{Served, new_processor, try_serve_hit}
use mitm_core.Transport.Bridge.{Bridge, waiting, resolved, settle, end_stage, with_scope}

-- `execute` resolves at once where a part of the exchange is missing.
pub data Started (lru : Lru) : Type 0 where
  missing : RequestScope → Started lru
  started : Bridge lru → Started lru

module _ (lru : Lru) where
  -- A response that the upstream has not sent.
  abbrev no_response : IncomingMessage
  no_response = record {
    method = none;
    url = none;
    status_code = none;
    http_version = none;
    headers = [];
    encrypted = false;
    destroyed = false;
  }

  serve_or_wait : Served lru → Manager → ClientRequest → Bridge lru
  unfolding settle
  serve_or_wait r m upstream_req =
      let b : Bridge lru = record {
        work = record {
          scope = r.scope;
          manager = m;
          processor = r.processor;
          cache = r.cache;
          upstream_res = no_response;
          upstream_req = upstream_req;
          thrown = none;
        };
        is_settled = false;
        calls = [];
        stage = waiting;
        failing = none;
      } in
      if r.answer then end_stage lru (settle lru resolved b) else b

  -- `execute`, up to the listeners that it puts on the upstream request.
  unfoldable pub execute : ℕ → Bool → RequestScope → Manager → Cache lru → Started lru
  unfolding serve_or_wait
  execute now use_response_cache s m c = elim s.request.upstream.req [
    | none ↦ missing (set_state "error" (flag true) s)
    | some upstream_req ↦ elim s.request.client.res [
      | none ↦ missing (set_state "error" (flag true) s)
      | some res ↦ elim (new_processor lru now use_response_cache s c) [
        | none ↦ missing (set_state "error" (flag true) s)
        | some (p, c') ↦ elim s.request.client.req [
          | none ↦ missing (set_state "error" (flag true) s)
          | some req ↦ started (serve_or_wait (try_serve_hit lru now p c' s) m upstream_req)
        ]
      ]
    ]
  ]

  -- The `finish` of the client's response; no time lies before the one at which it was received.
  unfoldable pub on_finish : ℕ → Bridge lru → Bridge lru
  on_finish now b =
      let s = b.work.scope in
      with_scope lru
        (set_timestamps
          (record (s.lifecycle.timestamps) {
            responded_at = some now;
            duration = some (now - s.lifecycle.timestamps.received_at);
          })
          s)
        b
