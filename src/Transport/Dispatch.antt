-- ===== src/Transport/Dispatch.antt =====
-- responseDispatcher.ts and streamingResponseHandler.ts. A response is relayed in two steps, since
-- other events run between them: the head is written, and later the stream has ended. `globals` is
-- `getConfig().globalHeaderOverrides`.
pub mod Relay
use mitm_core.Prelude.{
  ℕ, String, Bool, true, false, not, ◌&&◌, ◌||◌, Option, none, some, List, [], ◌∷◌, ◌++◌,
  if◌then◌else◌, keep_if, mem, or_else, leb, ltb, ◌==◌, nat_eq, string_eq, is_some,
}
use mitm_core.Prelude.Assoc.{lookup, insert}
use mitm_core.Prelude.Text.{to_lower}
use mitm_core.Net.{
  Buffer, Headers, HeaderValue, undef, text, texts, Response, IncomingMessage, ClientRequest,
  header_or_empty, write_head, end_with, destroy_response, chars, raw,
}
use mitm_core.Signals.{Thrown, signal, error, object, primitive}
use mitm_core.Scope.{RequestScope, ExplicitHeaderOverrides}
use mitm_core.Assign.{set_res, set_upstream}
use mitm_core.Context.Manager.{Manager}
use mitm_core.Headers.{resolve_response_headers, is_absent}
use mitm_core.Mutator.{finish_pipeline, fail_pipeline}
use mitm_core.Cache.Store.{Lru, Cache}
use mitm_core.Cache.Processor.{Processor, track_chunk}
use mitm_core.Cache.Serve.{commit}

abbrev pub res_hop_headers : List String
res_hop_headers =
    "connection" ∷ "keep-alive" ∷ "transfer-encoding" ∷ "te" ∷ "trailer" ∷ "upgrade"
    ∷ "proxy-authenticate" ∷ []

abbrev pub is_hop : String → Bool
is_hop key = mem (to_lower key) res_hop_headers

-- `!value`.
is_falsy : HeaderValue → Bool
is_falsy undef = true
is_falsy (text t) = t == ""
is_falsy (texts l) = false

unfoldable pub cleaned_headers : Headers → Headers
unfolding is_falsy
cleaned_headers headers = keep_if (λ e. not (is_falsy e.1) && not (is_hop e.0)) headers

-- `rawCleanedHeaders`.
unfoldable pub raw_cleaned_headers : Headers → Headers
unfolding is_absent
raw_cleaned_headers headers = keep_if (λ e. not (is_absent (some e.1)) && not (is_hop e.0)) headers

-- `typeof error.code === "string" ? error.code : ""`.
abbrev pub code_of : Thrown → String
code_of (signal s) = ""
code_of (error message code) = or_else code ""
code_of (object message code shown) = or_else code ""
code_of (primitive shown) = ""

unfoldable pub is_expected_close : Thrown → Bool
is_expected_close e =
    code_of e == "ECONNRESET" || code_of e == "EPIPE" || code_of e == "ERR_STREAM_PREMATURE_CLOSE"

-- What the relay works on; `thrown` is what it threw.
pub record Work (lru : Lru) : Type 0 where
  pub scope : RequestScope
  pub manager : Manager
  pub processor : Processor
  pub cache : Cache lru
  pub upstream_res : IncomingMessage
  pub upstream_req : ClientRequest
  pub thrown : Option Thrown

-- How `stream.pipeline(upstreamRes, teeStream, res)` ended: the chunks that went through, the
-- response as it is then, and the error, if there is one.
pub record Streamed : Type 0 where
  pub chunks : List Buffer
  pub res : Response
  pub thrown : Option Thrown

-- Whether the stream has yet to end.
pub data Begun (lru : Lru) : Type 0 where
  done : Work lru → Begun lru
  streaming : Work lru → Begun lru

is_no_content : IncomingMessage → ℕ → Bool
is_no_content upstream_res status =
    let is_web_socket_upgrade =
      status == 101 && to_lower (header_or_empty "upgrade" upstream_res.headers) == "websocket" in
    not is_web_socket_upgrade
    && (status == 204 || status == 304 || (leb 100 status && ltb status 200))

-- `res.writeHead(statusCode, cleanedHeaders); res.end()`.
answer_no_content : IncomingMessage → ℕ → Response → Response
unfolding cleaned_headers
answer_no_content upstream_res status res =
    if not res.headers_sent && not res.writable_ended
    then record res {
      status_code = status;
      headers = cleaned_headers upstream_res.headers;
      headers_sent = true;
      writable_ended = true;
    }
    else res

module _ (lru : Lru) where
  finished : Work lru → Work lru
  finished w = let (s, m) = finish_pipeline w.scope w.manager in record w { scope = s; manager = m }

  failed : Work lru → Work lru
  failed w = let (s, m) = fail_pipeline w.scope w.manager in record w { scope = s; manager = m }

  destroy_upstream : Work lru → Work lru
  destroy_upstream w = record w {
    upstream_res = record (w.upstream_res) { destroyed = true };
    upstream_req = record (w.upstream_req) { destroyed = true };
  }

  unfoldable pub final_headers :
      Option ExplicitHeaderOverrides → RequestScope → IncomingMessage → Headers
  unfolding raw_cleaned_headers
  final_headers globals s upstream_res =
      let headers = resolve_response_headers globals s (raw_cleaned_headers upstream_res.headers) in
      if is_some (lookup "content-length" headers)
      then headers
      else insert "transfer-encoding" (text "chunked") headers

  -- `upstreamRes.statusCode || 200`.
  abbrev status_or_200 : IncomingMessage → ℕ
  status_or_200 res = let code = or_else res.status_code 0 in if code == 0 then 200 else code

  -- `StreamingResponseHandler.handle` up to the stream.
  unfoldable pub begin_stream : Option ExplicitHeaderOverrides → Work lru → Begun lru
  unfolding final_headers failed destroy_upstream
  begin_stream globals w = elim w.scope.request.client.res [
    | none ↦ done (failed (destroy_upstream w))
    | some res ↦
        if res.destroyed || res.writable_ended || not res.writable
        then done (failed (destroy_upstream w))
        else if res.headers_sent
        then streaming w
        else streaming (record w {
          scope =
              set_res
                (record res {
                  status_code = status_or_200 w.upstream_res;
                  headers = final_headers globals w.scope w.upstream_res;
                  headers_sent = true;
                })
                w.scope;
        })
  ]

  -- `ResponseDispatcher.handle` up to the stream.
  unfoldable pub begin_response : Option ExplicitHeaderOverrides → Work lru → Begun lru
  unfolding begin_stream is_no_content answer_no_content finished
  begin_response globals w =
      let status = or_else w.upstream_res.status_code 200 in
      if is_no_content w.upstream_res status
      then done (
          finished (elim w.scope.request.client.res [
            | none ↦ w
            | some res ↦ record w {
              scope = set_res (answer_no_content w.upstream_res status res) w.scope;
            }
          ]))
      else begin_stream globals w

  track_chunks : List Buffer → Processor → Processor
  track_chunks [] p = p
  track_chunks (b ∷ bs) p = track_chunks bs (track_chunk b p)

  -- The rest of `ResponseDispatcher.handle`: what it makes of the stream's error.
  dispatch_error : Work lru → Thrown → Work lru
  dispatch_error w (signal sig) = record w { thrown = some (signal sig) }
  dispatch_error w e =
      if is_expected_close e
      then record w { thrown = none }
      else record (failed w) { thrown = some e }

  -- The `catch` of `StreamingResponseHandler.handle`, and then that of the dispatcher.
  unfoldable pub end_failed : Streamed → Work lru → Thrown → Work lru
  unfolding destroy_upstream dispatch_error failed is_expected_close
  end_failed r w e =
      let res =
        if not r.res.writable_ended && not r.res.destroyed then destroy_response r.res else r.res in
      dispatch_error (destroy_upstream (record w { scope = set_res res w.scope })) e

  -- The tee stream has given its chunks to the cache.
  unfoldable pub tracked : Streamed → Work lru → Work lru
  unfolding track_chunks
  tracked r w = record w { processor = track_chunks r.chunks w.processor }

  -- The stream ended well: the response may be stored, and the request is finished.
  end_finished : (String → Option ℕ) → ℕ → Streamed → Work lru → Work lru
  unfolding finished
  end_finished date_parse now r w =
      let s = set_res r.res w.scope in
      let (p, c) = commit lru date_parse now w.processor w.cache s w.upstream_res in
      finished (record w { scope = s; processor = p; cache = c })

  unfoldable pub after_stream :
      (String → Option ℕ) → ℕ → Streamed → Work lru → Option Thrown → Work lru
  unfolding end_finished end_failed
  after_stream date_parse now r w none = end_finished date_parse now r w
  after_stream date_parse now r w (some e) = end_failed r w e

  -- The rest of `StreamingResponseHandler.handle`, after the stream.
  unfoldable pub end_response : (String → Option ℕ) → ℕ → Streamed → Work lru → Work lru
  unfolding tracked after_stream
  end_response date_parse now r w = after_stream date_parse now r (tracked r w) r.thrown
