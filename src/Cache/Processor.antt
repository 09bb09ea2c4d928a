-- ===== src/Cache/Processor.antt =====
-- core/cache/ResponseCacheProcessor.ts: the state of the cache's part in one request, the headers
-- that a stored response is served with, and the buffering of the body. Serve has the rest.
pub mod Buffering
pub mod Sanitizing
use mitm_core.Prelude.{
  ℕ, ◌+◌, String, Bool, true, false, not, ◌&&◌, ◌||◌, Option, none, some, List, [], ◌∷◌, ◌++◌, ◌==◌,
  nat_eq, string_eq, if◌then◌else◌, ltb, leb, mem, or_else, update, length,
}
use mitm_core.Prelude.Assoc.{Assoc, lookup, insert}
use mitm_core.Prelude.Text.{to_lower, join, parse_int}
use mitm_core.Net.{
  Ref, Buffer, Headers, HeaderValue, undef, text, texts, raw, respond, Response, IncomingMessage,
  header_text, header_or_empty,
}
use mitm_core.State.{flag}
use mitm_core.Scope.{RequestScope}
use mitm_core.Assign.{set_res, set_state, set_next_phase}
use mitm_core.Cache.Policy.{size_limit, is_cacheable_response, get_expiration_timestamp}
use mitm_core.Cache.Store.{Lru, Cache, CachedResponse, generate_key}
use mitm_core.Cache.Store

pub record Processor : Type 0 where
  pub use_response_cache : Bool
  pub is_cacheable : Bool
  pub cache_key : Option String
  pub cached_res : Option Ref
  pub response_chunks : List Buffer
  pub accumulated_bytes : ℕ

abbrev pub allowed : List String
allowed =
    "content-type" ∷ "content-encoding" ∷ "etag" ∷ "last-modified" ∷ "cache-control" ∷ "expires"
    ∷ "vary" ∷ "access-control-allow-origin" ∷ "access-control-allow-methods"
    ∷ "access-control-allow-headers" ∷ "access-control-expose-headers" ∷ []

unfoldable pub join_value : HeaderValue → HeaderValue
join_value undef = undef
join_value (text t) = text t
join_value (texts l) = text (join ", " l)

unfoldable pub sanitize_onto : Headers → Headers → Headers
unfolding join_value
sanitize_onto clean [] = clean
sanitize_onto clean ((key, val) ∷ headers) =
    sanitize_onto
      (if mem (to_lower key) allowed then insert (to_lower key) (join_value val) clean else clean)
      headers

unfoldable pub sanitize_headers : Headers → Headers
unfolding sanitize_onto
sanitize_headers headers = sanitize_onto [] headers

unfoldable pub track_chunk : Buffer → Processor → Processor
track_chunk chunk p =
    if not p.is_cacheable
    then p
    else if ltb size_limit (p.accumulated_bytes + length chunk)
    then record p { is_cacheable = false; response_chunks = []; accumulated_bytes = 0 }
    else record p {
      accumulated_bytes = p.accumulated_bytes + length chunk;
      response_chunks = p.response_chunks ++ chunk ∷ [];
    }

unfoldable pub abort : Processor → Processor
abort p = record p { is_cacheable = false; response_chunks = []; accumulated_bytes = 0 }

-- `parseInt(headers["content-length"] || "0", 10)`; what is no number exceeds no limit.
content_length : IncomingMessage → ℕ
content_length res = or_else (parse_int (header_or_empty "content-length" res.headers)) 0

unfoldable pub initialize_upstream_intercept :
    IncomingMessage → RequestScope → Processor → Processor
unfolding content_length
initialize_upstream_intercept res s p =
    if not p.use_response_cache then p else elim s.request.client.req [
      | none ↦ p
      | some req ↦ record p {
        is_cacheable =
            is_cacheable_response (some req) (some res) 0
            && not (ltb size_limit (content_length res));
      }
    ]

-- `Buffer.concat`.
unfoldable pub concat : List Buffer → Buffer
concat [] = []
concat (b ∷ bs) = b ++ concat bs
