-- ===== src/Cache/Serve/Storing.antt =====
-- What a response leaves in the cache once it is streamed.
use mitm_core.Prelude.{
  ℕ, ◌+◌, ◌≤◌, ◌<◌, String, true, false, ◌≡◌, refl, ap, Option, some, List, [], ◌++◌, arith,
  or_else, nat_eq, string_eq, ◌==◌,
}
use mitm_core.Net.{header_or_empty, Buffer, IncomingMessage}
use mitm_core.Scope.{RequestScope}
use mitm_core.Cache.Policy.{size_limit, get_expiration_timestamp}
use mitm_core.Cache.Store.{Lru, Cache, CachedResponse, set}
use mitm_core.Cache.Processor.{Processor, concat, abort}
use mitm_core.Cache.Processor.Buffering.{
  total, track_all, track_all_from, track_all_over, abort_idle,
}
use mitm_core.Cache.Serve.{commit}

-- A processor that is about to buffer a response to this key.
pub record IsReady (p : Processor) (key : String) : Type 0 where
  pub used : p.use_response_cache ≡ true
  pub cacheable : p.is_cacheable ≡ true
  pub keyed : p.cache_key ≡ some key
  pub empty : p.response_chunks ≡ []
  pub unread : p.accumulated_bytes ≡ 0

module _ (lru : Lru) (date_parse : String → Option ℕ) (now : ℕ) where
  abbrev pub entry_of : IncomingMessage → Buffer → CachedResponse
  entry_of upstream body = record {
    status = or_else upstream.status_code 0;
    etag = some (header_or_empty "etag" upstream.headers);
    headers = upstream.headers;
    body = body;
    expires = get_expiration_timestamp date_parse now upstream.headers 30000;
  }

  commit_ready :
      (p : Processor) (key : String) (c : Cache lru) (s : RequestScope)
      (req upstream : IncomingMessage)
      → p.use_response_cache ≡ true
      → p.is_cacheable ≡ true
      → p.cache_key ≡ some key
      → (key == "") ≡ false
      → s.request.client.req ≡ some req
      → commit lru date_parse now p c s upstream ≡ (
        record p { response_chunks = [] },
        set lru now key (entry_of upstream (concat p.response_chunks)) c,
      )
  unfolding commit
  commit_ready p key c s req upstream u a k n q = simp (u, a, k, n, q)

  commit_idle :
      (p : Processor) (c : Cache lru) (s : RequestScope) (upstream : IncomingMessage)
      → p.is_cacheable ≡ false
      → (commit lru date_parse now p c s upstream).1 ≡ c
  unfolding commit
  commit_idle p c s upstream a = ground arith

  -- A cacheable response of at most 5 MB is stored when its stream ends: the object that is put
  -- under the request's key has the status and the headers of the upstream, the concatenation of all
  -- chunks in order as its body, and the expiry that its headers give. The chunks are let go.
  pub commit_stores :
      (p : Processor) (key : String) (bs : List Buffer) (c : Cache lru) (s : RequestScope)
      (req upstream : IncomingMessage)
      → IsReady p key
      → (key == "") ≡ false
      → s.request.client.req ≡ some req
      → total bs ≤ size_limit
      → let (p', c') = commit lru date_parse now (track_all bs p) c s upstream in
        (c'
          ≡ set lru now key
              (record {
                status = or_else upstream.status_code 0;
                etag = some (header_or_empty "etag" upstream.headers);
                headers = upstream.headers;
                body = concat bs;
                expires = get_expiration_timestamp date_parse now upstream.headers 30000;
              })
              c)
        × (p'.response_chunks ≡ [])
  commit_stores p key bs c s req upstream r n q small =
      rw (track_all_from bs p r.cacheable (omega arith)) (
        rw (commit_ready full key c s req upstream r.used r.cacheable r.keyed n q)
          (ap (λ cs. set lru now key (entry_of upstream (concat (cs ++ bs))) c) r.empty, refl))
    where
      full : Processor
      full = record p {
        accumulated_bytes = p.accumulated_bytes + total bs;
        response_chunks = p.response_chunks ++ bs;
      }

  -- A response whose chunks exceed 5 MB together leaves the cache as it was.
  pub commit_skips :
      (p : Processor) (key : String) (bs : List Buffer) (c : Cache lru) (s : RequestScope)
      (upstream : IncomingMessage)
      → IsReady p key
      → size_limit < total bs
      → (commit lru date_parse now (track_all bs p) c s upstream).1 ≡ c
  commit_skips p key bs c s upstream r large =
      rw (track_all_over bs p r.cacheable (omega arith) (omega arith))
        (commit_idle (abort p) c s upstream (abort_idle p))
