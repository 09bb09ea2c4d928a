-- ===== src/Cache/Serve/Again.antt =====
-- A response that was stored is what the next request with its key is answered with.
use mitm_core.Prelude.{
  ◌+◌, ◌+◌, ◌∷◌, subst, length, length-append, sym, ap, ◌∙◌, arith, List, [], ◌==◌, String, ℕ, ◌≤◌,
  true, false, ◌≡◌, refl, Option, none, some, nat_eq, nat_beq_iff, string_eq,
}
use mitm_core.Net.{Ref, Buffer, IncomingMessage, Response, respond, raw}
use mitm_core.Scope.{RequestScope}
use mitm_core.Cache.Store.{
  Lru, Cache, CachedResponse, get, set, generate_key, size_calculation, max_size, ttl,
}
use mitm_core.Cache.Policy.{size_limit, get_expiration_timestamp}
use mitm_core.Cache.Processor.{Processor, concat, sanitize_headers}
use mitm_core.Cache.Processor.Buffering.{total, track_all}
use mitm_core.Cache.Serve.{Served, commit, new_processor, try_serve_hit}
use mitm_core.Cache.Serve.Storing.{IsReady, entry_of, commit_stores}

-- The client got this response, and the request needs no more phases.
pub record IsServed {lru : Lru} (value : CachedResponse) (res : Response) (r : Served lru)
    : Type 0 where
  pub answered : r.answer ≡ true
  pub sent :
      r.scope.request.client.res
      ≡ some (respond value.status (sanitize_headers value.headers) (raw value.body) res)
  pub finished : r.scope.lifecycle.next_phase ≡ none

-- A processor made for the request serves the value.
abbrev pub Serves :
    (lru : Lru)
    → ℕ
    → CachedResponse
    → Response
    → RequestScope
    → Option (Processor × Cache lru)
    → Type 0
Serves lru later value res s none = ⊥
Serves lru later value res s (some (p, c)) = IsServed value res (try_serve_hit lru later p c s)

module _ (lru : Lru) (later : ℕ) where
  hit-IsServed :
      (p : Processor) (ref : Ref) (value : CachedResponse) (c : Cache lru) (s : RequestScope)
      (res : Response)
      → p.use_response_cache ≡ true
      → p.cached_res ≡ some ref
      → c.entries ref ≡ value
      → s.request.client.res ≡ some res
      → res.headers_sent ≡ false
      → res.writable_ended ≡ false
      → later ≤ value.expires
      → IsServed value res (try_serve_hit lru later p c s)
  unfolding try_serve_hit
  hit-IsServed p ref value c s res u f e r unsent going fresh = record {
    answered = ground arith;
    sent = ground arith;
    finished = ground arith;
  }

  found-Serves :
      (now : ℕ) (key : String) (value : CachedResponse) (c : Cache lru) (s : RequestScope)
      (req : IncomingMessage) (res : Response)
      → s.request.client.req ≡ some req
      → generate_key req ≡ key
      → s.request.client.res ≡ some res
      → res.headers_sent ≡ false
      → res.writable_ended ≡ false
      → later ≤ value.expires
      → (lru.find later key (set lru now key value c).store).1 ≡ some c.fresh
      → Serves lru later value res s (new_processor lru later true s (set lru now key value c))
  unfolding new_processor get set
  found-Serves now key value c s req res q k r unsent going fresh found = rw q (
      hit-IsServed _ c.fresh value _ _ res refl (rw k found)
        (ground (arith, nat_beq_iff c.fresh c.fresh)) r unsent going fresh)

length-concat : (bs : List Buffer) → length (concat bs) ≡ total bs
unfolding concat total
length-concat [] = refl
length-concat (b ∷ bs) = length-append b (concat bs) ∙ ap (λ n. length b + n) (length-concat bs)

sized :
    (lru : Lru) (value : CachedResponse)
    → length value.body ≤ size_limit
    → size_calculation lru value ≤ size_limit
sized lru value small = ground arith

-- A cacheable response of at most 5 MB whose chunks were tracked and that was committed is what a
-- later request is served, if its key is the same, its response is not begun, nothing else was put
-- into the cache in between, and the time is within the 5 minutes that the cache holds entries for
-- and not past the expiry that the response's headers give: the upstream's status, all tracked chunks
-- in order as the body, and the sanitized headers of the upstream; the request is then finished. The
-- cache library is to find what was put in last, in the sizes and for the time that it is configured
-- for.
pub stored_is_served :
    (lru : Lru) (date_parse : String → Option ℕ) (now later : ℕ) (p : Processor) (key : String)
    (bs : List Buffer) (c : Cache lru) (s t : RequestScope) (req upstream next : IncomingMessage)
    (res : Response)
    → IsReady p key
    → (key == "") ≡ false
    → s.request.client.req ≡ some req
    → total bs ≤ size_limit
    → ((at after : ℕ) (ref : Ref) (size : ℕ) (store : lru.Store)
        → size ≤ max_size
        → at ≤ after
        → after ≤ at + ttl
        → (lru.find after key (lru.insert at key ref size store)).1 ≡ some ref)
    → now ≤ later
    → later ≤ now + ttl
    → t.request.client.req ≡ some next
    → generate_key next ≡ key
    → t.request.client.res ≡ some res
    → res.headers_sent ≡ false
    → res.writable_ended ≡ false
    → later ≤ get_expiration_timestamp date_parse now upstream.headers 30000
    → Serves lru later
        (entry_of lru date_parse now upstream (concat bs))
        res
        t
        (new_processor lru later true t (commit lru date_parse now (track_all bs p) c s upstream).1)
unfolding set
stored_is_served lru date_parse now later p key bs c s t req upstream next res ready named asked
      small keeps after within q k r unsent going fresh =
    let value = entry_of lru date_parse now upstream (concat bs) in
    let (stored, _) =
      commit_stores lru date_parse now p key bs c s req upstream ready named asked small in
    subst (λ c'. Serves lru later value res t (new_processor lru later true t c')) (sym stored)
      (found-Serves lru later now key value c t next res q k r unsent going fresh (
        keeps now later c.fresh (size_calculation lru value) c.store
          (omega (arith, sized lru value (omega (arith, length-concat bs, small)))) after within))
