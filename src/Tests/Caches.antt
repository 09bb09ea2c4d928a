-- ===== src/Tests/Caches.antt =====
-- The cache at a request and a response of the tests.
use mitm_core.Prelude.{
  ◌+◌, ◌≤◌, leb, if◌then◌else◌, ℕ, ◌≡◌, refl, String, true, false, Option, none, some, [], ◌∷◌, All,
  arith, nat_eq, string_eq,
}
use mitm_core.Prelude.Assoc.{Assoc, lookup, insert, remove, lookup-remove_self, lookup-insert_self}
use mitm_core.Prelude.Text.{to_lower, match_number}
use mitm_core.Net.{Ref, Headers, text, texts}
use mitm_core.Cache.Policy.{is_cacheable_response, get_expiration_timestamp}
use mitm_core.Cache.Policy.Safety.{IsStorable, is_cacheable_response-IsStorable}
use mitm_core.Cache.Store.{ttl, generate_key, Lru, Cache, CachedResponse}
use mitm_core.Cache.Processor.{Processor, sanitize_headers, concat}
use mitm_core.Cache.Processor.Sanitizing.{IsServable, sanitize_headers-IsServable}
use mitm_core.Cache.Processor.Buffering.{track_all, total}
use mitm_core.Cache.Serve.{new_processor, commit, try_serve_hit, try_serve_revalidation}
use mitm_core.Cache.Serve.Revalidation.{revalidation_never}
use mitm_core.Cache.Serve.Storing.{IsReady}
use mitm_core.Cache.Serve.Again.{Serves, stored_is_served}
use mitm_core.Tests.Samples.{sample_res, sample_scope, sample_req, sample_upstream_res}

-- A store that evicts an entry only when it is older than the `ttl`.
abbrev pub within_ttl : ℕ → Option (ℕ × Ref) → Option Ref
within_ttl now none = none
within_ttl now (some (at, ref)) = if leb now (at + ttl) then some ref else none

lookup-within_ttl :
    (at after : ℕ) (key : String) (ref : Ref) (s : Assoc String (ℕ × Ref))
    → after ≤ at + ttl
    → within_ttl after (lookup key (insert key (at, ref) s)) ≡ some ref
lookup-within_ttl at after key ref s h = rw (lookup-insert_self key (at, ref) s) ground arith

abbrev pub keeping_lru : Lru
keeping_lru = record {
  Store = Assoc String (ℕ × Ref);
  find = λ now key s. (s, within_ttl now (lookup key s));
  insert = λ now key ref size s. insert key (now, ref) s;
  delete = λ key s. remove key s;
  find-delete = λ now key s. rw (lookup-remove_self key s) refl;
}

abbrev pub no_dates : String → Option ℕ
no_dates date = none

abbrev pub stale : CachedResponse
stale = record { status = 200; etag = some "e1"; headers = []; body = 1 ∷ []; expires = 4 }

abbrev pub sample_cache : Cache keeping_lru
sample_cache = record { store = ("k", (0, 0)) ∷ []; entries = λ _. stale; fresh = 1 }

abbrev pub sample_processor : Processor
sample_processor = record {
  use_response_cache = true;
  is_cacheable = true;
  cache_key = some "k";
  cached_res = some 0;
  response_chunks = [];
  accumulated_bytes = 0;
}

is_cacheable_response-IsStorable_example : IsStorable sample_req sample_upstream_res 3
unfolding is_cacheable_response to_lower lookup
is_cacheable_response-IsStorable_example =
    is_cacheable_response-IsStorable sample_req sample_upstream_res 3 refl

abbrev with_cookie : Headers
with_cookie = ("Set-Cookie", texts ("a=1" ∷ [])) ∷ ("ETag", text "e") ∷ []

sanitize_headers-IsServable_example : All IsServable (sanitize_headers with_cookie)
sanitize_headers-IsServable_example = sanitize_headers-IsServable with_cookie

abbrev keyed_processor : Processor
keyed_processor = record sample_processor { cache_key = some "GET:example.org/index.css:identity" }

keyed-IsReady : IsReady keyed_processor "GET:example.org/index.css:identity"
keyed-IsReady = record { used = refl; cacheable = refl; keyed = refl; empty = refl; unread = refl }

-- The response is stored at the time 5, and the request is made again at 9.
stored_is_served_example :
    Serves keeping_lru 9
      (record {
        status = 200;
        etag = some "";
        headers = sample_upstream_res.headers;
        body = 1 ∷ 2 ∷ [];
        expires = 60005;
      })
      sample_res
      sample_scope
      (new_processor keeping_lru 9 true sample_scope
        (commit keeping_lru no_dates 5
          (track_all ((1 ∷ []) ∷ (2 ∷ []) ∷ []) keyed_processor)
          sample_cache
          sample_scope
          sample_upstream_res).1)
unfolding total concat generate_key lookup get_expiration_timestamp to_lower match_number
stored_is_served_example =
    stored_is_served keeping_lru no_dates 5 9 keyed_processor "GET:example.org/index.css:identity"
      ((1 ∷ []) ∷ (2 ∷ []) ∷ []) sample_cache sample_scope sample_scope sample_req
      sample_upstream_res sample_req sample_res keyed-IsReady refl refl (omega arith)
      (λ at after ref size store small late within.
        lookup-within_ttl at after "GET:example.org/index.css:identity" ref store within)
      (omega arith) (omega arith) refl refl refl refl refl (omega arith)

revalidation_never_example :
    (try_serve_revalidation keeping_lru no_dates 8
      (try_serve_hit keeping_lru 5 sample_processor sample_cache sample_scope).processor
      sample_cache
      sample_scope
      (record sample_upstream_res { status_code = some 304 })).answer
    ≡ false
unfolding try_serve_hit
revalidation_never_example =
    revalidation_never keeping_lru no_dates 5 8 sample_processor sample_cache sample_cache
      sample_scope sample_scope (record sample_upstream_res { status_code = some 304 }) refl
      (λ h. h)
