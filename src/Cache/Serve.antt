-- ===== src/Cache/Serve.antt =====
-- ResponseCacheProcessor: serving a request from the cache, and storing a response. A method is given
-- the processor, the cache and the scope that it works on, and returns those that it changes. `now`
-- is `Date.now()`.
pub mod Revalidation
pub mod Storing
pub mod Again
use mitm_core.Prelude.{
  ℕ, ◌+◌, String, Bool, true, false, not, ◌&&◌, ◌||◌, Option, none, some, List, [], ◌∷◌, ◌++◌, ◌==◌,
  nat_eq, string_eq, if◌then◌else◌, ltb, leb, mem, or_else, update, length,
}
use mitm_core.Prelude.Assoc.{Assoc, lookup, insert}
use mitm_core.Prelude.Text.{to_lower, join, parse_int}
use mitm_core.Net.{
  Ref, Buffer, Headers, HeaderValue, undef, text, texts, raw, respond, Response, IncomingMessage,
  header_text, header_or_empty,
}
use mitm_core.State.{flag}
use mitm_core.Scope.{RequestScope}
use mitm_core.Assign.{set_res, set_state, set_next_phase}
use mitm_core.Cache.Policy.{size_limit, is_cacheable_response, get_expiration_timestamp}
use mitm_core.Cache.Store.{Lru, Cache, CachedResponse, generate_key}
use mitm_core.Cache.Store
use mitm_core.Cache.Processor.{Processor, sanitize_headers, concat}

-- A cached response was served: the request is finished.
mark_served : RequestScope → RequestScope
mark_served s =
    set_next_phase none
      (set_state "request.finished" (flag true) (set_state "response.cacheHit" (flag true) s))

-- What a `tryServe…` leaves: its answer, and the objects that it may have changed.
pub record Served (lru : Lru) : Type 0 where
  pub answer : Bool
  pub processor : Processor
  pub cache : Cache lru
  pub scope : RequestScope
  pub upstream_res : Option IncomingMessage

module _ (lru : Lru) where
  -- The constructor; `none` is the exception for a scope with no client request.
  unfoldable pub new_processor :
      ℕ → Bool → RequestScope → Cache lru → Option (Processor × Cache lru)
  new_processor now use_response_cache s c =
      let blank : Processor = record {
        use_response_cache = use_response_cache;
        is_cacheable = false;
        cache_key = none;
        cached_res = none;
        response_chunks = [];
        accumulated_bytes = 0;
      } in
      if not use_response_cache then some (blank, c) else elim s.request.client.req [
        | none ↦ none
        | some req ↦
            let key = generate_key req in
            let (c', found) = Store.get lru now key c in
            some (record blank { cache_key = some key; cached_res = found }, c')
      ]

  drop_entry : Option String → Cache lru → Cache lru
  drop_entry none c = c
  drop_entry (some key) c = Store.delete lru key c

  -- A fresh entry is served if the response is not begun.
  serve_fresh : Processor → Ref → Cache lru → RequestScope → Served lru
  serve_fresh p ref c s =
      let unchanged = λ (answer : Bool).
        let r : Served lru = record {
          answer = answer;
          processor = p;
          cache = c;
          scope = s;
          upstream_res = none;
        } in
        r in
      elim s.request.client.res [
        | none ↦ unchanged true
        | some res ↦
            if res.writable_ended
            then unchanged true
            else if res.headers_sent
            then unchanged false
            else record {
              answer = true;
              processor = p;
              cache = c;
              scope = mark_served (
                  set_res
                    (respond (c.entries ref).status (sanitize_headers (c.entries ref).headers)
                      (raw (c.entries ref).body) res)
                    s);
              upstream_res = none;
            }
      ]

  unfoldable pub try_serve_hit : ℕ → Processor → Cache lru → RequestScope → Served lru
  unfolding serve_fresh drop_entry mark_served
  try_serve_hit now p c s =
      let miss : Served lru = record {
        answer = false;
        processor = p;
        cache = c;
        scope = s;
        upstream_res = none;
      } in
      if not p.use_response_cache then miss else elim p.cached_res [
        | none ↦ miss
        | some ref ↦ if leb now (c.entries ref).expires then serve_fresh p ref c s else record {
          answer = false;
          processor = record p { cached_res = none };
          cache = drop_entry p.cache_key c;
          scope = s;
          upstream_res = none;
        }
      ]

  module _ (date_parse : String → Option ℕ) (now : ℕ) where
    -- The 304 is answered from the entry, which lasts longer from now on.
    revalidate :
        Processor → Ref → Cache lru → RequestScope → Response → IncomingMessage → Served lru
    revalidate p ref c s res upstream =
        let entry = c.entries ref in
        let header = λ (name : String). or_else (lookup name upstream.headers) undef in
        let headers =
          insert "expires" (header "expires")
            (insert "cache-control" (header "cache-control") entry.headers) in
        record {
          answer = true;
          processor = p;
          cache = record c {
            entries =
                update ref
                  (record entry {
                    expires = get_expiration_timestamp date_parse now upstream.headers 30000;
                  })
                  c.entries;
          };
          scope =
              mark_served (set_res (respond 200 (sanitize_headers headers) (raw entry.body) res) s);
          upstream_res = some (record upstream { destroyed = true });
        }

    unfoldable pub try_serve_revalidation :
        Processor → Cache lru → RequestScope → IncomingMessage → Served lru
    unfolding revalidate mark_served
    try_serve_revalidation p c s upstream =
        let refuse = λ (u : IncomingMessage).
          let r : Served lru = record {
            answer = false;
            processor = p;
            cache = c;
            scope = s;
            upstream_res = some u;
          } in
          r in
        if not p.use_response_cache then refuse upstream else elim p.cached_res [
          | none ↦ refuse upstream
          | some ref ↦
              if not (or_else upstream.status_code 0 == 304)
              then refuse upstream
              else elim s.request.client.req [
                | none ↦ refuse upstream
                | some req ↦ elim s.request.client.res [
                  | none ↦ refuse upstream
                  | some res ↦
                      if res.headers_sent || res.writable_ended
                      then refuse (record upstream { destroyed = true })
                      else revalidate p ref c s res upstream
                ]
              ]
        ]

    -- `commit`; the status is 0 where the upstream's response has none.
    unfoldable pub commit :
        Processor → Cache lru → RequestScope → IncomingMessage → Processor × Cache lru
    unfolding concat
    commit p c s upstream =
        if not (p.use_response_cache && p.is_cacheable) then (p, c) else elim p.cache_key [
          | none ↦ (p, c)
          | some key ↦ elim s.request.client.req [
            | none ↦ (p, c)
            | some req ↦ if key == "" then (p, c) else (
              record p { response_chunks = [] },
              Store.set lru now key
                  (record {
                    status = or_else upstream.status_code 0;
                    etag = some (header_or_empty "etag" upstream.headers);
                    headers = upstream.headers;
                    body = concat p.response_chunks;
                    expires = get_expiration_timestamp date_parse now upstream.headers 30000;
                  })
                  c,
            )
          ]
        ]
