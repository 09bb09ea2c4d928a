-- ===== src/Cache/Policy/Safety.antt =====
-- What is never stored.
use mitm_core.Prelude.{
  ℕ, ◌≤◌, Bool, true, false, not, ◌&&◌, ◌||◌, ◌≡◌, ◌⊎◌, some, arith, nat_eq, string_eq, or_else,
  mem, ltb, ◌==◌, if◌then◌else◌,
}
use mitm_core.Prelude.Text.{includes}
use mitm_core.Net.{IncomingMessage, header_or_empty}
use mitm_core.Cache.Policy.{
  cacheable_status_codes, size_limit, forbids, is_explicitly_public, is_stream, has_known_end,
  is_present, has_method, lower_header, is_cacheable_response,
}

-- What holds of a request and a response that may be stored.
pub record IsStorable (req res : IncomingMessage) (body_size : ℕ) : Type 0 where
  pub method : (has_method "GET" req ≡ true) ⊎ (has_method "HEAD" req ≡ true)
  pub status : mem (or_else res.status_code 0) cacheable_status_codes ≡ true
  pub no_store : includes (lower_header "cache-control" res.headers) "no-store" ≡ false
  pub no_cache : includes (lower_header "cache-control" res.headers) "no-cache" ≡ false
  pub no_pragma : includes (lower_header "pragma" res.headers) "no-cache" ≡ false
  pub no_vary_all : (header_or_empty "vary" res.headers == "*") ≡ false
  pub no_private : includes (lower_header "cache-control" res.headers) "private" ≡ false
  pub authorized :
      (is_present "authorization" req.headers ≡ false)
      ⊎ (includes (lower_header "cache-control" res.headers) "public" ≡ true)
      ⊎ (includes (lower_header "cache-control" res.headers) "must-revalidate" ≡ true)
      ⊎ (includes (lower_header "cache-control" res.headers) "s-maxage" ≡ true)
  pub no_event_stream :
      includes (lower_header "content-type" res.headers) "text/event-stream" ≡ false
  pub no_upgrade : includes (lower_header "upgrade" req.headers) "websocket" ≡ false
  pub small : body_size ≤ size_limit

negated : {b : Bool} → not b ≡ false → b ≡ true
negated {b} h = ground arith

either_method : {a b : Bool} → (not a && not b) ≡ false → (a ≡ true) ⊎ (b ≡ true)
either_method {a} {b} h = ground arith

or4_false :
    (a b c d : Bool)
    → (a || b || c || d) ≡ false
    → (a ≡ false) × (b ≡ false) × (c ≡ false) × (d ≡ false)
or4_false a b c d h = ground arith

or3_false : (a b c : Bool) → (a || b || c) ≡ false → (a ≡ false) × (b ≡ false) × (c ≡ false)
or3_false a b c h = ground arith

either_public :
    (a b c d : Bool)
    → (a && not (b || c || d)) ≡ false
    → (a ≡ false) ⊎ (b ≡ true) ⊎ (c ≡ true) ⊎ (d ≡ true)
either_public a b c d h = ground arith

not_ltb : (a b : ℕ) → ltb a b ≡ false → b ≤ a
not_ltb a b h = ground arith

gates :
    (a b c d e f g k r : Bool)
    → (if a
        then false
        else if b
        then false
        else if c
        then false
        else if d
        then false
        else if e
        then false
        else if f
        then false
        else if g
        then false
        else if k
        then false
        else r)
      ≡ true
    → (a ≡ false)
      × (b ≡ false)
      × (c ≡ false)
      × (d ≡ false)
      × (e ≡ false)
      × (f ≡ false)
      × (g ≡ false)
      × (k ≡ false)
gates a b c d e f g k r h = ground arith

storable :
    (req res : IncomingMessage) (body_size : ℕ)
    → let control = lower_header "cache-control" res.headers in
      (not (has_method "GET" req) && not (has_method "HEAD" req)) ≡ false
      → not (mem (or_else res.status_code 0) cacheable_status_codes) ≡ false
      → forbids control (lower_header "pragma" res.headers) (header_or_empty "vary" res.headers)
        ≡ false
      → (is_present "authorization" req.headers && not (is_explicitly_public control)) ≡ false
      → includes control "private" ≡ false
      → is_stream req res ≡ false
      → ltb size_limit body_size ≡ false
      → IsStorable req res body_size
unfolding forbids is_explicitly_public is_stream
storable req res body_size a b c d e f g =
    let control = lower_header "cache-control" res.headers in
    let (no_store, no_cache, no_pragma, no_vary_all) =
      or4_false (includes control "no-store") (includes control "no-cache")
        (includes (lower_header "pragma" res.headers) "no-cache")
        (header_or_empty "vary" res.headers == "*") c in
    let (no_accept, no_event_stream, no_upgrade) =
      or3_false (includes (lower_header "accept" req.headers) "text/event-stream")
        (includes (lower_header "content-type" res.headers) "text/event-stream")
        (includes (lower_header "upgrade" req.headers) "websocket") f in
    record {
      method = either_method a;
      status = negated b;
      no_store = no_store;
      no_cache = no_cache;
      no_pragma = no_pragma;
      no_vary_all = no_vary_all;
      no_private = e;
      authorized =
          either_public (is_present "authorization" req.headers) (includes control "public")
            (includes control "must-revalidate") (includes control "s-maxage") d;
      no_event_stream = no_event_stream;
      no_upgrade = no_upgrade;
      small = not_ltb size_limit body_size g;
    }

-- A response that passes the test answers a GET or HEAD with a cacheable status, is not marked
-- no-store, no-cache or private, has no `Vary: *`, is explicitly public if the request carried
-- credentials, is no event stream or WebSocket upgrade, and has at most 5 MB.
pub is_cacheable_response-IsStorable :
    (req res : IncomingMessage) (body_size : ℕ)
    → is_cacheable_response (some req) (some res) body_size ≡ true
    → IsStorable req res body_size
unfolding is_cacheable_response
is_cacheable_response-IsStorable req res body_size h =
    let control = lower_header "cache-control" res.headers in
    let (a, b, c, d, e, f, g, k) =
      gates (not (has_method "GET" req) && not (has_method "HEAD" req))
        (not (mem (or_else res.status_code 0) cacheable_status_codes))
        (forbids control (lower_header "pragma" res.headers) (header_or_empty "vary" res.headers))
        (is_present "authorization" req.headers && not (is_explicitly_public control))
        (includes control "private") (is_stream req res) (not (has_known_end res))
        (ltb size_limit body_size) _ h in
    storable req res body_size a b c d e f k
