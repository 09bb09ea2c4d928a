-- ===== src/Cache/Policy.antt =====
-- ResponseCache.isCacheableResponse and getExpirationTimestamp. `now` is `Date.now()`; `date_parse`
-- is `Date.parse`, whose reading of a date is the runtime's: `none` stands for NaN.
pub mod Safety
use mitm_core.Prelude.{
  ℕ, ◌+◌, ◌*◌, String, Bool, true, false, not, ◌&&◌, ◌||◌, Option, none, some, List, [], ◌∷◌, ◌==◌,
  nat_eq, string_eq, if◌then◌else◌, leb, ltb, mem, or_else, max,
}
use mitm_core.Prelude.Assoc.{lookup}
use mitm_core.Prelude.Text.{includes, starts_with, to_lower, join, match_number}
use mitm_core.Net.{
  Headers, HeaderValue, undef, text, texts, IncomingMessage, header_text, header_or_empty,
}

abbrev pub cacheable_status_codes : List ℕ
cacheable_status_codes = 200 ∷ 203 ∷ 204 ∷ 206 ∷ 300 ∷ 301 ∷ 302 ∷ 307 ∷ 308 ∷ 404 ∷ 410 ∷ []

-- `sizeLimit` of `isCacheableResponse` and `MAX_CACHE_MEMORY_LIMIT`, 5 MB each.
abbrev pub size_limit : ℕ
size_limit = 5242880

-- `headers[name]` as a condition: a text that is not empty, or an array.
abbrev pub is_present : String → Headers → Bool
is_present name headers = elim (lookup name headers) [
  | none ↦ false
  | some v ↦ elim v [ undef ↦ false | text t ↦ not (t == "") | texts l ↦ true ]
]

abbrev pub has_method : String → IncomingMessage → Bool
has_method name req = elim req.method [ none ↦ false | some m ↦ m == name ]

abbrev pub lower_header : String → Headers → String
lower_header name headers = to_lower (header_or_empty name headers)

unfoldable pub forbids : String → String → String → Bool
forbids cache_control pragma vary =
    includes cache_control "no-store"
    || includes cache_control "no-cache"
    || includes pragma "no-cache"
    || vary == "*"

unfoldable pub is_explicitly_public : String → Bool
is_explicitly_public cache_control =
    includes cache_control "public"
    || includes cache_control "must-revalidate"
    || includes cache_control "s-maxage"

unfoldable pub is_stream : IncomingMessage → IncomingMessage → Bool
is_stream req res =
    includes (lower_header "accept" req.headers) "text/event-stream"
    || includes (lower_header "content-type" res.headers) "text/event-stream"
    || includes (lower_header "upgrade" req.headers) "websocket"

unfoldable pub has_known_end : IncomingMessage → Bool
has_known_end res =
    is_present "content-length" res.headers || (elim (header_text "transfer-encoding" res.headers) [
      | none ↦ false
      | some t ↦ t == "chunked"
    ])

unfoldable pub is_cachable_type : String → Bool
is_cachable_type content_type =
    includes content_type "text/css"
    || includes content_type "javascript"
    || includes content_type "json"
    || starts_with content_type "image/"
    || starts_with content_type "font/"

unfoldable pub cacheable : IncomingMessage → IncomingMessage → ℕ → Bool
unfolding forbids is_explicitly_public is_stream has_known_end is_cachable_type
cacheable req res body_size =
    let status = or_else res.status_code 0 in
    let cache_control = lower_header "cache-control" res.headers in
    let pragma = lower_header "pragma" res.headers in
    let vary = header_or_empty "vary" res.headers in
    if not (has_method "GET" req) && not (has_method "HEAD" req)
    then false
    else if not (mem status cacheable_status_codes)
    then false
    else if forbids cache_control pragma vary
    then false
    else if is_present "authorization" req.headers && not (is_explicitly_public cache_control)
    then false
    else if includes cache_control "private"
    then false
    else if is_stream req res
    then false
    else if not (has_known_end res)
    then false
    else if ltb size_limit body_size
    then false
    else if leb 300 status || status == 204
    then true
    else is_cachable_type (header_or_empty "content-type" res.headers)

unfoldable pub is_cacheable_response : Option IncomingMessage → Option IncomingMessage → ℕ → Bool
unfolding cacheable
is_cacheable_response none _ body_size = false
is_cacheable_response (some req) none body_size = false
is_cacheable_response (some req) (some res) body_size = cacheable req res body_size

-- `getNormalizedHeader`.
unfoldable pub normalized_header : String → Headers → String
normalized_header name headers = elim (lookup (to_lower name) headers) [
  | none ↦ ""
  | some v ↦ elim v [ undef ↦ "" | text t ↦ to_lower t | texts l ↦ to_lower (join ", " l) ]
]

module _ (date_parse : String → Option ℕ) where
  -- The `Expires` header, and the fallback.
  unfoldable pub expires_or : ℕ → Headers → ℕ → ℕ
  expires_or now headers default_ttl_ms = elim (header_text "expires" headers) [
    | none ↦ now + default_ttl_ms
    | some expires ↦
        if expires == ""
        then now + default_ttl_ms
        else elim (date_parse expires) [ none ↦ now + default_ttl_ms | some date ↦ max now date ]
  ]

  unfoldable pub get_expiration_timestamp : ℕ → Headers → ℕ → ℕ
  unfolding expires_or normalized_header
  get_expiration_timestamp now headers default_ttl_ms =
      let cache_control = normalized_header "cache-control" headers in
      if cache_control == ""
      then expires_or now headers default_ttl_ms
      else if includes cache_control "no-store"
      then 0
      else if includes cache_control "no-cache" || includes cache_control "must-revalidate"
      then now
      else elim (match_number "s-maxage=" cache_control) [
        | some seconds ↦ now + seconds * 1000
        | none ↦ elim (match_number "max-age=" cache_control) [
          | some seconds ↦ if seconds == 0 then now else now + seconds * 1000
          | none ↦ expires_or now headers default_ttl_ms
        ]
      ]
