-- ===== src/Transport/Ws/Dial.antt =====
-- WSUpstreamInitiator.ts: the request that opens the upstream side.
use Prim.Native.String.{◌++◌ as append}
use mitm_core.Prelude.{
  string_eq, String, Bool, ◌||◌, not, ◌&&◌, Option, none, some, List, [], ◌∷◌, if◌then◌else◌, ◌==◌,
  or_else, ◌⊎◌, inl, inr, ◌≡◌, refl, arith, eq_iff,
}
use mitm_core.Prelude.Assoc.{lookup, insert, lookup-insert}
use mitm_core.Net.{IncomingMessage, Headers, HeaderValue, text, header_or_empty}
use mitm_core.Signals.{Thrown, error}
use mitm_core.Url.{Url, non_empty}

-- The options of the request; `port` is a text as `URL` has it, or the scheme's default.
pub record WsOptions : Type 0 where
  pub is_secure : Bool
  pub hostname : String
  pub port : String
  pub method : String
  pub path : String
  pub headers : Headers
  pub server_name : Option String

-- A header of the client's that is passed on where it is a text that is not empty.
copied : String → IncomingMessage → Headers → Headers
copied name req headers =
    let value = header_or_empty name req.headers in
    if value == "" then headers else insert name (text value) headers

base_headers : Url → String → Headers
base_headers url key =
    ("host", text url.host)
    ∷ ("connection", text "Upgrade")
    ∷ ("upgrade", text "websocket")
    ∷ ("sec-websocket-version", text "13")
    ∷ ("sec-websocket-key", text key)
    ∷ []

-- `key` is the base64 of sixteen random bytes.
unfoldable pub request_headers : Url → String → IncomingMessage → Headers
unfolding copied base_headers
request_headers url key req =
    copied "cookie" req (copied "user-agent" req (copied "origin" req (base_headers url key)))

unfoldable pub is_secure_url : Url → Bool
is_secure_url url = url.protocol == "wss:" || url.protocol == "https:"

-- `WSUpstreamInitiator.init`: what it throws, or the options that it calls `request` with.
unfoldable pub dial : Url → String → IncomingMessage → Thrown ⊎ WsOptions
unfolding request_headers is_secure_url
dial url key req =
    let secure = is_secure_url url in
    if not secure && not (url.protocol == "ws:") && not (url.protocol == "http:")
    then inl (error (append "Unsupported WebSocket protocol: " url.protocol) none)
    else inr (record {
      is_secure = secure;
      hostname = url.hostname;
      port = or_else (non_empty (some url.port)) (if secure then "443" else "80");
      method = or_else (non_empty req.method) "GET";
      path = append url.pathname url.search;
      headers = request_headers url key req;
      server_name = if secure then some url.hostname else none;
    })

-- The names that a handshake may carry: the five of the proxy's own, and three of the client's.
abbrev pub handshake_names : List String
handshake_names =
    "host" ∷ "connection" ∷ "upgrade" ∷ "sec-websocket-version" ∷ "sec-websocket-key" ∷ "origin"
    ∷ "user-agent" ∷ "cookie" ∷ []

lookup-copied :
    (name other : String) (req : IncomingMessage) (headers : Headers)
    → lookup other (copied name req headers) ≡ (
        if header_or_empty name req.headers == ""
        then lookup other headers
        else if name == other
        then some (text (header_or_empty name req.headers))
        else lookup other headers)
unfolding copied
lookup-copied name other req headers =
    ground (arith, lookup-insert name other (text (header_or_empty name req.headers)) headers)

abbrev is_copied : String → Bool
is_copied name = name == "cookie" || name == "user-agent" || name == "origin"

-- The header of this name that the handshake should carry: one of the client's three where it sent
-- a text that is not empty, or one of the proxy's own five.
unfoldable pub header_of : Url → String → IncomingMessage → String → Option HeaderValue
unfolding base_headers
header_of url key req name =
    if is_copied name
    then (if header_or_empty name req.headers == ""
        then none
        else some (text (header_or_empty name req.headers)))
    else lookup name (base_headers url key)

base_cookie : (url : Url) (key : String) → lookup "cookie" (base_headers url key) ≡ none
unfolding lookup base_headers
base_cookie url key = refl

base_user_agent : (url : Url) (key : String) → lookup "user-agent" (base_headers url key) ≡ none
unfolding lookup base_headers
base_user_agent url key = refl

base_origin : (url : Url) (key : String) → lookup "origin" (base_headers url key) ≡ none
unfolding lookup base_headers
base_origin url key = refl

-- Whatever the client sends, the headers of the handshake are those that `header_of` gives, and no
-- others: none of its other headers is passed on, and none of the three replaces one of the five.
pub request_headers_lem :
    (url : Url) (key : String) (req : IncomingMessage) (name : String)
    → lookup name (request_headers url key req) ≡ header_of url key req name
unfolding request_headers header_of
request_headers_lem url key req name =
    let base = base_headers url key in
    let first = copied "origin" req base in
    ground (
      arith,
      eq_iff name "cookie",
      eq_iff "cookie" name,
      eq_iff name "user-agent",
      eq_iff "user-agent" name,
      eq_iff name "origin",
      eq_iff "origin" name,
      lookup-copied "cookie" name req (copied "user-agent" req first),
      lookup-copied "user-agent" name req first,
      lookup-copied "origin" name req base,
      base_cookie url key,
      base_user_agent url key,
      base_origin url key,
    )
