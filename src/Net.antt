-- ===== src/Net.antt =====
-- The objects of Node's `http` and `net` modules that the source holds and changes, with what it
-- calls on them: a server response, a socket, an incoming message and an outgoing request.
use mitm_core.Prelude.{
  string_eq, ℕ, String, Bool, true, false, Option, none, some, List, [], ◌∷◌, ◌++◌, if◌then◌else◌,
  or_else,
}
use mitm_core.Prelude.Assoc.{Assoc, lookup}

abbrev pub Buffer : Type 0
Buffer = List ℕ

-- A value that the source passes on without looking at it.
abbrev pub Ref : Type 0
Ref = ℕ

-- `string | string[] | undefined`; `null` is read like `undefined`.
pub data HeaderValue : Type 0 where
  undef : HeaderValue
  text : String → HeaderValue
  texts : List String → HeaderValue

abbrev pub Headers : Type 0
Headers = Assoc String HeaderValue

-- What `end` is given: text, bytes, or `JSON.stringify` of an object with these text fields and,
-- where the source puts one, the request's id.
pub data Body : Type 0 where
  json : List (String × String) → Option Ref → Body
  chars : String → Body
  raw : Buffer → Body

-- `ServerResponse`.
pub record Response : Type 0 where
  pub status_code : ℕ
  pub headers : Headers
  pub body : Option Body
  pub headers_sent : Bool
  pub writable : Bool
  pub writable_ended : Bool
  pub destroyed : Bool

-- `res.writeHead(status, headers)`; `none` is the exception for headers that were sent before.
abbrev pub write_head : ℕ → Headers → Response → Option Response
write_head status headers res =
    if res.headers_sent
    then none
    else some (record res { status_code = status; headers = headers; headers_sent = true })

-- `res.end(body)`; a second `end` changes nothing.
abbrev pub end_with : Body → Response → Response
end_with body res =
    if res.writable_ended
    then res
    else record res { body = some body; headers_sent = true; writable_ended = true }

abbrev pub destroy_response : Response → Response
destroy_response res = record res { destroyed = true; writable = false }

-- `net.Socket` and `stream.Duplex`; `id` is the object's identity, and the lists are what was written to it, and what `unshift` put back to be read.
pub record Socket : Type 0 where
  pub id : Ref
  pub destroyed : Bool
  pub writable : Bool
  pub encrypted : Bool
  pub no_delay : Bool
  pub written : List String
  pub unread : List Buffer

abbrev pub write_socket : String → Socket → Socket
write_socket line socket = record socket { written = socket.written ++ line ∷ [] }

abbrev pub end_socket : String → Socket → Socket
end_socket line socket = record socket { written = socket.written ++ line ∷ []; writable = false }

abbrev pub destroy_socket : Socket → Socket
destroy_socket socket = record socket { destroyed = true; writable = false }

-- `IncomingMessage`, the client's request and the upstream's response.
pub record IncomingMessage : Type 0 where
  pub method : Option String
  pub url : Option String
  pub status_code : Option ℕ
  pub http_version : Option String
  pub headers : Headers
  pub encrypted : Bool
  pub destroyed : Bool

-- `ClientRequest`, the request sent upstream.
pub record ClientRequest : Type 0 where
  pub id : Ref
  pub method : Option String
  pub headers : Headers
  pub destroyed : Bool

-- A header that holds one text.
abbrev pub header_text : String → Headers → Option String
header_text name headers = elim (lookup name headers) [
  | none ↦ none
  | some v ↦ elim v [ undef ↦ none | text t ↦ some t | texts l ↦ none ]
]

-- `headers[name] || ""`.
abbrev pub header_or_empty : String → Headers → String
header_or_empty name headers = or_else (header_text name headers) ""

-- `writeHead` and `end` on a response whose head is not sent: the callers test that first.
abbrev pub respond : ℕ → Headers → Body → Response → Response
respond status headers body res =
    end_with body (record res { status_code = status; headers = headers; headers_sent = true })
