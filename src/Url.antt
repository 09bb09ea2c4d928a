-- ===== src/Url.antt =====
-- utils/parser/parseReqData.ts. `URL` is the platform's, so its operations are a parameter.
use Prim.Native.String.{◌++◌}
use mitm_core.Prelude.{
  ℕ, String, Bool, ◌||◌, Option, none, some, if◌then◌else◌, or_else, ◌==◌, string_eq,
}
use mitm_core.Prelude.Text.{to_lower, starts_with, parse_int, strip_brackets}
use mitm_core.Net.{IncomingMessage, Socket, header_or_empty}

-- The parts of a `URL` that the source reads; `port` is empty for the scheme's default.
pub record Url : Type 0 where
  pub protocol : String
  pub host : String
  pub hostname : String
  pub port : String
  pub pathname : String
  pub search : String
  pub href : String

-- `new URL(text)`, `new URL(path, base)`, and the assignments to `port` and `protocol`; `none` is
-- the exception for what is no URL.
pub record UrlLib : Type 0 where
  pub parse : String → Option Url
  pub parse_from : String → String → Option Url
  pub with_port : String → Url → Url
  pub with_protocol : String → Url → Url

pub record ConnectData : Type 0 where
  pub host : String
  pub port : Option ℕ
  pub url : String

pub data ApplicationProtocol : Type 0 where
  websocket http : ApplicationProtocol

pub record RequestData : Type 0 where
  pub protocol : String
  pub host : String
  pub port : ℕ
  pub path : String
  pub full_url : String
  pub is_encrypted : Bool
  pub application_protocol : ApplicationProtocol

-- `url.port ? Number(url.port) : default`.
abbrev port_or : String → ℕ → ℕ
port_or port default = if port == "" then default else or_else (parse_int port) 0

no_target : String → ConnectData
no_target url = record { host = ""; port = none; url = url }

-- `Option.elim` with an empty text counted as none, as `!value` reads it.
abbrev pub non_empty : Option String → Option String
non_empty none = none
non_empty (some t) = if t == "" then none else some t

module _ (lib : UrlLib) where
  unfoldable pub parse_connect_data : IncomingMessage → ConnectData
  unfolding no_target
  parse_connect_data req = elim (non_empty req.url) [
    | none ↦ no_target ""
    | some target ↦ elim (lib.parse ("http://" ++ target)) [
      | none ↦ no_target target
      | some url ↦ record {
        host = strip_brackets url.hostname;
        port = some (port_or url.port 443);
        url = target;
      }
    ]
  ]

  -- `forceEncrypted ?? (socket instanceof tls.TLSSocket || socket.encrypted === true)`, where the
  -- socket is the one given or the request's own; a `TLSSocket` is always `encrypted`.
  unfoldable pub is_encrypted : IncomingMessage → Option Socket → Option Bool → Bool
  is_encrypted req none none = req.encrypted
  is_encrypted req (some socket) none = socket.encrypted
  is_encrypted req _ (some forced) = forced

  unfoldable pub raw_url : IncomingMessage → Bool → String
  raw_url req encrypted =
      let path = or_else (non_empty req.url) "/" in
      let scheme = if encrypted then "https:" else "http:" in
      if starts_with path "http://" || starts_with path "https://"
      then path
      else scheme ++ "//" ++ header_or_empty "host" req.headers ++ path

  -- `none` is the exception of `new URL`.
  unfoldable pub parse_http_request_data :
      IncomingMessage → Option Socket → Option Bool → Option RequestData
  unfolding is_encrypted raw_url
  parse_http_request_data req socket_override force_encrypted =
      let encrypted = is_encrypted req socket_override force_encrypted in
      elim (lib.parse (raw_url req encrypted)) [
        | none ↦ none
        | some url ↦ some (record {
          protocol = url.protocol;
          host = url.hostname;
          port = port_or url.port (if encrypted then 443 else 80);
          path = url.pathname ++ url.search;
          full_url = url.href;
          is_encrypted = encrypted;
          application_protocol =
              if to_lower (header_or_empty "upgrade" req.headers) == "websocket"
              then websocket
              else http;
        })
      ]
