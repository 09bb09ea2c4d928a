-- ===== src/Scope.antt =====
-- core/scope/types.ts: the session, the request and the lifecycle that one transaction shares.
-- A model of the object graph by value: `scope.request.client.res` is the response itself.
use mitm_core.Prelude.{ℕ, String, Bool, Option, List}
use mitm_core.Prelude.Assoc.{Assoc}
use mitm_core.Net.{Buffer, Ref, Headers, Response, Socket, IncomingMessage, ClientRequest}
use mitm_core.Phase.{Phase}
use mitm_core.Signals.{AbortReason, Thrown}
use mitm_core.State.{StateStore}

pub record ExplicitHeaderOverrides : Type 0 where
  pub request_overrides : Option Headers
  pub response_overrides : Option Headers
  pub request_headers_to_remove : Option (List String)
  pub response_headers_to_remove : Option (List String)

pub data ConnectionType : Type 0 where
  tcp http https : ConnectionType

pub data HttpVersion : Type 0 where
  h1 h2 h3 unknown : HttpVersion

pub record Protocol : Type 0 where
  pub connection_type : Option ConnectionType
  pub http_version : Option HttpVersion

pub record Certificate : Type 0 where
  pub cert : Buffer
  pub key : Buffer

pub record SessionContext : Type 0 where
  pub connection_id : Ref
  pub socket : Socket
  pub protocol : Protocol
  pub head : Option Buffer
  pub custom_certificates : Option (Assoc String Certificate)

pub record WebSocketContext : Type 0 where
  pub is_upgraded : Bool
  pub subprotocol : Option String
  pub client : Option Ref
  pub upstream : Option Ref
  pub raw_upgrade_socket : Option Socket
  pub upgrade_head : Option Buffer

pub record ClientSide : Type 0 where
  pub req : Option IncomingMessage
  pub res : Option Response
  pub method : Option String
  pub url : Option String
  pub headers : Option Headers

pub record UpstreamSide : Type 0 where
  pub req : Option ClientRequest
  pub res : Option IncomingMessage

pub record Target : Type 0 where
  pub original_host : Option String
  pub original_url : Option String
  pub host : Option String
  pub url : Option String

pub record RequestContext : Type 0 where
  pub request_id : Ref
  pub client : ClientSide
  pub upstream : UpstreamSide
  pub target : Target
  pub web_socket : Option WebSocketContext
  pub explicit_header_overrides : Option ExplicitHeaderOverrides

-- `AbortMessage` with the phase and the time.
pub record PipelineAbortState : Type 0 where
  pub message : String
  pub reason : Option AbortReason
  pub plugin : Option Ref
  pub event : Option String
  pub cause : Option Ref
  pub phase : Phase
  pub aborted_at : ℕ

pub data FailureDisposition : Type 0 where
  recoverable terminal : FailureDisposition

pub data FailureScope : Type 0 where
  request connection : FailureScope

pub record PipelineFailureState : Type 0 where
  pub message : String
  pub phase : Phase
  pub failed_at : ℕ
  pub disposition : FailureDisposition
  pub scope : FailureScope
  pub code : Option String
  pub cause : Option Thrown

pub record Timestamps : Type 0 where
  pub received_at : ℕ
  pub upstream_sent_at : Option ℕ
  pub upstream_received_at : Option ℕ
  pub responded_at : Option ℕ
  pub duration : Option ℕ

pub record RequestLifecycle : Type 0 where
  pub is_hijacked : Bool
  pub timestamps : Timestamps
  pub next_phase : Option Phase
  pub state : StateStore
  pub abort : Option PipelineAbortState
  pub failure : Option PipelineFailureState

-- `reported` is the trace of `reportProxyError`: what the listeners of "error" were handed.
pub record RequestScope : Type 0 where
  pub session : SessionContext
  pub request : RequestContext
  pub lifecycle : RequestLifecycle
  pub reported : List Thrown
