-- ===== src/Signals.antt =====
-- core/signals: what the source throws to stop a pipeline, and every other thrown value.
use mitm_core.Prelude.{String, Option, none, some}
use mitm_core.Net.{Ref}

pub data AbortReason : Type 0 where
  policy plugin user internal : AbortReason

pub record AbortMessage : Type 0 where
  pub message : String
  pub reason : Option AbortReason
  pub plugin : Option Ref
  pub event : Option String
  pub cause : Option Ref

pub record PipelineAbortSignal : Type 0 where
  pub message : String
  pub details : Option AbortMessage
  pub cause : Option Ref

-- The constructor's argument: `AbortMessage | string`, or none.
pub data AbortPayload : Type 0 where
  default : AbortPayload
  plain : String → AbortPayload
  structured : AbortMessage → AbortPayload

unfoldable pub abort_signal : AbortPayload → PipelineAbortSignal
abort_signal default = record {
  message = "Pipeline halted intentionally";
  details = none;
  cause = none;
}
abort_signal (plain message) = record { message = message; details = none; cause = none }
abort_signal (structured payload) = record {
  message = payload.message;
  details = some payload;
  cause = payload.cause;
}

-- A thrown value: the signal, an `Error`, an object that is none, or a primitive. A `code` is given
-- where it is a string; `shown` is `String(value)`.
pub data Thrown : Type 0 where
  signal : PipelineAbortSignal → Thrown
  error : (message : String) (code : Option String) → Thrown
  object : (message code : Option String) (shown : String) → Thrown
  primitive : (shown : String) → Thrown
