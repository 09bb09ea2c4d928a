-- ===== src/Handlers/Handshake/Head.antt =====
-- How the handler's part before the TLS connection ends.
use mitm_core.Prelude.{
  List, ◌++◌, String, Bool, true, false, not, ◌||◌, Option, some, ◌∷◌, if◌then◌else◌, string_eq,
  ◌≡◌, ◌⊎◌,
}
use mitm_core.Net.{Socket, write_socket}
use mitm_core.Signals.{Thrown, signal, PipelineAbortSignal}
use mitm_core.Scope.{RequestScope}
use mitm_core.Handlers.Handshake.{Greeting, Tell, returned, threw, shaken}

-- The handler returns only where the request is hijacked or its socket destroyed, throws only an
-- abort or what the write failed with, and goes on where `P` holds.
abbrev pub Ends : Option Thrown → (RequestScope → Socket → Type 0) → Greeting → Type 0
Ends failure P (returned s k) = (s.lifecycle.is_hijacked ≡ true) ⊎ (k.destroyed ≡ true)
Ends failure P (threw s k e) = ((sig : PipelineAbortSignal) × (e ≡ signal sig)) ⊎ (failure ≡ some e)
Ends failure P (shaken s k) = P s k

abbrev pub is_closed : Socket → Bool
is_closed k = not k.writable || k.destroyed

-- More was written to the socket, if anything, and it is closed if it was.
abbrev pub Grows : Socket → Socket → Type 0
Grows k k' =
    ((lines : List String) × (k'.written ≡ k.written ++ lines))
    × (is_closed k ≡ true → is_closed k' ≡ true)

-- Listeners cannot take back what was written, or open a socket again.
abbrev pub AreFair : Tell → Type 0
AreFair emit = (s : RequestScope) (k : Socket) → Grows k (emit s k).socket

abbrev pub line : String
line = "HTTP/1.1 200 Connection Established\r\n\r\n"

-- The line stands in what was written since, or nothing can be written any more.
abbrev pub IsToldIn : Socket → Socket → Type 0
IsToldIn k k' =
    (is_closed k' ≡ true)
    ⊎ ((before after : List String) × (k'.written ≡ k.written ++ (before ++ line ∷ after)))

-- The handler goes on with a socket that has grown, and not for a hijacked request.
abbrev Grown : Socket → RequestScope → Socket → Type 0
Grown k s k' = Grows k k' × (s.lifecycle.is_hijacked ≡ false)

-- The socket with the line that answers the CONNECT, if it can be written.
abbrev pub answered : Socket → Socket
answered k = if is_closed k then k else write_socket line k

module _ (before_plugins before_events after_plugins after_events : Tell) where
  -- What the handler goes on with: the line is written, and the request is not hijacked.
  abbrev pub IsGreeted : Socket → RequestScope → Socket → Type 0
  IsGreeted k t k' = (t.lifecycle.is_hijacked ≡ false) × IsToldIn k k'

  abbrev pub AllFair : Type 0
  AllFair =
      AreFair before_plugins × AreFair before_events × AreFair after_plugins × AreFair after_events
