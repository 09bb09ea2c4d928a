-- ===== src/Streams.antt =====
-- core/utils: the cleanup of several streams (ProxyUtils.ts), and the guard of a socket
-- (SocketGuard.ts).
pub mod Guarded
use mitm_core.Prelude.{
  ℕ, String, Bool, true, false, not, ◌&&◌, ◌||◌, Option, none, some, List, [], ◌∷◌, ◌++◌,
  if◌then◌else◌, map, mem, nat_eq, string_eq, or_else, ◌==◌,
}
use mitm_core.Net.{Ref}
use mitm_core.Signals.{Thrown}

-- A method of a stream: the stream has none, or it works, or it throws.
pub data Method : Type 0 where
  absent works throws : Method

-- A stream, by what the cleanup reads and changes of it; `ended` is what `end` does.
pub record Stream : Type 0 where
  pub id : Ref
  pub destroyed : Bool
  pub ended : Bool
  pub piped : Bool
  pub unpipe : Method
  pub destroy : Method
  pub end : Method

-- The first loop: an exception is logged.
unfoldable pub unpiped : Stream → Stream
unpiped s = elim s.unpipe [ absent ↦ s | works ↦ record s { piped = false } | throws ↦ s ]

ended_if : Method → Stream → Stream
ended_if absent s = s
ended_if works s = record s { ended = true }
ended_if throws s = s

destroyed_by : Method → Stream → Stream
unfolding ended_if
destroyed_by absent s = ended_if s.end s
destroyed_by works s = record s { destroyed = true }
destroyed_by throws s = s

-- The second loop.
unfoldable pub torn_down : Stream → Stream
unfolding destroyed_by
torn_down s = if s.destroyed then s else destroyed_by s.destroy s

abbrev on_each : (Stream → Stream) → List (Option Stream) → List (Option Stream)
on_each f [] = []
on_each f (none ∷ streams) = none ∷ on_each f streams
on_each f (some s ∷ streams) = some (f s) ∷ on_each f streams

-- `ProxyUtils.cleanUp`: a missing stream is passed over.
unfoldable pub clean_up_streams : List (Option Stream) → List (Option Stream)
unfolding unpiped torn_down
clean_up_streams streams = on_each torn_down (on_each unpiped streams)

-- The sockets that have their guards, and the streams by their references.
pub record Guards : Type 0 where
  pub guarded : List Ref
  pub streams : Ref → Stream
  pub logged : List String

-- `ensureCleanupGuards`; what it registers are `on_guard_error` and `on_guard_close`.
unfoldable pub ensure_cleanup_guards : Ref → Guards → Guards
ensure_cleanup_guards ref g =
    if (g.streams ref).destroyed
    then g
    else if mem ref g.guarded
    then g
    else record g { guarded = ref ∷ g.guarded }

abbrev silent_codes : List String
silent_codes = "ECONNRESET" ∷ "EPIPE" ∷ "ETIMEDOUT" ∷ "ERR_TLS_HANDSHAKE_TIMEOUT" ∷ []

-- The guard's "error" handler keeps the process alive, and logs what is not expected.
unfoldable pub on_guard_error : Option String → String → Guards → Guards
on_guard_error code message g =
    if mem (or_else code "") silent_codes
    then g
    else record g { logged = g.logged ++ (if message == "" then or_else code "" else message) ∷ [] }

-- The guard's "close" handler.
unfoldable pub on_guard_close : Ref → Guards → Guards
unfolding unpiped torn_down
on_guard_close ref g = record g {
  streams = λ r. if ref == r then torn_down (unpiped (g.streams r)) else g.streams r;
}
