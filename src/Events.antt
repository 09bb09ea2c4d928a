-- ===== src/Events.antt =====
-- The event buses: `TypedEventEmitter.emitAsync` of core/event/EventBus.ts, whose listeners run
-- side by side, and `PluginEventManager.emitAsync` of core/event/plugin-events/pluginEvents.ts,
-- whose listeners run one after the other, each with a time limit.
pub mod Limits
pub mod Failures
pub mod Bus
use Prim.Native.String.{◌++◌}
use mitm_core.Prelude.{
  ℕ, ◌+◌, String, Option, none, some, List, [], ◌∷◌, if◌then◌else◌, or_else, ltb, leb, ◌||◌, ◌&&◌,
  length, ◌==◌, nat_eq, string_eq,
}
use mitm_core.Prelude.Text.{join, decimal}
use mitm_core.Signals.{Thrown, signal, error, object, primitive}
use mitm_core.Scope.{RequestScope}

-- `String(e)` of the message's object where the message is empty, else the message.
unfoldable pub shown_error : Thrown → String
shown_error (signal s) = if s.message == "" then "PipelineAbortSignal" else s.message
shown_error (error message code) = if message == "" then "Error" else message
shown_error (object message code shown) =
    let text = or_else message "" in if text == "" then shown else text
shown_error (primitive shown) = shown

-- `errors`: the reasons of the listeners that rejected, in the order of the listeners.
unfoldable pub reasons : List (Option Thrown) → List Thrown
reasons [] = []
reasons (none ∷ results) = reasons results
reasons (some e ∷ results) = e ∷ reasons results

numbered : ℕ → List Thrown → List String
unfolding shown_error
numbered i [] = []
numbered i (e ∷ errors) =
    ("[Listener " ++ decimal (i + 1) ++ "]: " ++ shown_error e) ∷ numbered (i + 1) errors

unfoldable pub combined_message : String → List Thrown → String
unfolding numbered
combined_message event errors =
    "[Aggregate Event Error] \"" ++ event ++ "\" failed: " ++ join "; " (numbered 0 errors)

throw_of : String → List Thrown → Option Thrown
unfolding combined_message
throw_of event [] = none
throw_of event (e ∷ []) = some e
throw_of event (e ∷ (f ∷ errors)) = some (error (combined_message event (e ∷ f ∷ errors)) none)

-- `TypedEventEmitter.emitAsync`, once `Promise.allSettled` has the outcome of every listener: what
-- each of them threw, if it did.
unfoldable pub emit_settled : String → List (Option Thrown) → Option Thrown
unfolding reasons throw_of
emit_settled event results = throw_of event (reasons results)

-- The awaited call of one listener: when it settles, if ever, with what, and what the scope is at a
-- time before that. `free_from due` is when the event loop can run a timer that is due: at that time,
-- or at the end of the stretch that the listener blocks the loop for, if it ends.
pub record Execution : Type 0 where
  pub settled_after : Option ℕ
  pub scope : RequestScope
  pub thrown : Option Thrown
  pub scope_at : ℕ → RequestScope
  pub free_from : ℕ → Option ℕ

abbrev pub Listener : Type 0
Listener = RequestScope → Execution

-- How an emission ends, and the time that it took.
pub record Emission : Type 0 where
  pub scope : RequestScope
  pub thrown : Option Thrown
  pub elapsed : ℕ

abbrev pub plugin_timeout : Thrown
plugin_timeout = error "PLUGIN_TIMEOUT" none

settled : Execution → ℕ → Emission
settled e t = record { scope = e.scope; thrown = e.thrown; elapsed = t }

timed_out : Execution → ℕ → Emission
timed_out e t = record { scope = e.scope_at t; thrown = some plugin_timeout; elapsed = t }

-- The race against the timer. A listener that settles before the limit wins; so does one that settles
-- by the end of a stretch that blocks the loop past the limit, since its promise is served before
-- the timer. The timer was started first and wins a tie. `none` never settles: the loop is blocked.
unfoldable pub race_timer : ℕ → Execution → Option ℕ → Option ℕ → Option Emission
unfolding settled timed_out
race_timer limit e none none = none
race_timer limit e none (some free) = some (timed_out e free)
race_timer limit e (some t) none = if ltb t limit then some (settled e t) else none
race_timer limit e (some t) (some free) =
    if ltb t limit || (ltb limit free && leb t free)
    then some (settled e t)
    else some (timed_out e free)

-- Without a limit the listener is awaited for as long as it takes.
unfoldable pub race : ℕ → Execution → Option Emission
unfolding race_timer settled
race limit e =
    if limit == 0
    then elim e.settled_after [ none ↦ none | some t ↦ some (settled e t) ]
    else race_timer limit e e.settled_after (e.free_from limit)

after_listener : (RequestScope → Option Emission) → Emission → Option Emission
after_listener rest r = elim r.thrown [
  | some e ↦ some r
  | none ↦ elim (rest r.scope) [
    | none ↦ none
    | some later ↦ some (record later { elapsed = r.elapsed + later.elapsed })
  ]
]

-- `PluginEventManager.emitAsync`; `limit` is `pluginTimeoutMs`, and 0 where that is not positive.
unfoldable pub emit_plugins : ℕ → List Listener → RequestScope → Option Emission
unfolding race after_listener
emit_plugins limit [] s = some (record { scope = s; thrown = none; elapsed = 0 })
emit_plugins limit (listener ∷ listeners) s = elim (race limit (listener s)) [
  | none ↦ none
  | some r ↦ after_listener (emit_plugins limit listeners) r
]
