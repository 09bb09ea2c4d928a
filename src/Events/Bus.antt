-- ===== src/Events/Bus.antt =====
-- core/event/EventBus.ts: the registration of listeners, which `TypedEventEmitter` hands on to Node's
-- emitter, and which listeners an emission calls; and `reportProxyError` of proxyEvents.ts.
pub mod Once
use mitm_core.Prelude.{
  ℕ, String, Bool, true, false, not, ◌&&◌, ◌||◌, Option, none, some, List, [], ◌∷◌, ◌++◌,
  if◌then◌else◌, ◌==◌, string_eq, nat_eq, map, mem, keep_if, length, or_else, ltb,
}
use mitm_core.Prelude.Assoc.{Assoc, lookup, insert, remove}
use mitm_core.Net.{Ref}
use mitm_core.Signals.{Thrown, error}

-- A listener, and whether it was registered by `once`.
pub record Entry : Type 0 where
  pub listener : Ref
  pub is_once : Bool

abbrev pub Bus : Type 0
Bus = Assoc String (List Entry)

abbrev pub entries_of : String → Bus → List Entry
entries_of event bus = or_else (lookup event bus) []

added : Entry → String → Bus → Bus
added entry event bus = insert event (entries_of event bus ++ entry ∷ []) bus

-- `on`, `once`, and `addListener`, which is `on`.
unfoldable pub on : String → Ref → Bus → Bus
unfolding added
on event listener bus = added (record { listener = listener; is_once = false }) event bus

unfoldable pub once : String → Ref → Bus → Bus
unfolding added
once event listener bus = added (record { listener = listener; is_once = true }) event bus

unfoldable pub add_listener : String → Ref → Bus → Bus
unfolding on
add_listener event listener bus = on event listener bus

abbrev pub listeners_in : List Entry → List Ref
listeners_in [] = []
listeners_in (entry ∷ entries) = entry.listener ∷ listeners_in entries

-- The last entry of this listener is taken out, and the others keep their order.
unfoldable pub without_last : Ref → List Entry → List Entry
without_last listener [] = []
without_last listener (entry ∷ entries) =
    let rest = without_last listener entries in
    if mem listener (listeners_in entries)
    then entry ∷ rest
    else if entry.listener == listener
    then entries
    else entry ∷ entries

-- `off`, and `removeListener`, which is `off`.
unfoldable pub off : String → Ref → Bus → Bus
unfolding without_last
off event listener bus = insert event (without_last listener (entries_of event bus)) bus

unfoldable pub remove_listener : String → Ref → Bus → Bus
unfolding off
remove_listener event listener bus = off event listener bus

-- `listeners`: the functions that were registered, those of `once` without their wrappers.
unfoldable pub listeners : String → Bus → List Ref
listeners event bus = listeners_in (entries_of event bus)

unfoldable pub listener_count : String → Option Ref → Bus → ℕ
unfolding listeners
listener_count event none bus = length (listeners event bus)
listener_count event (some listener) bus =
    length (keep_if (λ l. l == listener) (listeners event bus))

unfoldable pub remove_all_listeners : Option String → Bus → Bus
remove_all_listeners none bus = []
remove_all_listeners (some event) bus = remove event bus

-- The calls of one emission, up to the first that throws.
pub record Emitted : Type 0 where
  pub bus : Bus
  pub calls : List Ref
  pub thrown : Option Thrown

-- The wrapper of `once` that is called takes itself off: of those of this listener it is the first
-- that is left.
without_once : Ref → List Entry → List Entry
without_once listener [] = []
without_once listener (entry ∷ entries) =
    let rest = without_once listener entries in
    if entry.is_once && entry.listener == listener then entries else entry ∷ rest

call_in_turn : (Ref → Option Thrown) → String → List Entry → Bus → List Ref → Emitted
unfolding without_once
call_in_turn fails event [] bus calls = record { bus = bus; calls = calls; thrown = none }
call_in_turn fails event (entry ∷ entries) bus calls =
    let left =
      if entry.is_once
      then insert event (without_once entry.listener (entries_of event bus)) bus
      else bus in
    let rest = call_in_turn fails event entries left (calls ++ entry.listener ∷ []) in
    elim (fails entry.listener) [
      | none ↦ rest
      | some e ↦ record { bus = left; calls = calls ++ entry.listener ∷ []; thrown = some e }
    ]

-- `emit` with the argument `value`: a listener of `once` is taken off before it is called. Node
-- throws the value of an "error" that nobody listens to.
unfoldable pub emit : (Ref → Option Thrown) → String → Thrown → Bus → Emitted
unfolding call_in_turn
emit fails event value bus = elim (entries_of event bus) [
  | [] ↦ record { bus = bus; calls = []; thrown = if event == "error" then some value else none }
  | entry ∷ entries ↦ call_in_turn fails event (entry ∷ entries) bus []
]

-- The calls of `emitAsync`, which takes `listeners` and calls each of them.
unfoldable pub emit_async_calls : String → Bus → Bus × List Ref
unfolding listeners
emit_async_calls event bus = (bus, listeners event bus)

-- `reportProxyError`: what the listeners throw is dropped.
unfoldable pub report_proxy_error : (Ref → Option Thrown) → Thrown → Bus → Bus × List Ref
unfolding emit listener_count
report_proxy_error fails value bus =
    let emitted = emit fails "error" value bus in
    if ltb 0 (listener_count "error" none bus) then (emitted.bus, emitted.calls) else (bus, [])
