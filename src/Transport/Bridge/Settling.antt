-- ===== src/Transport/Bridge/Settling.antt =====
-- The promise of the bridge is settled once.
use mitm_core.Prelude.{
  ℕ, String, if◌then◌else◌, Bool, true, false, ◌≡◌, ◌≢◌, ◌≤◌, ◌⊎◌, Option, none, some, List, [],
  ◌∷◌, refl, inl, inr, arith, length,
}
use mitm_core.Net.{IncomingMessage}
use mitm_core.Signals.{Thrown, signal, error, object, primitive}
use mitm_core.Scope.{RequestScope, ExplicitHeaderOverrides}
use mitm_core.Cache.Store.{Lru}
use mitm_core.Transport.Dispatch.{Streamed, Begun, done, streaming}
use mitm_core.Transport.Bridge.{
  Bridge, Call, resolved, rejected, settle, catch_response, answer, conclude, after_relay, end_told,
  Event, Stage, waiting, announcing, requesting, relaying, ended, connect_refused, responded,
  announced, requested, relayed, failed, told, timed_out, step, run_events, with_scope,
  on_responded, on_announced, on_requested, on_relayed, on_told,
}

-- The states of the promise: open, nothing was called; failing, the callback of an error has taken
-- it and has not called yet; closed, there was one call, and nothing is left to call.
abbrev pub IsSound : Bool → List Call → Option Thrown → Type 0
IsSound settled calls failing =
    ((settled ≡ false) × (calls ≡ []) × (failing ≡ none))
    ⊎ ((settled ≡ true) × (calls ≡ []) × (failing ≢ none))
    ⊎ ((settled ≡ true) × (length calls ≡ 1) × (failing ≡ none))

pub IsSound-once :
    {settled : Bool} {calls : List Call} {failing : Option Thrown}
    → IsSound settled calls failing
    → length calls ≤ 1
IsSound-once {settled} {calls} {failing} h = ground arith

module _ (lru : Lru) where
  abbrev pub Settles : Bridge lru → Type 0
  Settles b = IsSound b.is_settled b.calls b.failing

  settle-Settles : (c : Call) (b : Bridge lru) → Settles b → Settles (settle lru c b)
  unfolding settle
  settle-Settles c b h = ground arith

  catch_response-Settles :
      (res : IncomingMessage) (e : Thrown) (b : Bridge lru)
      → Settles b
      → Settles (catch_response lru res e b)
  unfolding catch_response
  catch_response-Settles res (signal sig) b h = ground arith
  catch_response-Settles res (error x y) b h = ground arith
  catch_response-Settles res (object x y z) b h = ground arith
  catch_response-Settles res (primitive x) b h = ground arith

  if-Settles :
      (test : Bool) (b c : Bridge lru) → Settles b → Settles c → Settles (if test then b else c)
  if-Settles true b c h k = h
  if-Settles false b c h k = k

  conclude-Settles :
      (res : IncomingMessage) (b : Bridge lru) (thrown : Option Thrown)
      → Settles b
      → Settles (conclude lru res b thrown)
  unfolding conclude
  conclude-Settles res b none h = settle-Settles resolved b h
  conclude-Settles res b (some e) h = catch_response-Settles res e b h

  after_relay-Settles :
      (res : IncomingMessage) (b : Bridge lru) (r : Begun lru)
      → Settles b
      → Settles (after_relay lru res b r)
  unfolding after_relay
  after_relay-Settles res b (done w) h = conclude-Settles res (record b { work = w }) w.thrown h
  after_relay-Settles res b (streaming w) h = h

  -- The error callback calls once, after it has taken the promise.
  end_told-Settles :
      (now : ℕ) (e : Thrown) (b : Bridge lru) (thrown : Option Thrown)
      → b.is_settled ≡ true
      → b.calls ≡ []
      → b.failing ≡ none
      → Settles (end_told lru now e b thrown)
  unfolding end_told
  end_told-Settles now e b none s c f = ground arith
  end_told-Settles now e b (some (signal x)) s c f = ground arith
  end_told-Settles now e b (some (error x y)) s c f = ground arith
  end_told-Settles now e b (some (object x y z)) s c f = ground arith
  end_told-Settles now e b (some (primitive x)) s c f = ground arith

  module _ (date_parse : String → Option ℕ) (globals : Option ExplicitHeaderOverrides) where
    answer-Settles :
        (now : ℕ) (res : IncomingMessage) (b : Bridge lru)
        → Settles b
        → Settles (answer lru date_parse globals now res b)
    unfolding answer
    answer-Settles now res b h =
        if-Settles b.work.scope.lifecycle.is_hijacked _ _ (settle-Settles resolved b h)
          (if-Settles _ _ _ (settle-Settles resolved _ h) (after_relay-Settles _ b _ h))

    on_responded-Settles :
        (now : ℕ) (res : IncomingMessage) (b : Bridge lru) (stage : Stage)
        → Settles b
        → Settles (on_responded lru date_parse globals now res b stage)
    unfolding on_responded
    on_responded-Settles now res b waiting h = if-Settles b.is_settled _ _ h h
    on_responded-Settles now res b (announcing r) h = h
    on_responded-Settles now res b (requesting r) h = h
    on_responded-Settles now res b (relaying r) h = h
    on_responded-Settles now res b ended h = h

    on_announced-Settles :
        (thrown : Option Thrown) (b : Bridge lru) (stage : Stage)
        → Settles b
        → Settles (on_announced lru date_parse globals thrown b stage)
    unfolding on_announced
    on_announced-Settles (some e) b (announcing r) h = catch_response-Settles r e b h
    on_announced-Settles none b (announcing r) h = if-Settles b.is_settled _ _ h h
    on_announced-Settles (some e) b waiting h = h
    on_announced-Settles (some e) b (requesting r) h = h
    on_announced-Settles (some e) b (relaying r) h = h
    on_announced-Settles (some e) b ended h = h
    on_announced-Settles none b waiting h = h
    on_announced-Settles none b (requesting r) h = h
    on_announced-Settles none b (relaying r) h = h
    on_announced-Settles none b ended h = h

    on_requested-Settles :
        (now : ℕ) (thrown : Option Thrown) (b : Bridge lru) (stage : Stage)
        → Settles b
        → Settles (on_requested lru date_parse globals now thrown b stage)
    unfolding on_requested
    on_requested-Settles now (some e) b (requesting r) h = catch_response-Settles r e b h
    on_requested-Settles now none b (requesting r) h =
        if-Settles b.is_settled _ _ h (answer-Settles now r b h)
    on_requested-Settles now (some e) b waiting h = h
    on_requested-Settles now (some e) b (announcing r) h = h
    on_requested-Settles now (some e) b (relaying r) h = h
    on_requested-Settles now (some e) b ended h = h
    on_requested-Settles now none b waiting h = h
    on_requested-Settles now none b (announcing r) h = h
    on_requested-Settles now none b (relaying r) h = h
    on_requested-Settles now none b ended h = h

    on_relayed-Settles :
        (now : ℕ) (streamed : Streamed) (b : Bridge lru) (stage : Stage)
        → Settles b
        → Settles (on_relayed lru date_parse globals now streamed b stage)
    unfolding on_relayed
    on_relayed-Settles now streamed b (relaying r) h = after_relay-Settles r b _ h
    on_relayed-Settles now streamed b waiting h = h
    on_relayed-Settles now streamed b (announcing r) h = h
    on_relayed-Settles now streamed b (requesting r) h = h
    on_relayed-Settles now streamed b ended h = h

    on_told-Settles :
        (now : ℕ) (thrown : Option Thrown) (b : Bridge lru) (failing : Option Thrown)
        → b.failing ≡ failing
        → Settles b
        → Settles (on_told lru date_parse globals now thrown b failing)
    unfolding on_told
    on_told-Settles now thrown b none f h = h
    on_told-Settles now thrown b (some e) f (inl (s, c, g)) = absurd (ground arith)
    on_told-Settles now thrown b (some e) f (inr (inl (s, c, g))) =
        end_told-Settles now e (record b { failing = none }) thrown s c refl
    on_told-Settles now thrown b (some e) f (inr (inr (s, c, g))) = absurd (ground arith)

    -- Every stretch of a callback keeps the promise sound.
    step-Settles :
        (now : ℕ) (s : RequestScope) (e : Event) (b : Bridge lru)
        → Settles b
        → Settles (step lru date_parse globals now s e b)
    unfolding step
    step-Settles now s (connect_refused e) b h = settle-Settles (rejected e) (with_scope lru s b) h
    step-Settles now s (responded res) b h =
        on_responded-Settles now res (with_scope lru s b) b.stage h
    step-Settles now s (announced t) b h = on_announced-Settles t (with_scope lru s b) b.stage h
    step-Settles now s (requested t) b h = on_requested-Settles now t (with_scope lru s b) b.stage h
    step-Settles now s (relayed r) b h = on_relayed-Settles now r (with_scope lru s b) b.stage h
    step-Settles now s (failed e) b h = ground arith
    step-Settles now s (told t) b h = on_told-Settles now t (with_scope lru s b) b.failing refl h
    step-Settles now s timed_out b h = h

    -- Whatever order the upstream's events, the ends of the awaited plugins and the timeout come in,
    -- and however often they come, the promise of the bridge stays sound: `resolve` and `reject` are
    -- called at most once in all, and if the bridge counts as settled and was not called yet, an
    -- error's callback is waiting for its plugins and will call.
    pub run_events-Settles :
        (events : List (ℕ × RequestScope × Event)) (b : Bridge lru)
        → Settles b
        → Settles (run_events lru date_parse globals events b)
    unfolding run_events
    run_events-Settles [] b h = h
    run_events-Settles ((now, s, e) ∷ events) b h =
        run_events-Settles events _ (step-Settles now s e b h)
