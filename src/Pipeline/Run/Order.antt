-- ===== src/Pipeline/Run/Order.antt =====
-- The order of the handlers within a phase.
use mitm_core.Prelude.{ℕ, true, false, ◌≡◌, refl, ◌∙◌, none, some, List, [], ◌∷◌, ◌++◌}
use mitm_core.Phase.{Phase}
use mitm_core.Signals.{Thrown}
use mitm_core.Scope.{RequestScope}
use mitm_core.Assign.{set_next_phase}
use mitm_core.Pipeline.Failure.{handle_thrown}
use mitm_core.Pipeline.Run.{Handler, left, run_steps}

-- The handlers were called in order, and each returned without hijacking the request.
pub data Passed : List Handler → RequestScope → RequestScope → Type 0 where
  here : {s : RequestScope} → Passed [] s s
  next :
      {h : Handler} {hs : List Handler} {s t u : RequestScope}
      → h.handle s ≡ (t, none)
      → t.lifecycle.is_hijacked ≡ false
      → Passed hs t u
      → Passed (h ∷ hs) s u

pub run_steps-append :
    (now : ℕ) (phase : Phase) (post : List Handler) {pre : List Handler} {s t : RequestScope}
    → Passed pre s t
    → run_steps now phase (pre ++ post) s ≡ run_steps now phase post t
unfolding run_steps
run_steps-append now phase post here = refl
run_steps-append now phase post (next e f p) = simp (e, f) (run_steps-append now phase post p)

-- If the handlers before one pass and that one throws, the phase ends with the catch applied to the
-- scope as the throwing handler left it, whatever handlers come after it: none of them is called.
pub run_steps_throw :
    (now : ℕ) (phase : Phase) (pre post : List Handler) (h : Handler) (s t u : RequestScope)
    (e : Thrown)
    → Passed pre s t
    → h.handle t ≡ (u, some e)
    → run_steps now phase (pre ++ h ∷ post) s ≡ left (handle_thrown now u e phase)
unfolding run_steps
run_steps_throw now phase pre post h s t u e p thrown =
    run_steps-append now phase (h ∷ post) p ∙ simp thrown

-- If the handlers before one pass and that one hijacks the request, the run is left at once with no
-- phase to go on to, the scope is otherwise as the handler left it, and none of the handlers that
-- come after it is called.
pub run_steps_hijack :
    (now : ℕ) (phase : Phase) (pre post : List Handler) (h : Handler) (s t u : RequestScope)
    → Passed pre s t
    → h.handle t ≡ (u, none)
    → u.lifecycle.is_hijacked ≡ true
    → run_steps now phase (pre ++ h ∷ post) s ≡ left (set_next_phase none u)
unfolding run_steps
run_steps_hijack now phase pre post h s t u p returned taken =
    run_steps-append now phase (h ∷ post) p ∙ simp (returned, taken)
