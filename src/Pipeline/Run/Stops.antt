-- ===== src/Pipeline/Run/Stops.antt =====
-- How a run over the phases ends.
use mitm_core.Prelude.{
  ℕ, zero, suc, ◌≤◌, ◌<◌, true, false, ◌≡◌, refl, sym, ◌⊎◌, inl, inr, Option, none, some, List, [],
  ◌∷◌, arith, subst, WhenSome, Option-cases, Bool-cases,
}
use mitm_core.Phase.{Phase}
use mitm_core.Signals.{Thrown}
use mitm_core.Scope.{RequestScope}
use mitm_core.Assign.{set_next_phase}
use mitm_core.Pipeline.Failure.Answers.{thrown_recorded}
use mitm_core.Pipeline.Run.{
  Handler, Pipelines, Steps, completed, left, run_steps, run_phase, steps_of, loop, run, stop_loop,
  is_halted, max_jumps, after_step,
}

Steps-cases :
    (r : Steps) → ((t : RequestScope) × (r ≡ left t)) ⊎ ((t : RequestScope) × (r ≡ completed t))
Steps-cases (left t) = inl (t, refl)
Steps-cases (completed t) = inr (t, refl)

-- The run is about to start phase `p`.
abbrev pub Starts : Phase → RequestScope → Type 0
Starts p s = (s.lifecycle.next_phase ≡ some p) × (is_halted s.lifecycle ≡ false)

-- Not a WebSocket upgrade that is still to be dispatched.
abbrev pub IsPlain : RequestScope → Type 0
IsPlain s = WhenSome (λ w. w.is_upgraded ≡ true) s.request.web_socket

module _ (now : ℕ) (pipelines : Pipelines) where
  abbrev phase_of : Phase → RequestScope → Steps
  phase_of p s = run_phase now p (steps_of pipelines p) (set_next_phase none s)

  -- `n` phases ran from `s` to `t`, each to the end of its handlers.
  pub data Phases : ℕ → RequestScope → RequestScope → Type 0 where
    here : {s : RequestScope} → Phases zero s s
    next :
        {n : ℕ} {s t u : RequestScope} (p : Phase)
        → Starts p s
        → run_phase now p (steps_of pipelines p) (set_next_phase none s) ≡ completed t
        → Phases n t u
        → Phases (suc n) s u

  -- The ways to stop at `t` after `n` phases, with `jumps` allowed, and the scope that is left.
  pub data Ends (jumps n : ℕ) (t r : RequestScope) : Type 0 where
    no_phase : t.lifecycle.next_phase ≡ none → r ≡ t → Ends jumps n t r
    halted : is_halted t.lifecycle ≡ true → r ≡ set_next_phase none t → Ends jumps n t r
    left_phase :
        (p : Phase)
        → n < jumps
        → Starts p t
        → run_phase now p (steps_of pipelines p) (set_next_phase none t) ≡ left r
        → Ends jumps n t r
    loop_detected : (p : Phase) → n ≡ jumps → Starts p t → r ≡ stop_loop now p t → Ends jumps n t r

  abbrev pub Run : ℕ → RequestScope → RequestScope → Type 0
  Run jumps s r = (n : ℕ) × (t : RequestScope) × (n ≤ jumps) × Phases n s t × Ends jumps n t r

  Run-suc :
      {jumps : ℕ} {s t r : RequestScope} (p : Phase)
      → Starts p s
      → phase_of p s ≡ completed t
      → Run jumps t r
      → Run (suc jumps) s r
  Run-suc p st e (n, u, le, ph, no_phase a b) =
      (suc n, u, omega arith, next p st e ph, no_phase a b)
  Run-suc p st e (n, u, le, ph, halted a b) = (suc n, u, omega arith, next p st e ph, halted a b)
  Run-suc p st e (n, u, le, ph, left_phase q lt a b) =
      (suc n, u, omega arith, next p st e ph, left_phase q (omega arith) a b)
  Run-suc p st e (n, u, le, ph, loop_detected q eq a b) =
      (suc n, u, omega arith, next p st e ph, loop_detected q (omega arith) a b)

  pub step_completed :
      (s : RequestScope) (p : Phase) (jumps : ℕ) (t : RequestScope)
      → s.lifecycle.next_phase ≡ some p
      → is_halted s.lifecycle ≡ false
      → phase_of p s ≡ completed t
      → loop now pipelines jumps t ≡ loop now pipelines (suc jumps) s
  unfolding loop
  step_completed s p jumps t e h c = ground arith

  loop_ends : (jumps : ℕ) (s : RequestScope) → Run jumps s (loop now pipelines jumps s)
  unfolding loop
  loop_ends zero s = elim (Option-cases s.lifecycle.next_phase) [
    | inl e ↦ (0, s, omega arith, here, no_phase e (ground arith))
    | inr (p, e) ↦ elim (Bool-cases (is_halted s.lifecycle)) [
      | inl h ↦ (0, s, omega arith, here, halted h (ground arith))
      | inr h ↦ (0, s, omega arith, here, loop_detected p refl (e, h) (ground arith))
    ]
  ]
  loop_ends (suc jumps) s = elim (Option-cases s.lifecycle.next_phase) [
    | inl e ↦ (0, s, omega arith, here, no_phase e (ground arith))
    | inr (p, e) ↦ elim (Bool-cases (is_halted s.lifecycle)) [
      | inl h ↦ (0, s, omega arith, here, halted h (ground arith))
      | inr h ↦ elim (Steps-cases (phase_of p s)) [
        | inl (t, l) ↦ (0, s, omega arith, here, left_phase p (omega arith) (e, h) (ground arith))
        | inr (t, c) ↦
            let r = Run-suc p (e, h) c (loop_ends jumps t) in
            subst (Run (suc jumps) s) (step_completed s p jumps t e h c) r
      ]
    ]
  ]

  module _ (ws_bridge : RequestScope → RequestScope × Option Thrown) where
    pub run-loop :
        (s : RequestScope)
        → IsPlain s
        → run now pipelines ws_bridge s ≡ loop now pipelines max_jumps s
    unfolding run loop
    run-loop s plain = ground arith

    -- A run that is no pending WebSocket upgrade is a chain of at most ten complete phases, and ends
    -- in one of four ways: no phase is left; the request was halted by an abort, a failure or a
    -- hijack; a handler of the next phase threw or hijacked, or the phase has no handlers; or ten
    -- phases ran, an eleventh was asked for, and the loop is stopped.
    pub run_ends : (s : RequestScope) → IsPlain s → Run max_jumps s (run now pipelines ws_bridge s)
    run_ends s plain = subst (Run max_jumps s) (sym (run-loop s plain)) (loop_ends max_jumps s)

run_idle :
    (now : ℕ) (pipelines : Pipelines) (ws_bridge : RequestScope → RequestScope × Option Thrown)
    (s : RequestScope)
    → s.lifecycle.next_phase ≡ none
    → run now pipelines ws_bridge s ≡ s
unfolding run
run_idle now ps ws s e = ground arith

after_step-left :
    (now : ℕ) (p : Phase) (rest : RequestScope → Steps) (o : RequestScope × Option Thrown)
    (r : RequestScope)
    → ((t : RequestScope) → rest t ≡ left r → r.lifecycle.next_phase ≡ none)
    → after_step now p rest o ≡ left r
    → r.lifecycle.next_phase ≡ none
unfolding after_step
after_step-left now p rest (t, some x) r ih e = ground (arith, thrown_recorded now t x p)
after_step-left now p rest (t, none) r ih e = ground (arith, ih t)

run_steps-left :
    (now : ℕ) (p : Phase) (hs : List Handler) (s r : RequestScope)
    → run_steps now p hs s ≡ left r
    → r.lifecycle.next_phase ≡ none
unfolding run_steps
run_steps-left now p [] s r e = cc
run_steps-left now p (h ∷ hs) s r e =
    after_step-left now p (run_steps now p hs) (h.handle s) r (λ t. run_steps-left now p hs t r) e

run_phase-left :
    (now : ℕ) (p : Phase) (hs : List Handler) (s r : RequestScope)
    → s.lifecycle.next_phase ≡ none
    → run_phase now p hs s ≡ left r
    → r.lifecycle.next_phase ≡ none
unfolding run_phase
run_phase-left now p [] s r none_ e = ground arith
run_phase-left now p (h ∷ hs) s r none_ e = run_steps-left now p (h ∷ hs) s r e

stop_loop-next_phase :
    (now : ℕ) (p : Phase) (s : RequestScope) → (stop_loop now p s).lifecycle.next_phase ≡ none
unfolding stop_loop
stop_loop-next_phase now p s = ground arith

Ends-next_phase :
    (now : ℕ) (pipelines : Pipelines) (jumps n : ℕ) (t r : RequestScope)
    → Ends now pipelines jumps n t r
    → r.lifecycle.next_phase ≡ none
Ends-next_phase now ps jumps n t r (no_phase a b) = ground arith
Ends-next_phase now ps jumps n t r (halted a b) = ground arith
Ends-next_phase now ps jumps n t r (left_phase p a b c) =
    run_phase-left now p (steps_of ps p) (set_next_phase none t) r refl c
Ends-next_phase now ps jumps n t r (loop_detected p a b c) =
    ground (arith, stop_loop-next_phase now p t)

-- However its handlers behave, a run that is no pending WebSocket upgrade leaves no phase behind:
-- a second run of the same scope does nothing.
pub run_finishes :
    (now : ℕ) (pipelines : Pipelines) (ws_bridge : RequestScope → RequestScope × Option Thrown)
    (s : RequestScope)
    → IsPlain s
    → ((run now pipelines ws_bridge s).lifecycle.next_phase ≡ none)
      × (run now pipelines ws_bridge (run now pipelines ws_bridge s)
          ≡ run now pipelines ws_bridge s)
run_finishes now ps ws s plain =
    let (n, t, le, ph, e) = run_ends now ps ws s plain in
    let cleared = Ends-next_phase now ps max_jumps n t _ e in
    (cleared, run_idle now ps ws _ cleared)
