-- ===== src/Pipeline/Run/Loops.antt =====
-- Phases that ask for one another without end.
use mitm_core.Prelude.{
  ℕ, zero, suc, true, false, ◌≡◌, ap, inl, inr, sym, ◌∙◌, ◌⊎◌, Option, none, some, arith,
  Option-cases, Bool-cases,
}
use mitm_core.Net.{Response, destroy_response}
use mitm_core.Phase.{Phase}
use mitm_core.Signals.{Thrown}
use mitm_core.Scope.{RequestScope}
use mitm_core.Assign.{set_next_phase}
use mitm_core.Pipeline.Run.{
  Pipelines, completed, run_phase, steps_of, loop, run, stop_loop, loop_failure, max_jumps,
}
use mitm_core.Pipeline.Run.Stops.{Starts, IsPlain, run-loop, step_completed}

abbrev pub HasStatus : ℕ → Option Response → Type 0
HasStatus code none = ⊥
HasStatus code (some res) = (res.status_code ≡ code) × (res.headers_sent ≡ true)

stop_loop-failure :
    (now : ℕ) (p : Phase) (s : RequestScope)
    → (stop_loop now p s).lifecycle.failure ≡ some (loop_failure now p)
unfolding stop_loop
stop_loop-failure now p s = ground arith

module _ (now : ℕ) (pipelines : Pipelines) (P : RequestScope → Type 0) where
  loop_exhausted :
      (p : Phase) (s : RequestScope) → Starts p s → loop now pipelines zero s ≡ stop_loop now p s
  unfolding loop
  loop_exhausted p s (e, f) = ground arith

  loop_recurs :
      (recurs : ((s : RequestScope)
        → P s
        → (p : Phase) × (t : RequestScope) × Starts p s
          × (run_phase now p (steps_of pipelines p) (set_next_phase none s) ≡ completed t)
          × P t))
      (jumps : ℕ) (s : RequestScope)
      → P s
      → (p : Phase) × (t : RequestScope) × Starts p t
        × P t
        × (loop now pipelines jumps s ≡ stop_loop now p t)
  loop_recurs recurs zero s h =
      let (p, t, st, c, k) = recurs s h in (p, s, st, h, loop_exhausted p s st)
  loop_recurs recurs (suc jumps) s h =
      let (p, t, (e, f), c, k) = recurs s h in
      let (q, u, st, k', eq) = loop_recurs recurs jumps t k in
      (q, u, st, k', sym (step_completed now pipelines s p jumps t e f c) ∙ eq)

  -- If from every scope of `P` a phase starts, which runs to its end and leads to `P` again, then
  -- a run that is no pending WebSocket upgrade does not go on for ever: it is stopped at a scope of
  -- `P` by `stop_loop`, and the failure "Infinite pipeline phase loop detected" is recorded with the
  -- phase that was asked for.
  pub run_recurs :
      (ws_bridge : RequestScope → RequestScope × Option Thrown)
      (recurs : ((s : RequestScope)
        → P s
        → (p : Phase) × (t : RequestScope) × Starts p s
          × (run_phase now p (steps_of pipelines p) (set_next_phase none s) ≡ completed t)
          × P t))
      (s : RequestScope)
      → P s
      → IsPlain s
      → (p : Phase) × (t : RequestScope) × P t
        × Starts p t
        × (run now pipelines ws_bridge s ≡ stop_loop now p t)
        × ((run now pipelines ws_bridge s).lifecycle.failure ≡ some (loop_failure now p))
  run_recurs ws recurs s h plain =
      let (p, t, st, k, e) = loop_recurs recurs max_jumps s h in
      let eq = run-loop now pipelines ws s plain ∙ e in
      (p, t, k, st, eq, ap (λ r. r.lifecycle.failure) eq ∙ stop_loop-failure now p t)

-- What the client gets when the loop is stopped: the 508 if the response is not begun, the end of
-- the response if it is, and the end of the connection if there is no response object.
pub stop_loop_answer :
    (now : ℕ) (p : Phase) (s : RequestScope)
    → let after = stop_loop now p s in
      ((s.request.client.res ≡ none) × (after.session.socket.destroyed ≡ true))
      ⊎ ((res : Response) × (s.request.client.res ≡ some res)
          × (res.headers_sent ≡ true)
          × (after.request.client.res ≡ some (destroy_response res))
          × (after.session ≡ s.session))
      ⊎ ((res : Response) × (s.request.client.res ≡ some res)
          × (res.headers_sent ≡ false)
          × HasStatus 508 after.request.client.res
          × (after.session ≡ s.session))
unfolding stop_loop
stop_loop_answer now p s = elim (Option-cases s.request.client.res) [
  | inl e ↦ inl (e, ground arith)
  | inr (res, e) ↦ elim (Bool-cases res.headers_sent) [
    | inl sent ↦ inr (inl (res, e, sent, ground arith, ground arith))
    | inr unsent ↦ inr (inr (res, e, unsent, ground arith, ground arith))
  ]
]
