-- ===== src/Middleware/Entry.antt =====
-- What plugins and listeners can do to a request before the pipeline runs.
use mitm_core.Prelude.{
  ℕ, true, false, ◌≡◌, refl, ◌∙◌, ◌⊎◌, inl, inr, none, some, List, [], ◌∷◌, ◌++◌, ◌≢◌, arith,
  nat_eq, String,
}
use mitm_core.Phase.{Phase}
use mitm_core.Prelude.Assoc.{lookup, lookup-remove_self}
use mitm_core.Net.{IncomingMessage, Response}
use mitm_core.Url.{UrlLib}
use mitm_core.Context.Request.{destroy_request_lifecycle}
use mitm_core.Mutator.{invalid, apply_http_plain_state, applied, fail_pipeline}
use mitm_core.Middleware.{on_http_plain, Emit, emit_in_turn, enter}
use mitm_core.Signals.{Thrown, signal, error, object, primitive, PipelineAbortSignal}
use mitm_core.Scope.{RequestScope}
use mitm_core.Assign.{set_abort}
use mitm_core.Context.Manager.{Manager}
use mitm_core.Pipeline.Failure.{abort_state}

-- The emissions were awaited in order, and each returned with the request not hijacked.
pub data Returned : List Emit → RequestScope → RequestScope → Type 0 where
  here : {s : RequestScope} → Returned [] s s
  next :
      {emit : Emit} {emits : List Emit} {s t u : RequestScope}
      → emit s ≡ (t, none)
      → t.lifecycle.is_hijacked ≡ false
      → Returned emits t u
      → Returned (emit ∷ emits) s u

-- What is thrown is no abort signal.
abbrev pub IsFailure : Thrown → Type 0
IsFailure (signal sig) = ⊥
IsFailure (error a b) = Unit
IsFailure (object a b c) = Unit
IsFailure (primitive a) = Unit

module _ (now : ℕ) (phase : Phase) (destroy rest : RequestScope → RequestScope) (m : Manager) where
  emit_in_turn-append :
      (pre post : List Emit) (s t : RequestScope)
      → Returned pre s t
      → emit_in_turn now phase destroy rest m (pre ++ post) s
        ≡ emit_in_turn now phase destroy rest m post t
  unfolding emit_in_turn
  emit_in_turn-append [] post s t here = refl
  emit_in_turn-append (e ∷ pre) post s t (next {t = u} f g p) =
      simp (f, g) (emit_in_turn-append pre post u t p)

  -- If the emissions before one return and a plugin or listener of that one throws, the pipeline
  -- does not run and no later event is emitted: an abort signal is recorded in the scope, under the
  -- handler's phase, and leaves the rest as it was; any other value ends the request as failed.
  pub enter_throw :
      (pre post : List Emit) (emit : Emit) (s t u : RequestScope) (e : Thrown)
      → Returned pre s t
      → emit t ≡ (u, some e)
      → ((sig : PipelineAbortSignal) × (e ≡ signal sig)
          × (enter now phase destroy rest (pre ++ emit ∷ post) m (applied s)
              ≡ (set_abort (abort_state now sig phase) u, m)))
        ⊎ (IsFailure e
            × (enter now phase destroy rest (pre ++ emit ∷ post) m (applied s)
                ≡ (destroy (fail_pipeline u m).0, (fail_pipeline u m).1)))
  unfolding enter
  enter_throw pre post emit s t u (signal sig) p thrown =
      inl (sig, refl, emit_in_turn-append pre (emit ∷ post) s t p ∙ simp thrown)
  enter_throw pre post emit s t u (error a b) p thrown =
      inr (tt, emit_in_turn-append pre (emit ∷ post) s t p ∙ simp thrown)
  enter_throw pre post emit s t u (object a b c) p thrown =
      inr (tt, emit_in_turn-append pre (emit ∷ post) s t p ∙ simp thrown)
  enter_throw pre post emit s t u (primitive a) p thrown =
      inr (tt, emit_in_turn-append pre (emit ∷ post) s t p ∙ simp thrown)

  -- If the emissions before one return and that one returns with the request hijacked, then the
  -- scope stays as the plugin left it: no later event is emitted and the pipeline does not run.
  pub enter_hijack :
      (pre post : List Emit) (emit : Emit) (s t u : RequestScope)
      → Returned pre s t
      → emit t ≡ (u, none)
      → u.lifecycle.is_hijacked ≡ true
      → enter now phase destroy rest (pre ++ emit ∷ post) m (applied s) ≡ (u, m)
  unfolding enter
  enter_hijack pre post emit s t u p returned taken =
      emit_in_turn-append pre (emit ∷ post) s t p ∙ simp (returned, taken)

-- A scope with a response object that is destroyed.
abbrev pub ResponseIsDestroyed : RequestScope → Type 0
ResponseIsDestroyed s = elim s.request.client.res [ none ↦ ⊥ | some res ↦ res.destroyed ≡ true ]

-- The request is over: it is not active, and it asks for no phase.
abbrev pub IsOver : RequestScope × Manager → Type 0
IsOver (s, m) =
    (s.lifecycle.next_phase ≡ none) × (lookup s.request.request_id m.active_requests ≡ none)

module _ (now : ℕ) (lib : UrlLib) (plugins proxy_events : String → Emit)
    (run : RequestScope → RequestScope) where
  -- A plain request whose URL cannot be parsed, or whose first plugin throws a value that is no abort
  -- signal, is over, and its response is destroyed if the plugin left the response object in place.
  pub http_plain_fails :
      (req : IncomingMessage) (res : Response) (s t u : RequestScope) (m : Manager) (e : Thrown)
      → (apply_http_plain_state lib s req res ≡ invalid u)
        ⊎ ((apply_http_plain_state lib s req res ≡ applied t)
            × (plugins "proxy:client-http-request" t ≡ (u, some e))
            × IsFailure e)
      → u.request.client.res ≢ none
      → let (r, m') = on_http_plain now lib plugins proxy_events run req res s m in
        IsOver (r, m') × ResponseIsDestroyed r
  unfolding on_http_plain fail_pipeline destroy_request_lifecycle
  http_plain_fails req res s t u m e (inl bad) has_res =
      ground (arith, lookup-remove_self u.request.request_id m.active_requests)
  http_plain_fails req res s t u m e (inr (ok, thrown, failure)) has_res =
      ground (arith, lookup-remove_self u.request.request_id m.active_requests)
