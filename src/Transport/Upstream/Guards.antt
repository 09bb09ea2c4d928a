-- ===== src/Transport/Upstream/Guards.antt =====
-- What the flags of an upstream request guard, whatever order its events come in.
use mitm_core.Prelude.{
  ℕ, true, false, ◌≡◌, refl, ◌⊎◌, inl, none, some, List, [], ◌∷◌, arith, if◌then◌else◌,
}
use mitm_core.Signals.{signal, error, object, primitive}
use mitm_core.Scope.{RequestScope}
use mitm_core.Transport.Upstream.{
  Flags, UpstreamEvent, client_closed, response_closed, response_finished, client_aborted,
  upstream_error, connect_dispatched, pipeline_ended, on_event, on_events, on_client_disconnect,
  on_client_aborted, on_client_response_close, cleanup_client_listeners, on_pre_pipeline_error,
  start_request_pipeline, on_pipeline_end, dispatch_upstream_connect, init_flags,
}

-- The client's body is piped once if it was started, and else not; it was not if the upstream had
-- failed before; and a client that is gone has taken the upstream request with it.
pub record IsGuarded (f : Flags) : Type 0 where
  pub piped : f.pipelines ≡ (if f.request_pipeline_started then 1 else 0)
  pub not_failed : (f.request_pipeline_started ≡ false) ⊎ (f.upstream_failed ≡ false)
  pub gone : (f.client_disconnected ≡ false) ⊎ (f.upstream_destroyed ≡ true)

on_event-IsGuarded :
    (s : RequestScope) (e : UpstreamEvent) (f : Flags) → IsGuarded f → IsGuarded (on_event s e f)
unfolding on_event on_client_disconnect on_client_aborted on_client_response_close
    cleanup_client_listeners on_pre_pipeline_error start_request_pipeline on_pipeline_end
    dispatch_upstream_connect
on_event-IsGuarded s client_closed f g = ground arith
on_event-IsGuarded s response_closed f g = ground arith
on_event-IsGuarded s response_finished f g = ground arith
on_event-IsGuarded s (client_aborted b) f g = ground arith
on_event-IsGuarded s (upstream_error e) f g = ground arith
on_event-IsGuarded s (connect_dispatched none) f g = ground arith
on_event-IsGuarded s (connect_dispatched (some (signal x))) f g = ground arith
on_event-IsGuarded s (connect_dispatched (some (error x y))) f g = ground arith
on_event-IsGuarded s (connect_dispatched (some (object x y z))) f g = ground arith
on_event-IsGuarded s (connect_dispatched (some (primitive x))) f g = ground arith
on_event-IsGuarded s (pipeline_ended none) f g = ground arith
on_event-IsGuarded s (pipeline_ended (some e)) f g = ground arith

on_events-IsGuarded :
    (events : List (RequestScope × UpstreamEvent)) (f : Flags)
    → IsGuarded f
    → IsGuarded (on_events events f)
unfolding on_events
on_events-IsGuarded [] f g = g
on_events-IsGuarded ((s, e) ∷ events) f g =
    on_events-IsGuarded events _ (on_event-IsGuarded s e f g)

-- From its creation on, whatever events come and in whatever order: the client's body is piped into
-- the upstream request at most once, and never if the upstream had failed before; and once the client
-- counts as disconnected, the upstream request is destroyed.
pub init_flags-IsGuarded :
    (now : ℕ) (s : RequestScope) (events : List (RequestScope × UpstreamEvent))
    → IsGuarded (on_events events (init_flags now s))
unfolding init_flags
init_flags-IsGuarded now s events =
    on_events-IsGuarded events _ (record { piped = refl; not_failed = inl refl; gone = inl refl })
