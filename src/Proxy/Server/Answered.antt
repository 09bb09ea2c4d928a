-- ===== src/Proxy/Server/Answered.antt =====
-- How the server's handlers end what they cannot pass on, and how often a signal stops the proxy.
use mitm_core.Prelude.{
  ℕ, suc, zero, false, Option, none, some, [], ◌∷◌, ◌≡◌, refl, ap, sym, subst, ◌∙◌, arith, WhenSome,
  nat_eq,
}
use mitm_core.Net.{Response, IncomingMessage}
use mitm_core.Signals.{Thrown}
use mitm_core.Scope.{RequestScope}
use mitm_core.Assign.{set_client}
use mitm_core.Pipeline.Failure.Answers.{IsOver}
use mitm_core.Proxy.Server.{
  on_server_request, answer_internal, answer_in, after_plain, ShutdownHandlers,
  install_shutdown_handlers, on_signal, on_signals,
}

answer_internal-IsOver : (res : Response) → IsOver (answer_internal res)
unfolding answer_internal
answer_internal-IsOver res = ground arith

answer_in-IsOver :
    (s : RequestScope) (o : Option Response)
    → s.request.client.res ≡ o
    → WhenSome IsOver (answer_in s o).request.client.res
unfolding answer_in
answer_in-IsOver s none e = rw e tt
answer_in-IsOver s (some res) e = answer_internal-IsOver res

-- If the emission of a plain request throws, whatever it left in the scope: the response is over,
-- by its own end, by the answer 500 or by its destruction, and the error is reported once.
pub on_server_request-IsOver :
    (emit : RequestScope → RequestScope × Option Thrown) (req : IncomingMessage) (res : Response)
    (s after : RequestScope) (e : Thrown)
    → emit (set_client (record (s.request.client) { req = some req; res = some res }) s)
      ≡ (after, some e)
    → let (t, reported) = on_server_request emit req res s in
      WhenSome IsOver t.request.client.res × (reported ≡ e ∷ [])
unfolding on_server_request after_plain
on_server_request-IsOver emit req res s after e p =
    rw p (answer_in-IsOver after after.request.client.res refl, refl)

idle : (h : ShutdownHandlers) → h.registered ≡ 0 → on_signal h ≡ h
unfolding on_signal
idle h e = ground arith

no_handler_left : (n : ℕ) (h : ShutdownHandlers) → h.registered ≡ 0 → on_signals n h ≡ h
unfolding on_signals
no_handler_left zero h e = refl
no_handler_left (suc n) h e = ap (on_signals n) (idle h e) ∙ no_handler_left n h e

abbrev Stopped : ShutdownHandlers → ShutdownHandlers → Type 0
Stopped h after = (after.stops ≡ suc h.stops) × (after.registered ≡ 0) × (after.has_cleanup ≡ false)

first_signal :
    (h : ShutdownHandlers)
    → h.has_cleanup ≡ false
    → Stopped h (on_signal (install_shutdown_handlers (install_shutdown_handlers h)))
unfolding on_signal install_shutdown_handlers
first_signal h e = ground arith

-- However often the handlers are installed by a proxy that holds none, and however many signals come
-- after that, the proxy is stopped once, and no handler is left in the process.
pub signals_stop_once :
    (n : ℕ) (h : ShutdownHandlers)
    → h.has_cleanup ≡ false
    → let after = on_signals (suc n) (install_shutdown_handlers (install_shutdown_handlers h)) in
      (after.stops ≡ suc h.stops) × (after.registered ≡ 0) × (after.has_cleanup ≡ false)
unfolding on_signals
signals_stop_once n h e =
    let after = on_signal (install_shutdown_handlers (install_shutdown_handlers h)) in
    let stopped = first_signal h e in
    subst (Stopped h) (sym (no_handler_left n after stopped.1)) stopped
