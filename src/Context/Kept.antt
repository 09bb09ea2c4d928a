-- ===== src/Context/Kept.antt =====
-- The maps of the context manager still agree with the objects when entries are taken away.
use mitm_core.Prelude.{
  ◌<◌, ◌≡◌, none, some, List, [], ◌∷◌, arith, nat_eq, string_eq, pair_eq, if◌then◌else◌,
  Option-cases, inl, inr, true, false,
}
use mitm_core.Prelude.Assoc.{lookup}
use mitm_core.Prelude.Entries.{Each-remove, AreOnce-remove}
use mitm_core.Net.{Ref, Socket}
use mitm_core.Context.Manager.{
  Manager, Listener, Event, Callback, forget_request, forget_connection, remove_context,
  run_callback, run_callbacks, emit, is_for,
}
use mitm_core.Context.Request.{destroy_request_lifecycle, destroy_active_requests}
use mitm_core.Context.WellFormed.{IsSession, IsRequest, IsWellFormed}

run_callback-IsWellFormed :
    (c : Callback) (m : Manager) → IsWellFormed m → IsWellFormed (run_callback c m)
unfolding run_callback
run_callback-IsWellFormed (forget_request key) m h = record {
  stored = h.stored;
  stored_once = h.stored_once;
  connected = h.connected;
  active = h.active;
  indexed = Each-remove (λ _ ref. IsRequest m ref) key m.request_index h.indexed;
  indexed_once = AreOnce-remove key m.request_index h.indexed_once;
  lived = h.lived;
  lived_once = h.lived_once;
}
run_callback-IsWellFormed (forget_connection id) m h = record {
  stored = h.stored;
  stored_once = h.stored_once;
  connected = Each-remove (λ i ref. (ref ≡ i) × IsSession m ref) id m.connection_index h.connected;
  active = h.active;
  indexed = h.indexed;
  indexed_once = h.indexed_once;
  lived = h.lived;
  lived_once = h.lived_once;
}

run_callbacks-IsWellFormed :
    (socket : Ref) (event : Event) (ls : List Listener) (m : Manager)
    → IsWellFormed m
    → IsWellFormed (run_callbacks socket event ls m)
unfolding run_callbacks
run_callbacks-IsWellFormed socket event [] m h = h
run_callbacks-IsWellFormed socket event (l ∷ ls) m h =
    run_callbacks-IsWellFormed socket event ls _
      (elim (is_for socket event l)
        as (λ b. IsWellFormed (if b then run_callback l.callback m else m)) [
          | true ↦ run_callback-IsWellFormed l.callback m h
          | false ↦ h
        ])

pub emit-IsWellFormed :
    (socket : Ref) (event : Event) (m : Manager)
    → IsWellFormed m
    → IsWellFormed (emit socket event m)
unfolding emit
emit-IsWellFormed socket event m h =
    let ran = run_callbacks-IsWellFormed socket event m.listeners m h in
    record {
      stored = ran.stored;
      stored_once = ran.stored_once;
      connected = ran.connected;
      active = ran.active;
      indexed = ran.indexed;
      indexed_once = ran.indexed_once;
      lived = ran.lived;
      lived_once = ran.lived_once;
    }

pub unknown :
    (socket : Socket) (m : Manager)
    → lookup socket.id m.context_store ≡ none
    → remove_context socket m ≡ m
unfolding remove_context
unknown socket m e = ground arith

pub removed :
    (socket : Socket) (m : Manager) (ref : Ref)
    → lookup socket.id m.context_store ≡ some ref
    → remove_context socket m ≡ run_callback (forget_connection (m.sessions ref).connection_id) m
unfolding remove_context run_callback
removed socket m ref e = ground arith

pub remove_context-IsWellFormed :
    (socket : Socket) (m : Manager) → IsWellFormed m → IsWellFormed (remove_context socket m)
remove_context-IsWellFormed socket m h = elim (Option-cases (lookup socket.id m.context_store)) [
  | inl e ↦ rw (unknown socket m e) h
  | inr (ref, e) ↦
      rw (removed socket m ref e)
        (run_callback-IsWellFormed (forget_connection (m.sessions ref).connection_id) m h)
]

pub destroy_request_lifecycle-IsWellFormed :
    (id : Ref) (m : Manager) → IsWellFormed m → IsWellFormed (destroy_request_lifecycle id m)
unfolding destroy_request_lifecycle
destroy_request_lifecycle-IsWellFormed id m h = record {
  stored = h.stored;
  stored_once = h.stored_once;
  connected = h.connected;
  active = Each-remove (λ i ref. (ref ≡ i) × IsRequest m ref) id m.active_requests h.active;
  indexed = h.indexed;
  indexed_once = h.indexed_once;
  lived = Each-remove (λ _ ref. ref < m.fresh) id m.request_life_cycle_index h.lived;
  lived_once = AreOnce-remove id m.request_life_cycle_index h.lived_once;
}

pub destroy_active_requests-IsWellFormed :
    (m : Manager) → IsWellFormed m → IsWellFormed (destroy_active_requests m)
unfolding destroy_active_requests lookup
destroy_active_requests-IsWellFormed m h = record {
  stored = h.stored;
  stored_once = h.stored_once;
  connected = h.connected;
  active = λ id ref p. ground arith;
  indexed = λ key ref p. ground arith;
  indexed_once = λ key other ref p q. ground arith;
  lived = λ id ref p. ground arith;
  lived_once = λ id other ref p q. ground arith;
}
