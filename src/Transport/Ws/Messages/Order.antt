-- ===== src/Transport/Ws/Messages/Order.antt =====
-- What is sent on the other side, and in which order.
use mitm_core.Prelude.{
  ℕ, suc, Bool, true, false, Option, none, some, List, [], ◌∷◌, ◌++◌, if◌then◌else◌, nat_eq, ◌≡◌,
  refl, sym, ap, ◌∙◌, arith, is_some, nat_beq_iff, update,
}
use mathlib.Core.List.{append-nil, append_assoc}
use mitm_core.Prelude.Assoc.{lookup, remove, lookup-insert, lookup-remove}
use mitm_core.Net.{Buffer}
use mitm_core.Signals.{Thrown, signal, error, object, primitive}
use mitm_core.Scope.{RequestScope}
use mitm_core.Transport.Ws.{is_open}
use mitm_core.Transport.Ws.Messages.{
  MessageContext, Relay, MessageEvent, came, told, seen, on_message, on_messages, catch_message,
  send, deliver, on_told, on_seen, after_plugins, after_observers,
}

-- The messages that wait for their plugins, by their numbers.
abbrev pub Pending : Type 0
Pending = ℕ → Bool

-- What the plugins let through: the payload as they left it, unless one of them threw, dropped it,
-- or hijacked the request.
abbrev pub permitted : RequestScope → MessageContext → Option Thrown → List (Buffer × Bool)
permitted s context (some e) = []
permitted s context none =
    if s.lifecycle.is_hijacked
    then []
    else if context.drop
    then []
    else (context.payload, context.is_binary) ∷ []

abbrev pub output : Pending → MessageEvent → RequestScope → List (Buffer × Bool)
output pending (came raw is_binary) s = []
output pending (told n context thrown) s = if pending n then permitted s context thrown else []
output pending (seen n thrown) s = []

abbrev pub pending_after : Pending → ℕ → MessageEvent → Pending
pending_after pending count (came raw is_binary) = update count true pending
pending_after pending count (told n context thrown) = update n false pending
pending_after pending count (seen n thrown) = pending

abbrev pub count_after : ℕ → MessageEvent → ℕ
count_after count (came raw is_binary) = suc count
count_after count (told n context thrown) = count
count_after count (seen n thrown) = count

-- What a direction promises: a queue of what the plugins let through, in the order in which they
-- settle.
abbrev pub outputs : Pending → ℕ → List (RequestScope × MessageEvent) → List (Buffer × Bool)
outputs pending count [] = []
outputs pending count ((s, e) ∷ events) =
    output pending e s ++ outputs (pending_after pending count e) (count_after count e) events

-- The relay is at this point of the queue, and its socket is open.
pub record IsAt (pending : Pending) (count : ℕ) (r : Relay) : Type 0 where
  pub waits : (n : ℕ) → is_some (lookup n r.waiting) ≡ pending n
  pub counts : r.count ≡ count
  pub is_opened : is_open r.peer ≡ true

abbrev Moves : Pending → ℕ → List (Buffer × Bool) → Relay → Relay → Type 0
Moves pending count sent r r' = IsAt pending count r' × (r'.peer.sent ≡ r.peer.sent ++ sent)

catch_message_same :
    (e : Thrown) (r : Relay)
    → ((catch_message e r).waiting ≡ r.waiting)
      × ((catch_message e r).count ≡ r.count)
      × ((catch_message e r).peer ≡ r.peer)
unfolding catch_message
catch_message_same (signal s) r = (refl, refl, refl)
catch_message_same (error message code) r = (refl, refl, refl)
catch_message_same (object message code shown) r = (refl, refl, refl)
catch_message_same (primitive shown) r = (refl, refl, refl)

after_plugins_same :
    (n : ℕ) (raw : Buffer × Bool) (context : MessageContext) (thrown : Option Thrown) (r : Relay)
    → is_open r.peer ≡ true
    → let r' = after_plugins n raw context thrown r in
      (r'.waiting ≡ r.waiting)
      × (r'.count ≡ r.count)
      × (is_open r'.peer ≡ true)
      × (r'.peer.sent ≡ r.peer.sent ++ permitted r.scope context thrown)
unfolding after_plugins deliver send
after_plugins_same n raw context (some e) r h =
    ground (arith, catch_message_same e r, append-nil r.peer.sent)
after_plugins_same n raw context none r h = ground (arith, append-nil r.peer.sent)

told-Moves :
    (pending : Pending) (count : ℕ) (n : ℕ) (context : MessageContext) (thrown : Option Thrown)
    (r : Relay) (o : Option (Buffer × Bool))
    → lookup n r.waiting ≡ o
    → IsAt pending count r
    → Moves
        (update n false pending)
        count
        (if pending n then permitted r.scope context thrown else [])
        r
        (on_told n context thrown r o)
unfolding on_told
told-Moves pending count n context thrown r none e h = (
  record {
    waits = λ m. ground (arith, h.waits m, h.waits n, nat_beq_iff n m);
    counts = h.counts;
    is_opened = h.is_opened;
  },
  ground (arith, h.waits n, append-nil r.peer.sent),
)
told-Moves pending count n context thrown r (some raw) e h =
    let (w, c, o, sent) =
      after_plugins_same n raw context thrown (record r { waiting = remove n r.waiting })
        h.is_opened in
    (
      record {
        waits = λ m. ground (arith, w, h.waits m, lookup-remove n m r.waiting);
        counts = c ∙ h.counts;
        is_opened = o;
      },
      ground (arith, h.waits n, sent),
    )

seen_same :
    (n : ℕ) (thrown : Option Thrown) (r : Relay) (o : Option (Buffer × Bool))
    → let r' = on_seen n thrown r o in
      (r'.waiting ≡ r.waiting) × (r'.count ≡ r.count) × (r'.peer ≡ r.peer)
unfolding on_seen after_observers
seen_same n thrown r none = (refl, refl, refl)
seen_same n none r (some raw) = (refl, refl, refl)
seen_same n (some e) r (some raw) =
    catch_message_same e (record r { observed = remove n r.observed })

on_message-Moves :
    (pending : Pending) (count : ℕ) (s : RequestScope) (e : MessageEvent) (r : Relay)
    → IsAt pending count r
    → Moves
        (pending_after pending count e)
        (count_after count e)
        (output pending e s)
        r
        (on_message s e r)
unfolding on_message
on_message-Moves pending count s (came raw is_binary) r h = (
  record {
    waits = λ m.
        ground (arith, h.waits m, h.counts, lookup-insert r.count m (raw, is_binary) r.waiting);
    counts = ap suc h.counts;
    is_opened = h.is_opened;
  },
  sym (append-nil r.peer.sent),
)
on_message-Moves pending count s (told n context thrown) r h =
    told-Moves pending count n context thrown (record r { scope = s }) (lookup n r.waiting) refl
      (record { waits = h.waits; counts = h.counts; is_opened = h.is_opened })
on_message-Moves pending count s (seen n thrown) r h =
    let (w, c, p) = seen_same n thrown (record r { scope = s }) (lookup n r.observed) in
    (
      record {
        waits = λ m. rw w (h.waits m);
        counts = c ∙ h.counts;
        is_opened = ap is_open p ∙ h.is_opened;
      },
      ap (λ ws. ws.sent) p ∙ sym (append-nil r.peer.sent),
    )

-- While the socket of the other side is open, it is sent exactly what the queue gives: of each
-- message that came, what its plugins let through, once, in the order in which the plugins settle,
-- whatever order the messages came in.
pub on_messages_refine :
    (pending : Pending) (count : ℕ) (events : List (RequestScope × MessageEvent)) (r : Relay)
    → IsAt pending count r
    → (on_messages events r).peer.sent ≡ r.peer.sent ++ outputs pending count events
unfolding on_messages
on_messages_refine pending count [] r h = sym (append-nil r.peer.sent)
on_messages_refine pending count ((s, e) ∷ events) r h =
    let (h', sent) = on_message-Moves pending count s e r h in
    on_messages_refine (pending_after pending count e) (count_after count e) events
      (on_message s e r) h'
    ∙ ap (λ x. x ++ outputs (pending_after pending count e) (count_after count e) events) sent
    ∙ append_assoc r.peer.sent (output pending e s)
        (outputs (pending_after pending count e) (count_after count e) events)
