-- ===== src/Events/Bus/Once.antt =====
-- What registering and removing a listener does, and what becomes of a listener of `once`.
use mitm_core.Prelude.{
  String, Bool, true, false, List, [], ◌∷◌, ◌++◌, if◌then◌else◌, ◌==◌, string_eq, nat_eq, mem,
  or_else, ◌≡◌, refl, ap, arith, eq_iff, nat_beq_iff,
}
use mitm_core.Prelude.Assoc.{insert, lookup-insert, lookup-insert_self, beq_refl}
use mitm_core.Net.{Ref}
use mitm_core.Events.Bus.{
  Entry, Bus, entries_of, on, once, off, added, without_last, listeners, listeners_in,
  emit_async_calls,
}

mem_last :
    (listener : Ref) (once_ : Bool) (entries : List Entry)
    → mem listener (listeners_in (entries ++ record { listener = listener; is_once = once_ } ∷ []))
      ≡ true
mem_last listener once_ [] = ground (arith, nat_beq_iff listener listener)
mem_last listener once_ (entry ∷ entries) = ground (arith, mem_last listener once_ entries)

without_last-append :
    (listener : Ref) (once_ : Bool) (entries : List Entry)
    → without_last listener (entries ++ record { listener = listener; is_once = once_ } ∷ [])
      ≡ entries
unfolding without_last
without_last-append listener once_ [] = rw (beq_refl listener) refl
without_last-append listener once_ (entry ∷ entries) =
    rw (mem_last listener once_ entries, without_last-append listener once_ entries) refl

entries-added :
    (entry : Entry) (event : String) (bus : Bus)
    → entries_of event (added entry event bus) ≡ entries_of event bus ++ entry ∷ []
unfolding added
entries-added entry event bus =
    ap (λ o. or_else o []) (lookup-insert_self event (entries_of event bus ++ entry ∷ []) bus)

entries-insert :
    (event other : String) (l : List Entry) (bus : Bus)
    → entries_of other (insert event l bus) ≡ (if event == other then l else entries_of other bus)
entries-insert event other l bus = ground (arith, lookup-insert event other l bus)

entries-off :
    (event : String) (listener : Ref) (bus : Bus)
    → without_last listener (entries_of event (on event listener bus)) ≡ entries_of event bus
unfolding on
entries-off event listener bus =
    rw (entries-added (record { listener = listener; is_once = false }) event bus)
      (without_last-append listener false (entries_of event bus))

entries_kept :
    (event other : String) (listener : Ref) (bus : Bus)
    → entries_of other (off event listener (on event listener bus)) ≡ entries_of other bus
unfolding off on added
entries_kept event other listener bus =
    let entry : Entry = record { listener = listener; is_once = false } in
    ground (
      arith,
      eq_iff event other,
      entries-off event listener bus,
      entries-insert event other (without_last listener (entries_of event (on event listener bus)))
          (on event listener bus),
      entries-insert event other (entries_of event bus ++ entry ∷ []) bus,
    )

-- Taking off the listener that was registered last leaves the listeners of every event as they were
-- before, in their order, also where the same listener was registered before.
pub off-on :
    (event other : String) (listener : Ref) (bus : Bus)
    → listeners other (off event listener (on event listener bus)) ≡ listeners other bus
unfolding listeners
off-on event other listener bus = ap listeners_in (entries_kept event other listener bus)

-- A listener of `once` is called by every asynchronous emission that follows, and stays on the bus.
pub once_called_again :
    (event : String) (listener : Ref) (bus : Bus)
    → let (left, calls) = emit_async_calls event (once event listener bus) in
      (mem listener calls ≡ true)
      × (left ≡ once event listener bus)
      × ((emit_async_calls event left).1 ≡ calls)
unfolding emit_async_calls once listeners
once_called_again event listener bus = (
  rw (entries-added (record { listener = listener; is_once = true }) event bus)
      (mem_last listener true (entries_of event bus)),
  refl,
  refl,
)
