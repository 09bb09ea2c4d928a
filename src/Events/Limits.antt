-- ===== src/Events/Limits.antt =====
-- Plugins run in order, and each has its time.
use mitm_core.Prelude.{
  ℕ, ◌+◌, ◌*◌, All, ◌≤◌, ◌<◌, ◌≡◌, Option, none, some, List, [], ◌∷◌, ◌++◌, arith, length,
  Option-cases, inl, inr, nat_eq,
}
use mitm_core.Signals.{Thrown}
use mitm_core.Scope.{RequestScope}
use mitm_core.Events.{Listener, Execution, Emission, race_timer, race, emit_plugins}

-- The emission settles within a time.
abbrev pub SettlesWithin : ℕ → Option Emission → Type 0
SettlesWithin bound none = ⊥
SettlesWithin bound (some r) = r.elapsed ≤ bound

-- The listeners block the event loop for at most this long past a limit.
abbrev pub BlockAtMost : ℕ → ℕ → List Listener → Type 0
BlockAtMost limit slack listeners =
    All
      (λ (l : Listener).
        (s : RequestScope)
        → (free : ℕ) × ((l s).free_from limit ≡ some free) × (free ≤ limit + slack))
      listeners

race_timer-SettlesWithin :
    (limit slack free : ℕ) (e : Execution) (o : Option ℕ)
    → free ≤ limit + slack
    → SettlesWithin (limit + slack) (race_timer limit e o (some free))
unfolding race_timer
race_timer-SettlesWithin limit slack free e none h = h
race_timer-SettlesWithin limit slack free e (some t) h = ground arith

race-SettlesWithin :
    (limit slack free : ℕ) (e : Execution)
    → 0 < limit
    → e.free_from limit ≡ some free
    → free ≤ limit + slack
    → SettlesWithin (limit + slack) (race limit e)
unfolding race
race-SettlesWithin limit slack free e positive f h =
    ground (arith, race_timer-SettlesWithin limit slack free e e.settled_after h)

-- With a time limit, and listeners that block the event loop for no longer than `slack` past it,
-- every emission settles, also if listeners never settle, and takes at most the limit and the slack
-- for each listener. The timer cannot interrupt a listener that blocks.
pub emit_plugins-SettlesWithin :
    (limit slack : ℕ) (listeners : List Listener) (s : RequestScope)
    → 0 < limit
    → BlockAtMost limit slack listeners
    → SettlesWithin (length listeners * (limit + slack)) (emit_plugins limit listeners s)
unfolding emit_plugins
emit_plugins-SettlesWithin limit slack [] s positive free = omega arith
emit_plugins-SettlesWithin limit slack (l ∷ ls) s positive (free, frees) =
    let (at, e, h) = free s in
    let first = race-SettlesWithin limit slack at (l s) positive e h in
    elim (Option-cases (race limit (l s))) [
      | inl e ↦ ground arith
      | inr (r, e) ↦
          ground (arith, emit_plugins-SettlesWithin limit slack ls r.scope positive frees)
    ]

-- The listeners ran in order, and none of them threw or exceeded the limit.
pub data Ran (limit : ℕ) : List Listener → RequestScope → RequestScope → Type 0 where
  here : {s : RequestScope} → Ran limit [] s s
  next :
      {l : Listener} {ls : List Listener} {s u : RequestScope} (r : Emission)
      → race limit (l s) ≡ some r
      → r.thrown ≡ none
      → Ran limit ls r.scope u
      → Ran limit (l ∷ ls) s u

-- An emission that throws this, and leaves this scope.
abbrev pub Throws : Thrown → RequestScope → Option Emission → Type 0
Throws e t none = ⊥
Throws e t (some r) = (r.thrown ≡ some e) × (r.scope ≡ t)

-- If the listeners before one succeed and that one throws, or exceeds the limit, then the emission
-- throws the same value (the error "PLUGIN_TIMEOUT" if it was the limit) with the scope as it was
-- at that time, and no listener after it is called, whichever they are.
pub emit_plugins_stops :
    (limit : ℕ) (pre post : List Listener) (l : Listener) (s t : RequestScope) (r : Emission)
    (e : Thrown)
    → Ran limit pre s t
    → race limit (l t) ≡ some r
    → r.thrown ≡ some e
    → Throws e r.scope (emit_plugins limit (pre ++ l ∷ post) s)
unfolding emit_plugins
emit_plugins_stops limit [] post l s t r e here raced thrown = ground arith
emit_plugins_stops limit (k ∷ pre) post l s t r e (next q f g p) raced thrown =
    ground (arith, emit_plugins_stops limit pre post l q.scope t r e p raced thrown)
