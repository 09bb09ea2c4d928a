-- ===== src/Rules/Watching.antt =====
-- When the rules of a store change, and which store a name finds.
use mitm_core.Prelude.{
  arith, String, false, Option, none, some, List, [], ◌∷◌, or_else, string_eq, nat_eq, ◌≡◌, ◌≢◌,
  refl, subst, eq_iff, WhenSome,
}
use mitm_core.Prelude.Assoc.{lookup-insert, lookup-insert_self, beq_refl}
use mitm_core.Rules.{
  Disk, read_file, RuleFile, Saved, append_rule, load_rules, PathLib, RuleParser, destroy,
  RuleEvent, asked, changed, elapsed, closed, on_rule_event, on_rule_events, match_target, Engines,
  create_rule, get_rule_store, new_rule_file, parsed_or, started, init, registered,
}

module _ {T : Type 0} (eol : String) where
  -- No timer runs and nothing is watched.
  abbrev IsStill : RuleFile T → RuleFile T → Type 0
  IsStill was f =
      (f.reload_timer ≡ false)
      × (f.watcher ≡ false)
      × (f.rules ≡ was.rules)
      × (f.parser ≡ was.parser)

  on_rule_event-IsStill :
      (was : RuleFile T) (e : RuleEvent) (f : RuleFile T) (d : Disk)
      → IsStill was f
      → IsStill was (on_rule_event eol e f d).file
  unfolding on_rule_event append_rule destroy
  on_rule_event-IsStill was (asked input) f d h = ground arith
  on_rule_event-IsStill was changed f d h = ground arith
  on_rule_event-IsStill was elapsed f d h = ground arith
  on_rule_event-IsStill was closed f d h = ground arith

  on_rule_events-IsStill :
      (was : RuleFile T) (es : List RuleEvent) (f : RuleFile T) (d : Disk)
      → IsStill was f
      → IsStill was (on_rule_events eol es f d).file
  unfolding on_rule_events
  on_rule_events-IsStill was [] f d h = h
  on_rule_events-IsStill was (e ∷ es) f d h =
      on_rule_events-IsStill was es (on_rule_event eol e f d).file (on_rule_event eol e f d).disk
        (on_rule_event-IsStill was e f d h)

  -- A store that was destroyed answers every target as it did before, whatever is written to its
  -- file and however late a change or a timer would come.
  pub destroyed_matches :
      (es : List RuleEvent) (f : RuleFile T) (d : Disk) (target : String)
      → match_target target (on_rule_events eol es (destroy f) d).file ≡ match_target target f
  unfolding match_target destroy
  destroyed_matches es f d target =
      let (_, _, rules, parser) =
        on_rule_events-IsStill f es (destroy f) d (refl, refl, refl, refl) in
      cc

module _ {T : Type 0} where
  -- What the file holds, where it can be read and parsed, are the rules.
  abbrev pub IsLoaded : RuleParser T → Disk → RuleFile T → Type 0
  IsLoaded parser d f =
      WhenSome (λ raw. WhenSome (λ rules. f.rules ≡ rules) (parser.parse raw))
        (read_file f.file_path d)

  or_else_lem : (default : T) (o : Option T) → WhenSome (λ rules. or_else o default ≡ rules) o
  or_else_lem default none = tt
  or_else_lem default (some rules) = refl

  parsed_or_lem :
      (rules : T) (parser : RuleParser T) (o : Option String)
      → WhenSome (λ raw. WhenSome (λ r. parsed_or rules parser o ≡ r) (parser.parse raw)) o
  unfolding parsed_or
  parsed_or_lem rules parser none = tt
  parsed_or_lem rules parser (some raw) = or_else_lem rules (parser.parse raw)

  started-IsLoaded :
      (f : RuleFile T) (o : Option Disk)
      → WhenSome (λ s. IsLoaded f.parser s.disk s.file) (started f o)
  unfolding started load_rules
  started-IsLoaded f none = tt
  started-IsLoaded f (some d) = parsed_or_lem f.rules f.parser (read_file f.file_path d)

  IsRegistered : String → RuleParser T → Engines T → Engines T × Disk → Type 0
  IsRegistered name parser e (after, disk) =
      (get_rule_store name after ≡ some e.fresh)
      × ((other : String) → name ≢ other → get_rule_store other after ≡ get_rule_store other e)
      × IsLoaded parser disk (after.objects e.fresh)

  registered_lem :
      (name : String) (parser : RuleParser T) (e : Engines T) (o : Option (Saved T))
      → WhenSome (λ s. IsLoaded parser s.disk s.file) o
      → WhenSome (IsRegistered name parser e) (registered name e o)
  unfolding registered get_rule_store IsRegistered
  registered_lem name parser e none h = tt
  registered_lem name parser e (some s) h = (
    lookup-insert_self name e.fresh e.stores,
    λ other p. ground (arith, lookup-insert name other e.fresh e.stores, eq_iff name other),
    rw (beq_refl e.fresh) h,
  )

-- Where `createRule` does not throw, the name finds the new store, every other name finds what it
-- found before, and the rules of the store are those that its file holds, where the file can be
-- read and parsed.
pub create_rule_lem :
    {T : Type 0} (paths : PathLib) (join : String → String) (name rule_path : String)
    (parser : RuleParser T) (default_state : T) (e after : Engines T) (d disk : Disk)
    → create_rule paths join name rule_path parser default_state e d ≡ some (after, disk)
    → (get_rule_store name after ≡ some e.fresh)
      × ((other : String) → name ≢ other → get_rule_store other after ≡ get_rule_store other e)
      × IsLoaded parser disk (after.objects e.fresh)
unfolding create_rule new_rule_file init IsRegistered
create_rule_lem paths join name rule_path parser default_state e after d disk h =
    subst (WhenSome (IsRegistered name parser e)) h
      (registered_lem name parser e _ (started-IsLoaded _ _))
