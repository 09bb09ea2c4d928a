-- ===== src/Rules.antt =====
-- core/rule: a rule file that is watched and appended to (ruleStore.ts), and the registry of the
-- files by their names (RuleEngine.ts). The file system is a map from paths to texts, with the paths
-- that cannot be read or written; Node's `path` is a parameter.
pub mod Again
pub mod Saving
pub mod Watching
use Prim.Native.String.{◌++◌}
use mitm_core.Prelude.{
  ℕ, suc, String, Bool, true, false, Option, none, some, List, [], ◌∷◌, if◌then◌else◌, or_else, mem,
  is_some, string_eq, update,
}
use mitm_core.Prelude.Assoc
use mitm_core.Prelude.Assoc.{Assoc, lookup, insert}
use mitm_core.Prelude.Contains.{contains}
use mitm_core.Net.{Ref}

-- What `fs` finds and refuses.
pub record Disk : Type 0 where
  pub files : Assoc String String
  pub dirs : List String
  pub unreadable : List String
  pub read_only : List String

-- `readFileSync`; `none` is the exception.
abbrev pub read_file : String → Disk → Option String
read_file path d = if mem path d.unreadable then none else lookup path d.files

-- `writeFileSync`.
abbrev pub write_file : String → String → Disk → Option Disk
write_file path content d =
    if mem path d.read_only then none else some (record d { files = insert path content d.files })

-- `appendFileSync`.
abbrev pub append_file : String → String → Disk → Option Disk
append_file path more d = write_file path (or_else (lookup path d.files) "" ++ more) d

-- `mkdirSync` with `recursive`.
abbrev pub make_dir : String → Disk → Option Disk
make_dir dir d = if mem dir d.read_only then none else some (record d { dirs = dir ∷ d.dirs })

-- `path` and `process.cwd()`.
pub record PathLib : Type 0 where
  pub is_absolute : String → Bool
  pub normalize : String → String
  pub resolve : String → String
  pub dirname : String → String

-- `IRuleParser`; `none` is an exception.
pub record RuleParser (T : Type 0) : Type 0 where
  pub parse : String → Option T
  pub matches : T → String → Bool
  pub format_for_save : Option (String → Option String)

-- `WatchableRuleFile`; `reload_timer` and `watcher` tell whether one is set.
pub record RuleFile (T : Type 0) : Type 0 where
  pub name : String
  pub file_path : String
  pub parser : RuleParser T
  pub rules : T
  pub reload_timer : Bool
  pub pending_saves : List String
  pub watcher : Bool

-- What a call leaves, and whether it threw.
pub record Saved (T : Type 0) : Type 0 where
  pub file : RuleFile T
  pub disk : Disk
  pub thrown : Bool

ensure_dir : String → Disk → Option Disk
ensure_dir dir d = if mem dir d.dirs then some d else make_dir dir d

ensure_file : String → Option Disk → Option Disk
ensure_file path none = none
ensure_file path (some d) = if Assoc.has path d.files then some d else write_file path "" d

-- The `try` block of `appendRule`: an exception of `fs` is only logged.
save_in : String → String → String → Option String → Disk → Disk
save_in eol path rule none d = d
save_in eol path rule (some content) d =
    if contains content rule then d else or_else (append_file path (eol ++ rule) d) d

unfoldable pub save_rule : String → String → String → Disk → Disk
unfolding save_in
save_rule eol path rule d = save_in eol path rule (read_file path d) d

module _ {T : Type 0} where
  parsed_or : T → RuleParser T → Option String → T
  parsed_or rules parser none = rules
  parsed_or rules parser (some raw) = or_else (parser.parse raw) rules

  unfoldable pub load_rules : Disk → RuleFile T → RuleFile T
  unfolding parsed_or
  load_rules d f = record f {
    rules = parsed_or f.rules f.parser (read_file f.file_path d);
    pending_saves = [];
  }

  started : RuleFile T → Option Disk → Option (Saved T)
  started f none = none
  started f (some d) =
      some (record { file = record (load_rules d f) { watcher = true }; disk = d; thrown = false })

  -- `init`; `none` is an exception of `fs`, which the constructor throws on.
  unfoldable pub init : PathLib → RuleFile T → Disk → Option (Saved T)
  unfolding ensure_dir ensure_file started
  init paths f d = started f (ensure_file f.file_path (ensure_dir (paths.dirname f.file_path) d))

  -- The constructor.
  unfoldable pub new_rule_file :
      PathLib → String → String → RuleParser T → T → Disk → Option (Saved T)
  new_rule_file paths name input parser default_state d =
      init paths
        (record {
          name = name;
          file_path =
              if paths.is_absolute input then paths.normalize input else paths.resolve input;
          parser = parser;
          rules = default_state;
          reload_timer = false;
          pending_saves = [];
          watcher = false;
        })
        d

  unfoldable pub match_target : String → RuleFile T → Bool
  match_target target f = f.parser.matches f.rules target

  save_formatted : String → Option String → RuleFile T → Disk → Saved T
  save_formatted eol none f d = record { file = f; disk = d; thrown = true }
  save_formatted eol (some rule) f d = record {
    file = f;
    disk = save_rule eol f.file_path rule d;
    thrown = false;
  }

  append_with : String → Option (String → Option String) → String → RuleFile T → Disk → Saved T
  unfolding save_formatted
  append_with eol none input f d = record { file = f; disk = d; thrown = false }
  append_with eol (some format) input f d =
      if mem input f.pending_saves
      then record { file = f; disk = d; thrown = false }
      else save_formatted eol (format input) (record f { pending_saves = input ∷ f.pending_saves })
          d

  -- `appendRule`; `eol` is `os.EOL`.
  unfoldable pub append_rule : String → String → RuleFile T → Disk → Saved T
  unfolding append_with
  append_rule eol input f d = append_with eol f.parser.format_for_save input f d

  -- `triggerDebounce`: the one timer is set again.
  unfoldable pub trigger_debounce : RuleFile T → RuleFile T
  trigger_debounce f = record f { reload_timer = true }

  unfoldable pub destroy : RuleFile T → RuleFile T
  destroy f = record f { reload_timer = false; watcher = false }

-- What happens to a store: a rule is asked for, `fs.watch` tells of a change, the timer runs out, or
-- the store is destroyed.
pub data RuleEvent : Type 0 where
  asked : String → RuleEvent
  changed : RuleEvent
  elapsed : RuleEvent
  closed : RuleEvent

module _ {T : Type 0} where
  -- A closed watcher tells nothing, and a timer fires once.
  unfoldable pub on_rule_event : String → RuleEvent → RuleFile T → Disk → Saved T
  on_rule_event eol (asked input) f d = append_rule eol input f d
  on_rule_event eol changed f d = record {
    file = if f.watcher then trigger_debounce f else f;
    disk = d;
    thrown = false;
  }
  on_rule_event eol elapsed f d = record {
    file = if f.reload_timer then record (load_rules d f) { reload_timer = false } else f;
    disk = d;
    thrown = false;
  }
  on_rule_event eol closed f d = record { file = destroy f; disk = d; thrown = false }

  unfoldable pub on_rule_events : String → List RuleEvent → RuleFile T → Disk → Saved T
  on_rule_events eol [] f d = record { file = f; disk = d; thrown = false }
  on_rule_events eol (e ∷ es) f d =
      let s = on_rule_event eol e f d in on_rule_events eol es s.file s.disk

-- `RuleEngine`: its static map of stores, which are shared objects.
pub record Engines (T : Type 0) : Type 0 where
  pub stores : Assoc String Ref
  pub objects : Ref → RuleFile T
  pub fresh : Ref

module _ {T : Type 0} where
  registered : String → Engines T → Option (Saved T) → Option (Engines T × Disk)
  registered name e none = none
  registered name e (some s) = some (
    record {
      stores = insert name e.fresh e.stores;
      objects = update e.fresh s.file e.objects;
      fresh = suc e.fresh;
    },
    s.disk,
  )

  -- `createRule` of a class with this name, path, parser and default; `join` is `path.join`.
  unfoldable pub create_rule :
      PathLib
      → (String → String)
      → String
      → String
      → RuleParser T
      → T
      → Engines T
      → Disk
      → Option (Engines T × Disk)
  unfolding registered
  create_rule paths join name rule_path parser default_state e d =
      registered name e (new_rule_file paths name (join rule_path) parser default_state d)

  unfoldable pub get_rule_store : String → Engines T → Option Ref
  get_rule_store name e = lookup name e.stores
