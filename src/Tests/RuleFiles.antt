-- ===== src/Tests/RuleFiles.antt =====
-- Rule files and engines at concrete values.
use Prim.Native.String.{◌++◌}
use mitm_core.Prelude.{
  update, nat_eq, String, true, false, none, some, List, [], ◌∷◌, ◌≡◌, refl, string_eq,
  if◌then◌else◌, ◌==◌, arith,
}
use mitm_core.Prelude.Assoc.{lookup, insert}
use mitm_core.Prelude.Contains.{contains}
use mitm_core.Rules.{
  Disk, RuleFile, RuleParser, RuleEvent, asked, changed, elapsed, on_rule_events, on_rule_event,
  trigger_debounce, save_rule, PathLib, Engines, create_rule, append_rule, new_rule_file, init,
  load_rules,
}
use mitm_core.Rules.Saving.{IsOpen, IsSaved, Keeps, on_rule_events-Keeps}

-- A rule is the whole text of a file; a host is bypassed if the text contains it.
abbrev hosts : RuleParser String
hosts = record {
  parse = λ raw. if raw == "!" then none else some raw;
  matches = contains;
  format_for_save = some (λ host. some ("host " ++ host));
}

abbrev sample_disk : Disk
sample_disk = record {
  files = ("/rules", "host a.example") ∷ [];
  dirs = "/" ∷ [];
  unreadable = [];
  read_only = [];
}

abbrev sample_file : RuleFile String
sample_file = record {
  name = "bypass";
  file_path = "/rules";
  parser = hosts;
  rules = "host a.example";
  reload_timer = false;
  pending_saves = [];
  watcher = true;
}

abbrev sample_events : List RuleEvent
sample_events = asked "b.example" ∷ changed ∷ elapsed ∷ asked "a.example" ∷ []

abbrev paths : PathLib
paths = record { is_absolute = λ p. true; normalize = λ p. p; resolve = λ p. p; dirname = λ p. "/" }

abbrev engines : Engines String
engines = record { stores = []; objects = λ r. sample_file; fresh = 4 }

sample_disk-IsOpen : IsOpen "/rules" "host a.example" sample_disk
unfolding lookup
sample_disk-IsOpen = record { there = refl; can_read = refl; can_write = refl }

sample_file-IsSaved : IsSaved (λ host. "host " ++ host) "/rules" "host a.example" sample_file
sample_file-IsSaved = record { formats = refl; at_path = refl; pending_saved = λ i p. ground arith }

appended :
    (on_rule_events "|" sample_events sample_file sample_disk).disk.files
    ≡ ("/rules", "host a.example|host b.example") ∷ []
unfolding on_rule_events on_rule_event append_rule trigger_debounce load_rules save_rule lookup
    contains insert
appended = refl

on_rule_events-Keeps_example :
    Keeps
      (λ host. "host " ++ host)
      "/rules"
      "|"
      "host a.example"
      ("b.example" ∷ "a.example" ∷ [])
      (on_rule_events "|" sample_events sample_file sample_disk)
on_rule_events-Keeps_example =
    on_rule_events-Keeps (λ host. "host " ++ host) "/rules" "|" "host a.example" sample_events
      sample_file sample_disk sample_disk-IsOpen sample_file-IsSaved

abbrev created : Engines String
created = record {
  stores = ("bypass", 4) ∷ [];
  objects = update 4 sample_file (λ r. sample_file);
  fresh = 5;
}

is_created :
    create_rule paths (λ p. p) "bypass" "/rules" hosts "" engines sample_disk
    ≡ some (created, sample_disk)
unfolding create_rule new_rule_file init load_rules lookup insert
is_created = refl
