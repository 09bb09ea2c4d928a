-- ===== src/Rules/Saving.antt =====
-- What `appendRule` leaves in the file, whatever reloads come in between.
use Prim.Native.String.{◌++◌}
use text.Mathlib.TextLemmas.{append-nil, append_assoc}
use mitm_core.Prelude.{
  arith, String, Bool, true, false, some, List, [], ◌∷◌, if◌then◌else◌, mem, string_eq, ◌≡◌, refl,
  sym, ap, subst, ◌∙◌, All, eq_iff, ◌⊎◌, inl, inr, Bool-cases, ◌||◌, ◌==◌,
}
use mitm_core.Prelude.Assoc.{lookup, lookup-insert_self}
use mitm_core.Prelude.Contains.{contains, contains-append, contains_within}
use mitm_core.Rules.{
  Disk, RuleFile, Saved, append_rule, save_rule, load_rules, trigger_debounce, destroy, RuleEvent,
  asked, changed, elapsed, closed, on_rule_event, on_rule_events,
}

-- The file is there, and can be read and written.
pub record IsOpen (path : String) (content : String) (d : Disk) : Type 0 where
  pub there : lookup path d.files ≡ some content
  pub can_read : mem path d.unreadable ≡ false
  pub can_write : mem path d.read_only ≡ false

-- The file holds what it held with something behind it, and so each text of the list.
abbrev pub Holds : (path before : String) → List String → Disk → Type 0
Holds path before rules d =
    (after : String) × (added : String) × IsOpen path after d
    × (before ++ added ≡ after)
    × All (λ rule. contains after rule ≡ true) rules

ends_with : (before eol rule : String) → contains (before ++ (eol ++ rule)) rule ≡ true
ends_with before eol rule =
    subst (λ x. contains x rule ≡ true)
      (ap (λ r. (before ++ eol) ++ r) (append-nil rule) ∙ append_assoc before eol rule)
      (contains_within (before ++ eol) "" rule)

save_rule-Holds :
    (eol path rule content : String) (d : Disk)
    → IsOpen path content d
    → Holds path content (rule ∷ []) (save_rule eol path rule d)
unfolding save_rule
save_rule-Holds eol path rule content d h = elim (Bool-cases (contains content rule)) [
  | inl found ↦ (content, "", rw (h.can_read, h.there, found) h, append-nil content, (found, tt))
  | inr missing ↦ (
    content ++ (eol ++ rule),
    eol ++ rule,
    rw (h.can_read, h.there, missing, h.can_write)
        (record {
          there = rw h.there (lookup-insert_self path (content ++ (eol ++ rule)) d.files);
          can_read = h.can_read;
          can_write = h.can_write;
        }),
    refl,
    (ends_with content eol rule, tt),
  )
]

-- What the pending saves stand for: rules that the file holds.
pub record IsSaved {T : Type 0} (format : String → String) (path content : String) (f : RuleFile T)
    : Type 0 where
  pub formats : f.parser.format_for_save ≡ some (λ input. some (format input))
  pub at_path : f.file_path ≡ path
  pub pending_saved :
      (input : String) → mem input f.pending_saves ≡ true → contains content (format input) ≡ true

abbrev pub asked_in : List RuleEvent → List String
asked_in [] = []
asked_in (asked input ∷ es) = input ∷ asked_in es
asked_in (changed ∷ es) = asked_in es
asked_in (elapsed ∷ es) = asked_in es
asked_in (closed ∷ es) = asked_in es

pub one_of : (i j : String) (old : Bool) → (i == j || old) ≡ true → (i ≡ j) ⊎ (old ≡ true)
one_of i j old p = ground (arith, eq_iff i j)

All-append :
    (format : String → String) (before after added : String) (inputs : List String)
    → before ++ added ≡ after
    → All (λ input. contains before (format input) ≡ true) inputs
    → All (λ input. contains after (format input) ≡ true) inputs
All-append format before after added [] e h = tt
All-append format before after added (i ∷ is) e (p, ps) = (
  subst (λ c. contains c (format i) ≡ true) e (contains-append before (format i) added p),
  All-append format before after added is e ps,
)

asked_in-cons :
    (format : String → String) (content : String) (e : RuleEvent) (es : List RuleEvent)
    → All (λ input. contains content (format input) ≡ true) (asked_in (e ∷ []))
    → All (λ input. contains content (format input) ≡ true) (asked_in es)
    → All (λ input. contains content (format input) ≡ true) (asked_in (e ∷ es))
asked_in-cons format content (asked input) es (p, _) ps = (p, ps)
asked_in-cons format content changed es _ ps = ps
asked_in-cons format content elapsed es _ ps = ps
asked_in-cons format content closed es _ ps = ps

module _ {T : Type 0} (format : String → String) (path eol : String) where
  -- A step keeps the file open and what stands in it, and the pending saves true.
  abbrev pub Keeps : (before : String) → List String → Saved T → Type 0
  Keeps before inputs s =
      (after : String) × (added : String) × IsOpen path after s.disk
      × IsSaved format path after s.file
      × (before ++ added ≡ after)
      × All (λ input. contains after (format input) ≡ true) inputs

  load_rules-IsSaved :
      (content : String) (d : Disk) (f : RuleFile T)
      → IsSaved format path content f
      → IsSaved format path content (record (load_rules d f) { reload_timer = false })
  unfolding load_rules
  load_rules-IsSaved content d f h = record {
    formats = h.formats;
    at_path = h.at_path;
    pending_saved = λ input p. ground arith;
  }

  still :
      (content after added input : String) (f : RuleFile T)
      → IsSaved format path content f
      → content ++ added ≡ after
      → contains after (format input) ≡ true
      → (i : String) → mem i (input ∷ f.pending_saves) ≡ true
      → contains after (format i) ≡ true
  still content after added input f h e saved i p =
      elim (one_of i input (mem i f.pending_saves) p) [
        | inl same ↦ subst (λ j. contains after (format j) ≡ true) (sym same) saved
        | inr old ↦
            subst (λ c. contains c (format i) ≡ true) e
              (contains-append content (format i) added (h.pending_saved i old))
      ]

  append_rule-Keeps :
      (content input : String) (f : RuleFile T) (d : Disk)
      → IsOpen path content d
      → IsSaved format path content f
      → Keeps content (input ∷ []) (append_rule eol input f d)
  unfolding append_rule
  append_rule-Keeps content input f d o h = elim (Bool-cases (mem input f.pending_saves)) [
    | inl pending ↦ (
      content,
      "",
      rw (h.formats, pending) o,
      simp (h.formats, pending) h,
      append-nil content,
      (h.pending_saved input pending, tt),
    )
    | inr new ↦
        let (after, added, o', e, (saved, _)) =
          save_rule-Holds eol path (format input) content d o in
        (
          after,
          added,
          rw (h.formats, new, h.at_path) o',
          simp (h.formats, new)
              (record {
                formats = h.formats;
                at_path = h.at_path;
                pending_saved = still content after added input f h e saved;
              }),
          e,
          (saved, tt),
        )
  ]

  on_rule_event-Keeps :
      (content : String) (e : RuleEvent) (f : RuleFile T) (d : Disk)
      → IsOpen path content d
      → IsSaved format path content f
      → Keeps content (asked_in (e ∷ [])) (on_rule_event eol e f d)
  unfolding on_rule_event trigger_debounce destroy
  on_rule_event-Keeps content (asked input) f d o h = append_rule-Keeps content input f d o h
  on_rule_event-Keeps content changed f d o h = (
    content,
    "",
    o,
    elim f.watcher as (λ b. IsSaved format path content (if b then trigger_debounce f else f)) [
      | true ↦ record { formats = h.formats; at_path = h.at_path; pending_saved = h.pending_saved }
      | false ↦ h
    ],
    append-nil content,
    tt,
  )
  on_rule_event-Keeps content elapsed f d o h = (
    content,
    "",
    o,
    elim f.reload_timer
        as (λ b.
          IsSaved format path content
            (if b then record (load_rules d f) { reload_timer = false } else f)) [
              | true ↦ load_rules-IsSaved content d f h
              | false ↦ h
            ],
    append-nil content,
    tt,
  )
  on_rule_event-Keeps content closed f d o h = (
    content,
    "",
    o,
    record { formats = h.formats; at_path = h.at_path; pending_saved = h.pending_saved },
    append-nil content,
    tt,
  )

  -- From a file that can be read and written, and a store whose pending saves are in it, whatever
  -- is asked for, and however the reloads fall in between: the file stays open, it only grows at
  -- its end, each rule that was asked for stands in it as it was formatted, and the pending saves
  -- are still in it.
  pub on_rule_events-Keeps :
      (content : String) (es : List RuleEvent) (f : RuleFile T) (d : Disk)
      → IsOpen path content d
      → IsSaved format path content f
      → Keeps content (asked_in es) (on_rule_events eol es f d)
  unfolding on_rule_events
  on_rule_events-Keeps content [] f d o h = (content, "", o, h, append-nil content, tt)
  on_rule_events-Keeps content (e ∷ es) f d o h =
      let (middle, first, o', h', p, saved) = on_rule_event-Keeps content e f d o h in
      let s = on_rule_event eol e f d in
      let (after, second, o2, h2, q, later) = on_rule_events-Keeps middle es s.file s.disk o' h' in
      (
        after,
        first ++ second,
        o2,
        h2,
        sym (append_assoc content first second) ∙ ap (λ c. c ++ second) p ∙ q,
        asked_in-cons format after e es
            (All-append format middle after second (asked_in (e ∷ [])) q saved) later,
      )
