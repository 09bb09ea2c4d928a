-- ===== src/Rules/Again.antt =====
-- `appendRule` of a rule that was asked for before, also when the file was reloaded since.
use mitm_core.Prelude.{
  String, string_eq, true, List, [], ◌∷◌, mem, ◌≡◌, refl, sym, subst, All, inl, inr, Bool-cases,
}
use mitm_core.Prelude.Contains.{contains}
use mitm_core.Rules.{Disk, RuleFile, append_rule, save_rule, RuleEvent, on_rule_events}
use mitm_core.Rules.Saving.{IsOpen, IsSaved, asked_in, one_of, on_rule_events-Keeps}

All-mem :
    (format : String → String) (after input : String) (inputs : List String)
    → All (λ i. contains after (format i) ≡ true) inputs
    → mem input inputs ≡ true
    → contains after (format input) ≡ true
All-mem format after input [] h p = cc
All-mem format after input (i ∷ is) (q, qs) p = elim (one_of input i (mem input is) p) [
  | inl same ↦ subst (λ j. contains after (format j) ≡ true) (sym same) q
  | inr later ↦ All-mem format after input is qs later
]

module _ {T : Type 0} (format : String → String) (path eol : String) where
  append_rule_held :
      (after input : String) (f : RuleFile T) (d : Disk)
      → IsOpen path after d
      → IsSaved format path after f
      → contains after (format input) ≡ true
      → (append_rule eol input f d).disk ≡ d
  unfolding append_rule save_rule
  append_rule_held after input f d o h p = elim (Bool-cases (mem input f.pending_saves)) [
    | inl pending ↦ rw (h.formats, pending) refl
    | inr new ↦ rw (h.formats, new, h.at_path, o.can_read, o.there, p) refl
  ]

  -- Asking again for what was asked for before leaves the disk as it is, also when the file was
  -- reloaded since and no save is pending any more.
  pub asked_again :
      (content input : String) (es : List RuleEvent) (f : RuleFile T) (d : Disk)
      → IsOpen path content d
      → IsSaved format path content f
      → mem input (asked_in es) ≡ true
      → let s = on_rule_events eol es f d in (append_rule eol input s.file s.disk).disk ≡ s.disk
  asked_again content input es f d o h p =
      let (after, added, o', h', e, saved) =
        on_rule_events-Keeps format path eol content es f d o h in
      let s = on_rule_events eol es f d in
      append_rule_held after input s.file s.disk o' h'
        (All-mem format after input (asked_in es) saved p)
