-- ===== src/Certificates/Files/Temporary.antt =====
-- No temporary file is left behind by a save.
use mitm_core.Prelude.{
  String, Bool, true, false, Option, none, some, if◌then◌else◌, mem, string_eq, ◌≡◌, refl, arith,
  ◌==◌, inl, inr, ◌⊎◌, WhenSome,
}
use mitm_core.Prelude.Assoc.{lookup, remove, lookup-insert, lookup-remove, lookup-remove_self}
use mitm_core.Net.{Buffer}
use mitm_core.Certificates.{Leaf}
use mitm_core.Certificates.Files.{
  Disk, write_file, rename, Attempt, write_steps, cleaned, and_then, attempt, move,
}
use mitm_core.Certificates.Files.Saved.{AreApart}

module _ (cert key temp_cert temp_key : String) (a : AreApart cert key temp_cert temp_key) where
  -- What stands at a path after the steps so far, where none threw.
  abbrev IsGone : String → Attempt → Type 0
  IsGone path (d, false) = Unit
  IsGone path (d, true) = lookup path d.files ≡ none

  attempt-IsGone :
      (path : String) (d : Disk) (o : Option Disk)
      → WhenSome (λ e. lookup path e.files ≡ none) o
      → IsGone path (attempt d o)
  unfolding attempt
  attempt-IsGone path d none h = tt
  attempt-IsGone path d (some e) h = h

  moved :
      (path old new : String) (d : Disk) (o : Option Buffer)
      → lookup path (remove old d.files) ≡ none
      → (new == path) ≡ false
      → WhenSome (λ e. lookup path e.files ≡ none) (move old new d o)
  unfolding move
  moved path old new d none h p = tt
  moved path old new d (some content) h p =
      ground (arith, lookup-insert new path content (remove old d.files))

  if_free :
      (path : String) (b : Bool) (o : Option Disk)
      → WhenSome (λ e. lookup path e.files ≡ none) o
      → WhenSome (λ e. lookup path e.files ≡ none) (if b then none else o)
  if_free path true o h = tt
  if_free path false o h = h

  -- A rename takes the old path away, and keeps away a path that is not the new one.
  renamed-IsGone :
      (old new path : String) (r : Attempt)
      → (new == path) ≡ false
      → (path ≡ old) ⊎ IsGone path r
      → IsGone path (and_then (rename old new) r)
  unfolding and_then rename
  renamed-IsGone old new path (d, false) p h = tt
  renamed-IsGone old new path (d, true) p (inl e) = attempt-IsGone path d _ (
      if_free path (mem new d.read_only) _
        (moved path old new d _ (rw e (lookup-remove_self old d.files)) p))
  renamed-IsGone old new path (d, true) p (inr h) = attempt-IsGone path d _ (
      if_free path (mem new d.read_only) _
        (moved path old new d _ (ground (arith, lookup-remove old path d.files)) p))

  cleaned_lem :
      (r : Attempt)
      → IsGone temp_cert r
      → IsGone temp_key r
      → (lookup temp_cert (cleaned temp_cert temp_key r).files ≡ none)
        × (lookup temp_key (cleaned temp_cert temp_key r).files ≡ none)
  unfolding cleaned
  cleaned_lem (d, true) h k = (h, k)
  cleaned_lem (d, false) h k = (
    ground (
      arith,
      lookup-remove temp_key temp_cert (remove temp_cert d.files),
      lookup-remove_self temp_cert d.files,
    ),
    lookup-remove_self temp_key (remove temp_cert d.files),
  )

  -- Whichever of the four steps throws, or none, no temporary file is left.
  pub no_temp_left :
      (leaf : Leaf) (d : Disk)
      → let after = cleaned temp_cert temp_key (write_steps cert key temp_cert temp_key leaf d) in
        (lookup temp_cert after.files ≡ none) × (lookup temp_key after.files ≡ none)
  unfolding write_steps
  no_temp_left leaf d =
      let written =
        and_then (write_file temp_key leaf.key)
          (and_then (write_file temp_cert leaf.cert) (d, true)) in
      let first = and_then (rename temp_cert cert) written in
      cleaned_lem (and_then (rename temp_key key) first)
        (renamed-IsGone temp_key key temp_cert first a.key_temp_cert
          (inr (renamed-IsGone temp_cert cert temp_cert written a.cert_temp (inl refl))))
        (renamed-IsGone temp_key key temp_key first a.key_temp (inl refl))
