-- ===== src/Certificates/Files/Saved.antt =====
-- What is saved is found again, and no temporary file is left.
use mitm_core.Prelude.{
  String, true, false, some, if◌then◌else◌, mem, string_eq, ◌≡◌, refl, arith, eq_iff, ◌==◌, ◌&&◌,
}
use mitm_core.Prelude.Assoc.{
  Assoc, lookup, insert, remove, lookup-insert, lookup-remove, lookup-insert_self,
}
use mitm_core.Net.{Buffer}
use mitm_core.Certificates.{Leaf}
use mitm_core.Certificates.Files.{
  Disk, read_file, write_file, rename, ensure_dir, cert_path, key_path, temp_path, write_steps,
  cleaned, save_to_file, Found, found, find_files, and_then, attempt, move, saved_in, pair_of,
  exists,
}

-- The four paths of a save are different.
pub record AreApart (cert key temp_cert temp_key : String) : Type 0 where
  pub cert_key : (cert == key) ≡ false
  pub cert_temp : (cert == temp_cert) ≡ false
  pub key_temp : (key == temp_key) ≡ false
  pub temps : (temp_cert == temp_key) ≡ false
  pub key_temp_cert : (key == temp_cert) ≡ false
  pub temp_key_cert : (temp_key == cert) ≡ false

-- None of them is refused to the process.
pub record AreFree (cert key temp_cert temp_key : String) (d : Disk) : Type 0 where
  pub cert_writable : mem cert d.read_only ≡ false
  pub key_writable : mem key d.read_only ≡ false
  pub temp_cert_writable : mem temp_cert d.read_only ≡ false
  pub temp_key_writable : mem temp_key d.read_only ≡ false
  pub cert_readable : mem cert d.unreadable ≡ false
  pub key_readable : mem key d.unreadable ≡ false

write_lem :
    (path : String) (content : Buffer) (d : Disk)
    → mem path d.read_only ≡ false
    → write_file path content d ≡ some (record d { files = insert path content d.files })
unfolding write_file
write_lem path content d h = rw h refl

rename_lem :
    (old new : String) (content : Buffer) (d : Disk)
    → mem new d.read_only ≡ false
    → lookup old d.files ≡ some content
    → rename old new d ≡ some (record d { files = insert new content (remove old d.files) })
unfolding rename move
rename_lem old new content d h p = rw (h, p) refl

module _ (cert key temp_cert temp_key : String) (leaf : Leaf) where
  files1 : Disk → Assoc String Buffer
  files1 d = insert temp_key leaf.key (insert temp_cert leaf.cert d.files)

  files2 : Disk → Assoc String Buffer
  files2 d = insert cert leaf.cert (remove temp_cert (files1 d))

  files3 : Disk → Assoc String Buffer
  files3 d = insert key leaf.key (remove temp_key (files2 d))

  lookup-files1 :
      (d : Disk) → (temp_cert == temp_key) ≡ false → lookup temp_cert (files1 d) ≡ some leaf.cert
  unfolding files1
  lookup-files1 d p = ground (
    arith,
    eq_iff temp_cert temp_key,
    eq_iff temp_key temp_cert,
    lookup-insert temp_key temp_cert leaf.key (insert temp_cert leaf.cert d.files),
    lookup-insert_self temp_cert leaf.cert d.files,
  )

  lookup-files2 :
      (d : Disk) → AreApart cert key temp_cert temp_key → lookup temp_key (files2 d) ≡ some leaf.key
  unfolding files2 files1
  lookup-files2 d a = ground (
    arith,
    a.temps,
    a.temp_key_cert,
    eq_iff cert temp_key,
    eq_iff temp_key cert,
    lookup-insert cert temp_key leaf.cert (remove temp_cert (files1 d)),
    lookup-remove temp_cert temp_key (files1 d),
    lookup-insert_self temp_key leaf.key (insert temp_cert leaf.cert d.files),
  )

  lookup_cert :
      (d : Disk) → AreApart cert key temp_cert temp_key → lookup cert (files3 d) ≡ some leaf.cert
  unfolding files3 files2
  lookup_cert d a = ground (
    arith,
    a.cert_key,
    a.temp_key_cert,
    eq_iff cert key,
    eq_iff key cert,
    lookup-insert key cert leaf.key (remove temp_key (files2 d)),
    lookup-remove temp_key cert (files2 d),
    lookup-insert_self cert leaf.cert (remove temp_cert (files1 d)),
  )

  lookup_key : (d : Disk) → lookup key (files3 d) ≡ some leaf.key
  unfolding files3
  lookup_key d = lookup-insert_self key leaf.key (remove temp_key (files2 d))

  write_steps_lem :
      (d : Disk)
      → AreApart cert key temp_cert temp_key
      → AreFree cert key temp_cert temp_key d
      → write_steps cert key temp_cert temp_key leaf d ≡ (record d { files = files3 d }, true)
  unfolding write_steps and_then attempt files3 files2 files1
  write_steps_lem d a f =
      let first = record d { files = insert temp_cert leaf.cert d.files } in
      let second = record d { files = files1 d } in
      let third = record d { files = files2 d } in
      rw
        (
          write_lem temp_cert leaf.cert d f.temp_cert_writable,
          write_lem temp_key leaf.key first f.temp_key_writable,
          rename_lem temp_cert cert leaf.cert second f.cert_writable (lookup-files1 d a.temps),
          rename_lem temp_key key leaf.key third f.key_writable (lookup-files2 d a),
        )
        refl

  found_saved :
      (d : Disk)
      → AreApart cert key temp_cert temp_key
      → AreFree cert key temp_cert temp_key d
      → (if exists cert (record d { files = files3 d })
            && exists key (record d { files = files3 d })
          then pair_of
              (read_file cert (record d { files = files3 d }))
              (read_file key (record d { files = files3 d }))
          else Found.missing)
        ≡ found leaf
  unfolding pair_of
  found_saved d a f = rw (f.cert_readable, f.key_readable, lookup_cert d a, lookup_key d) refl

-- What was saved is found again, where the directory can be made and the four paths are different
-- and free.
pub find_files-save_to_file :
    (join : String → String → String) (suffix dir : String) (leaf : Leaf) (d made : Disk)
    → AreApart
        (cert_path join dir)
        (key_path join dir)
        (temp_path (cert_path join dir) suffix)
        (temp_path (key_path join dir) suffix)
    → AreFree
        (cert_path join dir)
        (key_path join dir)
        (temp_path (cert_path join dir) suffix)
        (temp_path (key_path join dir) suffix)
        made
    → ensure_dir dir d ≡ some made
    → (after : Disk) × (save_to_file join suffix dir leaf d ≡ some after)
      × (find_files join dir after ≡ found leaf)
unfolding find_files save_to_file saved_in cleaned
find_files-save_to_file join suffix dir leaf d made a f h =
    let cert = cert_path join dir in
    let key = key_path join dir in
    let temp_cert = temp_path cert suffix in
    let temp_key = temp_path key suffix in
    (
      record made { files = files3 cert key temp_cert temp_key leaf made },
      rw (h, write_steps_lem cert key temp_cert temp_key leaf made a f) refl,
      found_saved cert key temp_cert temp_key leaf made a f,
    )
