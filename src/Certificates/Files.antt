-- ===== src/Certificates/Files.antt =====
-- The files of a leaf: `saveToFile` of CertificateCacheManager.ts, and what `getLeafFromCache` reads.
pub mod Saved
pub mod Temporary
use Prim.Native.String.{◌++◌}
use mitm_core.Prelude.{
  String, Bool, true, false, ◌&&◌, Option, none, some, List, [], ◌∷◌, if◌then◌else◌, mem, is_some,
  string_eq, or_else,
}
use mitm_core.Prelude.Assoc
use mitm_core.Prelude.Assoc.{Assoc, lookup, insert, remove}
use mitm_core.Net.{Buffer}
use mitm_core.Certificates.{Leaf}

-- The files by their paths, the directories, and the paths that cannot be read or written.
pub record Disk : Type 0 where
  pub files : Assoc String Buffer
  pub dirs : List String
  pub unreadable : List String
  pub read_only : List String

abbrev pub exists : String → Disk → Bool
exists path d = Assoc.has path d.files

-- `fs.readFileSync`; `none` is the exception, here and below.
abbrev pub read_file : String → Disk → Option Buffer
read_file path d = if mem path d.unreadable then none else lookup path d.files

unfoldable pub write_file : String → Buffer → Disk → Option Disk
write_file path content d =
    if mem path d.read_only then none else some (record d { files = insert path content d.files })

move : String → String → Disk → Option Buffer → Option Disk
move old new d none = none
move old new d (some content) = some (record d { files = insert new content (remove old d.files) })

-- `fs.renameSync`.
unfoldable pub rename : String → String → Disk → Option Disk
unfolding move
rename old new d = if mem new d.read_only then none else move old new d (lookup old d.files)

-- `fs.mkdirSync` with `recursive`.
unfoldable pub ensure_dir : String → Disk → Option Disk
ensure_dir dir d =
    if mem dir d.dirs
    then some d
    else if mem dir d.read_only
    then none
    else some (record d { dirs = dir ∷ d.dirs })

abbrev pub unlink : String → Disk → Disk
unlink path d = record d { files = remove path d.files }

abbrev pub cert_path : (String → String → String) → String → String
cert_path join dir = join dir "cert.crt"

abbrev pub key_path : (String → String → String) → String → String
key_path join dir = join dir "key.pem"

abbrev pub temp_path : String → String → String
temp_path path suffix = path ++ "." ++ suffix ++ ".tmp"

-- A step of the `try` block: what it leaves, and whether it threw.
abbrev pub Attempt : Type 0
Attempt = Disk × Bool

attempt : Disk → Option Disk → Attempt
attempt d none = (d, false)
attempt d (some e) = (e, true)

and_then : (Disk → Option Disk) → Attempt → Attempt
unfolding attempt
and_then f (d, false) = (d, false)
and_then f (d, true) = attempt d (f d)

-- The four steps of the `try` block, up to the first that throws.
unfoldable pub write_steps : (cert key temp_cert temp_key : String) → Leaf → Disk → Attempt
unfolding and_then
write_steps cert key temp_cert temp_key leaf d = and_then (rename temp_key key) (
    and_then (rename temp_cert cert) (
      and_then (write_file temp_key leaf.key)
        (and_then (write_file temp_cert leaf.cert) (d, true))))

-- The `catch`: the files that are there are unlinked.
unfoldable pub cleaned : (temp_cert temp_key : String) → Attempt → Disk
cleaned temp_cert temp_key (d, true) = d
cleaned temp_cert temp_key (d, false) = unlink temp_key (unlink temp_cert d)

saved_in : (String → String → String) → String → String → Leaf → Option Disk → Option Disk
unfolding write_steps cleaned
saved_in join suffix dir leaf none = none
saved_in join suffix dir leaf (some d) =
    let cert = cert_path join dir in
    let key = key_path join dir in
    some (
      cleaned (temp_path cert suffix) (temp_path key suffix)
        (write_steps cert key (temp_path cert suffix) (temp_path key suffix) leaf d))

-- `saveToFile` into the directory of a host; `suffix` is the random one. Only the directory's
-- creation throws.
unfoldable pub save_to_file :
    (String → String → String) → String → String → Leaf → Disk → Option Disk
unfolding saved_in ensure_dir
save_to_file join suffix dir leaf d = saved_in join suffix dir leaf (ensure_dir dir d)

-- What the task finds: no pair of files, a pair that cannot be read, or a leaf.
pub data Found : Type 0 where
  missing : Found
  unreadable : Found
  found : Leaf → Found

pair_of : Option Buffer → Option Buffer → Found
pair_of none _ = Found.unreadable
pair_of (some cert) none = Found.unreadable
pair_of (some cert) (some key) = found (record { key = key; cert = cert })

unfoldable pub find_files : (String → String → String) → String → Disk → Found
unfolding pair_of
find_files join dir d =
    let cert = cert_path join dir in
    let key = key_path join dir in
    if exists cert d && exists key d then pair_of (read_file cert d) (read_file key d) else missing
