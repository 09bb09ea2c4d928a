-- ===== src/Tests/Leaves.antt =====
-- The certificates at concrete hosts.
use Prim.Native.String.{◌++◌}
use mitm_core.Prelude.{
  ◌&&◌, String, none, some, List, [], ◌∷◌, ◌≡◌, refl, string_eq, nat_eq, inl, inr, ◌==◌,
  if◌then◌else◌,
}
use mitm_core.Prelude.Assoc.{Assoc, lookup, insert, remove, lookup-insert_self}
use mitm_core.Prelude.Text.{to_lower, decimal}
use mitm_core.Net.{Ref}
use mitm_core.Signals.{Thrown, error}
use mitm_core.Certificates.{Leaf, LruOf}
use mitm_core.Certificates.Files.{
  Disk, found, find_files, save_to_file, cert_path, key_path, temp_path, ensure_dir, cleaned,
  write_steps, write_file, rename,
}
use mitm_core.Certificates.Files.Saved.{AreApart, AreFree, find_files-save_to_file}
use mitm_core.Certificates.Leaves.{
  running, settled, waits, Leaves, get_leaf_from_cache, on_generated, clear_cache,
}
use mitm_core.Certificates.Leaves.Once.{
  CacheEvent, asked, evicted, edited, done, on_cache_events, on_cache_event,
}
use mitm_core.Certificates.Leaves.Failing.{failure_stays}
use mitm_core.Certificates.Leaves.Runs.{one_generation, leaf_survives}
use mitm_core.Certificates.Worker.{CaConfig, Forge, new_worker, issue, issue_all, fingerprint}
use mitm_core.Certificates.Worker.Issuer.{AnswerAll, issue_all_lem, same_lengths_share}
use mitm_core.Certificates.Contexts.{Contexts, generating}

lookup-empty : {V : Type 0} (key : String) → lookup {V = V} key [] ≡ none
unfolding lookup
lookup-empty key = refl

-- A cache that never evicts.
abbrev map_lru : (V : Type 0) → LruOf V
map_lru V = record {
  Store = Assoc String V;
  find = λ key s. (s, lookup key s);
  insert = insert;
  delete = remove;
  clear = λ s. [];
  find-insert = λ key value s. lookup-insert_self key value s;
  find-clear = λ key s. lookup-empty key;
}

abbrev slash : String → String → String
slash dir name = dir ++ "/" ++ name

abbrev empty_disk : Disk
empty_disk = record { files = []; dirs = "/ca/a.example" ∷ []; unreadable = []; read_only = [] }

abbrev sample_leaf : Leaf
sample_leaf = record { key = 1 ∷ []; cert = 2 ∷ [] }

abbrev dir : String
dir = "/ca/a.example"

paths-AreApart :
    AreApart
      (cert_path slash dir)
      (key_path slash dir)
      (temp_path (cert_path slash dir) "00ff")
      (temp_path (key_path slash dir) "00ff")
paths-AreApart = record {
  cert_key = refl;
  cert_temp = refl;
  key_temp = refl;
  temps = refl;
  key_temp_cert = refl;
  temp_key_cert = refl;
}

paths-AreFree :
    AreFree
      (cert_path slash dir)
      (key_path slash dir)
      (temp_path (cert_path slash dir) "00ff")
      (temp_path (key_path slash dir) "00ff")
      empty_disk
paths-AreFree = record {
  cert_writable = refl;
  key_writable = refl;
  temp_cert_writable = refl;
  temp_key_writable = refl;
  cert_readable = refl;
  key_readable = refl;
}

find_files-save_to_file_example :
    (after : Disk) × (save_to_file slash "00ff" dir sample_leaf empty_disk ≡ some after)
    × (find_files slash dir after ≡ found sample_leaf)
unfolding ensure_dir
find_files-save_to_file_example =
    find_files-save_to_file slash "00ff" dir sample_leaf empty_disk empty_disk paths-AreApart
      paths-AreFree refl

abbrev broken_pair : Thrown
broken_pair = error "EACCES" none

abbrev leaves : Leaves (map_lru Leaf)
leaves = record {
  cache = [];
  in_flight = [];
  tasks = λ r. settled (inl broken_pair);
  fresh = 0;
  disk = empty_disk;
}

abbrev two_calls : List (CacheEvent (map_lru Leaf) slash broken_pair)
two_calls = asked "a.example" dir ∷ asked "a.example" dir ∷ []

worker_runs :
    (on_cache_events (map_lru Leaf) slash broken_pair two_calls leaves).tasks 0
    ≡ running "a.example" dir
unfolding on_cache_events on_cache_event get_leaf_from_cache to_lower lookup insert find_files
worker_runs = refl

one_generation_example : ◌≡◌ {A = Ref} 0 0
one_generation_example =
    one_generation (map_lru Leaf) slash broken_pair two_calls leaves "a.example" dir dir 0 0
      (λ id. tt) worker_runs worker_runs

abbrev unreadable_disk : Disk
unreadable_disk = record empty_disk {
  files = (cert_path slash dir, 2 ∷ []) ∷ (key_path slash dir, 1 ∷ []) ∷ [];
  unreadable = key_path slash dir ∷ [];
}

abbrev unread : Leaves (map_lru Leaf)
unread = record leaves { disk = unreadable_disk }

-- The cache expires, the files are mended, and another host is served.
abbrev later_events : List (CacheEvent (map_lru Leaf) slash broken_pair)
later_events =
    evicted [] ∷ edited empty_disk ∷ asked "b.example" "/b" ∷ done 1 "00ff" (inr sample_leaf) ∷ []

failure_stays_example :
    let after =
      on_cache_events
        (map_lru Leaf)
        slash
        broken_pair
        later_events
        (get_leaf_from_cache (map_lru Leaf) slash broken_pair "a.example" dir unread).0 in
    (after.tasks 0 ≡ settled (inl broken_pair))
    × (lookup "a.example" after.in_flight ≡ some 0)
    × ((get_leaf_from_cache (map_lru Leaf) slash broken_pair "a.example" dir after).1 ≡ waits 0)
unfolding lookup find_files to_lower on_cache_events on_cache_event get_leaf_from_cache insert
    on_generated save_to_file ensure_dir write_steps write_file rename cleaned remove
failure_stays_example =
    failure_stays (map_lru Leaf) slash broken_pair "a.example" dir dir unread later_events
      (λ id. tt) refl refl refl refl

abbrev busy : Leaves (map_lru Leaf)
busy = record leaves {
  tasks = λ r. running "a.example" dir;
  in_flight = ("a.example", 0) ∷ [];
  fresh = 1;
}

leaf_survives_example :
    let made = on_generated (map_lru Leaf) slash broken_pair 0 "00ff" (inr sample_leaf) busy in
    let (after, answer) =
      get_leaf_from_cache
        (map_lru Leaf)
        slash
        broken_pair
        "a.example"
        dir
        (clear_cache (map_lru Leaf) made) in
    (made.tasks 0 ≡ settled (inr sample_leaf))
    × (answer ≡ waits 1)
    × (after.tasks 1 ≡ settled (inr sample_leaf))
unfolding ensure_dir
leaf_survives_example =
    leaf_survives (map_lru Leaf) slash broken_pair 0 "a.example" dir "00ff" sample_leaf busy
      empty_disk refl paths-AreApart paths-AreFree refl

abbrev forge : Forge
forge = record {
  certificate_from_pem = λ pem. inr (if pem == "first" then 1 else 2);
  key_from_pem = λ pem. inr (if pem == "key 1" then 1 else 2);
  refuses = λ kind name. kind == 7 && name == "999.1.1.1";
}

abbrev first_ca : CaConfig
first_ca = record { cert_pem = "first"; key_pem = "key 1" }

abbrev other_ca : CaConfig
other_ca = record { cert_pem = "other"; key_pem = "key 2" }

issue_all_example :
    AnswerAll forge first_ca 1 1
      ("A.example" ∷ "[::1]" ∷ "999.1.1.1" ∷ [])
      (issue_all forge first_ca ("A.example" ∷ "[::1]" ∷ "999.1.1.1" ∷ []) new_worker)
issue_all_example =
    issue_all_lem forge first_ca 1 1 ("A.example" ∷ "[::1]" ∷ "999.1.1.1" ∷ []) new_worker refl refl
      (inl (refl, refl))

same_lengths_example :
    AnswerAll forge first_ca 1 1
      ("b.example" ∷ [])
      (issue_all forge other_ca ("b.example" ∷ []) (issue forge "a.example" first_ca new_worker).0)
unfolding fingerprint decimal
same_lengths_example =
    same_lengths_share forge first_ca other_ca 1 1 "a.example" ("b.example" ∷ []) refl refl refl

abbrev contexts : Contexts (map_lru Ref)
contexts = record {
  ctx_cache = [];
  in_flight = ("a.example", 0) ∷ [];
  generations = λ r. generating "a.example";
  fresh = 1;
}
