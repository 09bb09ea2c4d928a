-- ===== src/Certificates/Leaves/Runs.antt =====
-- What holds of the cache of leaves over any run of calls, workers and expiries.
use mitm_core.Prelude.{
  String, none, some, List, [], ◌∷◌, string_eq, nat_eq, inl, inr, update, ◌≡◌, refl, sym, subst,
  ◌∙◌, arith, ◌<◌,
}
use mitm_core.Prelude.Assoc.{lookup, remove, lookup-insert_self, lookup-remove_self, beq_refl}
use mitm_core.Prelude.Text.{to_lower}
use mitm_core.Net.{Ref}
use mitm_core.Signals.{Thrown}
use mitm_core.Certificates.{Leaf, LruOf}
use mitm_core.Certificates.Files.{
  Disk, Found, found, find_files, save_to_file, ensure_dir, cert_path, key_path, temp_path,
}
use mitm_core.Certificates.Files.Saved.{AreApart, AreFree, find_files-save_to_file}
use mitm_core.Certificates.Leaves.{
  Task, running, settled, waits, Leaves, add_to_cache, clear_cache, get_leaf_from_cache,
  on_generated, begin_task, put_in_flight, start_or_join, cached_or, with_files, generated, settle,
  settle_task,
}
use mitm_core.Certificates.Leaves.Once.{
  CacheEvent, asked, done, evicted, edited, on_cache_event, on_cache_events, IsFound, AreFound,
  asked-AreFound, settled-AreFound,
}

module _ (lru : LruOf Leaf) (join : String → String → String) (raise : Thrown) where
  pub on_cache_event-AreFound :
      (e : CacheEvent lru join raise) (m : Leaves lru)
      → AreFound lru join raise m
      → AreFound lru join raise (on_cache_event lru join raise e m)
  unfolding on_cache_event get_leaf_from_cache on_generated
  on_cache_event-AreFound (asked host dir) m h =
      let (store, hit) = lru.find (to_lower host) m.cache in
      asked-AreFound lru join raise host dir (record m { cache = store }) hit h
  on_cache_event-AreFound (done task suffix r) m h =
      settled-AreFound lru join raise task suffix r m (m.tasks task) refl h
  on_cache_event-AreFound (evicted store) m h = h
  on_cache_event-AreFound (edited d) m h = h

  on_cache_events-AreFound :
      (events : List (CacheEvent lru join raise)) (m : Leaves lru)
      → AreFound lru join raise m
      → AreFound lru join raise (on_cache_events lru join raise events m)
  unfolding on_cache_events
  on_cache_events-AreFound [] m h = h
  on_cache_events-AreFound (e ∷ es) m h =
      on_cache_events-AreFound es (on_cache_event lru join raise e m)
        (on_cache_event-AreFound e m h)

  -- From a cache with no task, whatever is asked for, and whichever workers are done, entries
  -- expire and files change in between, no two workers run for the same host at the same time.
  pub one_generation :
      (events : List (CacheEvent lru join raise)) (m : Leaves lru) (host dir other_dir : String)
      (a b : Ref)
      → ((id : Ref) → IsFound lru join raise m.in_flight id (m.tasks id))
      → (on_cache_events lru join raise events m).tasks a ≡ running host dir
      → (on_cache_events lru join raise events m).tasks b ≡ running host other_dir
      → a ≡ b
  one_generation events m host dir other_dir a b h p q =
      let after = on_cache_events lru join raise events m in
      let found_all = on_cache_events-AreFound events m h in
      let at_a = subst (IsFound lru join raise after.in_flight a) p (found_all a) in
      let at_b = subst (IsFound lru join raise after.in_flight b) q (found_all b) in
      ground (arith, sym at_a ∙ at_b)

  -- A call that the cache does not answer, and that finds no task, starts one.
  pub started :
      (host dir : String) (m : Leaves lru) (f : Found)
      → (lru.find (to_lower host) m.cache).1 ≡ none
      → lookup host m.in_flight ≡ none
      → find_files join dir m.disk ≡ f
      → get_leaf_from_cache lru join raise host dir m
        ≡ put_in_flight lru join raise host (
            begin_task lru join raise host dir
              (record m { cache = (lru.find (to_lower host) m.cache).0 })
              f)
  unfolding get_leaf_from_cache cached_or start_or_join
  started host dir m f e p q = rw (e, p, q) refl

  pub joined :
      (host dir : String) (m : Leaves lru) (task : Ref)
      → (lru.find (to_lower host) m.cache).1 ≡ none
      → lookup host m.in_flight ≡ some task
      → (get_leaf_from_cache lru join raise host dir m).1 ≡ waits task
  unfolding get_leaf_from_cache cached_or start_or_join
  joined host dir m task e p = rw (e, p) refl

  pub placed_task : (m : Leaves lru) (t : Task) → update m.fresh t m.tasks m.fresh ≡ t
  placed_task m t = rw (beq_refl m.fresh) refl

  pub failed_task :
      (host dir : String) (m : Leaves lru)
      → (lru.find (to_lower host) m.cache).1 ≡ none
      → lookup host m.in_flight ≡ none
      → find_files join dir m.disk ≡ Found.unreadable
      → let (after, answer) = get_leaf_from_cache lru join raise host dir m in
        (after.tasks m.fresh ≡ settled (inl raise))
        × (answer ≡ waits m.fresh)
        × (lookup host after.in_flight ≡ some m.fresh)
        × (m.fresh < after.fresh)
  unfolding begin_task put_in_flight
  failed_task host dir m e p q = rw (started host dir m Found.unreadable e p q) (
    placed_task m (settled (inl raise)),
    refl,
    lookup-insert_self host m.fresh (remove host m.in_flight),
    omega arith,
  )

  generated_lem :
      (task : Ref) (host dir suffix : String) (leaf : Leaf) (m : Leaves lru) (saved : Disk)
      → m.tasks task ≡ running host dir
      → save_to_file join suffix dir leaf m.disk ≡ some saved
      → on_generated lru join raise task suffix (inr leaf) m ≡ record m {
        cache = lru.insert (to_lower host) leaf m.cache;
        in_flight = remove host m.in_flight;
        tasks = update task (settled (inr leaf)) m.tasks;
        disk = saved;
      }
  unfolding on_generated settle_task generated with_files settle add_to_cache
  generated_lem task host dir suffix leaf m saved p q = rw (p, q) refl

  leaf_found :
      (task : Ref) (host dir suffix : String) (leaf : Leaf) (m : Leaves lru) (saved : Disk)
      → m.tasks task ≡ running host dir
      → save_to_file join suffix dir leaf m.disk ≡ some saved
      → find_files join dir saved ≡ found leaf
      → let made = on_generated lru join raise task suffix (inr leaf) m in
        let (after, answer) = get_leaf_from_cache lru join raise host dir (clear_cache lru made) in
        (made.tasks task ≡ settled (inr leaf))
        × (answer ≡ waits m.fresh)
        × (after.tasks m.fresh ≡ settled (inr leaf))
  unfolding begin_task put_in_flight clear_cache
  leaf_found task host dir suffix leaf m saved p q r =
      let made : Leaves lru = record m {
        cache = lru.clear (lru.insert (to_lower host) leaf m.cache);
        in_flight = remove host m.in_flight;
        tasks = update task (settled (inr leaf)) m.tasks;
        disk = saved;
      } in
      rw
        (
          generated_lem task host dir suffix leaf m saved p q,
          started host dir made (found leaf)
              (lru.find-clear (to_lower host) (lru.insert (to_lower host) leaf m.cache))
              (lookup-remove_self host m.in_flight) r,
        )
        (rw (beq_refl task) refl, refl, placed_task made (settled (inr leaf)))

  -- A leaf that the worker of a task has made is saved and comes back: where the directory can be
  -- made and the four paths are different and free, the task settles with the leaf, and a later call
  -- for the host, whose cache has lost everything, needs no worker: its task has settled with the
  -- same leaf, read from the files.
  pub leaf_survives :
      (task : Ref) (host dir suffix : String) (leaf : Leaf) (m : Leaves lru) (made_dir : Disk)
      → m.tasks task ≡ running host dir
      → AreApart
          (cert_path join dir)
          (key_path join dir)
          (temp_path (cert_path join dir) suffix)
          (temp_path (key_path join dir) suffix)
      → AreFree
          (cert_path join dir)
          (key_path join dir)
          (temp_path (cert_path join dir) suffix)
          (temp_path (key_path join dir) suffix)
          made_dir
      → ensure_dir dir m.disk ≡ some made_dir
      → let made = on_generated lru join raise task suffix (inr leaf) m in
        let (after, answer) = get_leaf_from_cache lru join raise host dir (clear_cache lru made) in
        (made.tasks task ≡ settled (inr leaf))
        × (answer ≡ waits m.fresh)
        × (after.tasks m.fresh ≡ settled (inr leaf))
  leaf_survives task host dir suffix leaf m made_dir p apart free ensured =
      let (saved, q, r) =
        find_files-save_to_file join suffix dir leaf m.disk made_dir apart free ensured in
      leaf_found task host dir suffix leaf m saved p q r
