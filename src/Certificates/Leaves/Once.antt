-- ===== src/Certificates/Leaves/Once.antt =====
-- A leaf is made once at a time for a host, and a pair of files that cannot be read is not tried again.
use mitm_core.Prelude.{
  String, Option, none, some, List, [], ◌∷◌, if◌then◌else◌, string_eq, nat_eq, ◌⊎◌, inl, inr, ◌≡◌,
  ◌≢◌, refl, subst, arith, eq_iff, nat_beq_iff, ◌==◌, Bool-cases,
}
use mitm_core.Prelude.Assoc.{
  Assoc, lookup, insert, remove, lookup-insert, lookup-remove, lookup-remove_self,
}
use mitm_core.Net.{Ref}
use mitm_core.Signals.{Thrown}
use mitm_core.Certificates.{Leaf, LruOf}
use mitm_core.Certificates.Files.{Disk, Found, missing, found, find_files, save_to_file}
use mitm_core.Certificates.Leaves.{
  Task, running, settled, Leaves, add_to_cache, get_leaf_from_cache, on_generated, begin_task,
  put_in_flight, start_or_join, cached_or, with_files, generated, settle, settle_task,
}

module _ (lru : LruOf Leaf) (join : String → String → String) (raise : Thrown) where
  -- What happens to the cache: a leaf is asked for, a worker is done, entries expire or the cache is
  -- cleared, the files are changed by others.
  pub data CacheEvent : Type 0 where
    asked : String → String → CacheEvent
    done : Ref → String → Thrown ⊎ Leaf → CacheEvent
    evicted : lru.Store → CacheEvent
    edited : Disk → CacheEvent

  unfoldable pub on_cache_event : CacheEvent → Leaves lru → Leaves lru
  on_cache_event (asked host dir) m = (get_leaf_from_cache lru join raise host dir m).0
  on_cache_event (done task suffix r) m = on_generated lru join raise task suffix r m
  on_cache_event (evicted store) m = record m { cache = store }
  on_cache_event (edited d) m = record m { disk = d }

  unfoldable pub on_cache_events : List CacheEvent → Leaves lru → Leaves lru
  on_cache_events [] m = m
  on_cache_events (e ∷ es) m = on_cache_events es (on_cache_event e m)

  -- A task that runs is the one that its host finds.
  abbrev pub IsFound : Assoc String Ref → Ref → Task → Type 0
  IsFound in_flight id (running host dir) = lookup host in_flight ≡ some id
  IsFound in_flight id (settled r) = Unit

  abbrev pub AreFound : Leaves lru → Type 0
  AreFound m = (id : Ref) → IsFound m.in_flight id (m.tasks id)

  removed-IsFound :
      (host : String) (flights : Assoc String Ref) (id : Ref) (t : Task)
      → (lookup host flights ≡ none)
        ⊎ ((other : Ref) × (lookup host flights ≡ some other) × (id ≢ other))
      → IsFound flights id t
      → IsFound (remove host flights) id t
  removed-IsFound host flights id (running h dir) p q =
      ground (arith, lookup-remove host h flights, eq_iff host h)
  removed-IsFound host flights id (settled r) p q = tt

  inserted-IsFound :
      (host : String) (flights : Assoc String Ref) (fresh id : Ref) (t : Task)
      → lookup host flights ≡ none
      → IsFound flights id t
      → IsFound (insert host fresh flights) id t
  inserted-IsFound host flights fresh id (running h dir) p q =
      ground (arith, lookup-insert host h fresh flights, eq_iff host h)
  inserted-IsFound host flights fresh id (settled r) p q = tt

  -- The new task stands under its host, unless it has settled.
  IsOwn : String → Task → Type 0
  IsOwn host (running h dir) = h ≡ host
  IsOwn host (settled r) = Unit

  own-IsFound :
      (host : String) (flights : Assoc String Ref) (fresh : Ref) (t : Task)
      → IsOwn host t
      → IsFound (insert host fresh flights) fresh t
  unfolding IsOwn
  own-IsFound host flights fresh (running h dir) p =
      ground (arith, lookup-insert host h fresh flights, eq_iff host h)
  own-IsFound host flights fresh (settled r) p = tt

  placed :
      (flights : Assoc String Ref) (fresh id : Ref) (new old : Task)
      → IsFound flights fresh new
      → IsFound flights id old
      → IsFound flights id (if fresh == id then new else old)
  placed flights fresh id new old p q = elim (Bool-cases (fresh == id)) [
    | inl e ↦ rw e (subst (λ k. IsFound flights k new) ((nat_beq_iff fresh id).0 e) p)
    | inr e ↦ rw e q
  ]

  put-AreFound :
      (host : String) (m : Leaves lru) (t : Task)
      → lookup host m.in_flight ≡ none
      → IsOwn host t
      → AreFound m
      → AreFound (put_in_flight lru join raise host (m, t)).0
  unfolding put_in_flight
  put-AreFound host m t p own h id =
      placed (insert host m.fresh m.in_flight) m.fresh id t (m.tasks id)
        (own-IsFound host m.in_flight m.fresh t own)
        (inserted-IsFound host m.in_flight m.fresh id (m.tasks id) p (h id))

  removed-AreFound :
      (host : String) (m : Leaves lru)
      → lookup host m.in_flight ≡ none
      → AreFound m
      → (id : Ref) → IsFound (remove host m.in_flight) id (m.tasks id)
  removed-AreFound host m p h id = removed-IsFound host m.in_flight id (m.tasks id) (inl p) (h id)

  is_gone : (host : String) (flights : Assoc String Ref) → lookup host (remove host flights) ≡ none
  is_gone host flights = lookup-remove_self host flights

  begun-AreFound :
      (host dir : String) (m : Leaves lru) (f : Found)
      → lookup host m.in_flight ≡ none
      → AreFound m
      → AreFound (put_in_flight lru join raise host (begin_task lru join raise host dir m f)).0
  unfolding begin_task add_to_cache IsOwn
  begun-AreFound host dir m missing p h = put-AreFound host m (running host dir) p refl h
  begun-AreFound host dir m Found.unreadable p h =
      put-AreFound host (record m { in_flight = remove host m.in_flight }) (settled (inl raise))
        (is_gone host m.in_flight) tt (removed-AreFound host m p h)
  begun-AreFound host dir m (found leaf) p h =
      put-AreFound host
        (record (add_to_cache lru host leaf m) { in_flight = remove host m.in_flight })
        (settled (inr leaf)) (is_gone host m.in_flight) tt (removed-AreFound host m p h)

  start_or_join-AreFound :
      (host dir : String) (m : Leaves lru) (o : Option Ref)
      → lookup host m.in_flight ≡ o
      → AreFound m
      → AreFound (start_or_join lru join raise host dir m o).0
  unfolding start_or_join
  start_or_join-AreFound host dir m (some task) p h = h
  start_or_join-AreFound host dir m none p h =
      begun-AreFound host dir m (find_files join dir m.disk) p h

  pub asked-AreFound :
      (host dir : String) (m : Leaves lru) (o : Option Leaf)
      → AreFound m
      → AreFound (cached_or lru join raise host dir m o).0
  unfolding cached_or
  asked-AreFound host dir m (some leaf) h = h
  asked-AreFound host dir m none h =
      start_or_join-AreFound host dir m (lookup host m.in_flight) refl h

  with_files_same :
      (host : String) (leaf : Leaf) (m : Leaves lru) (o : Option Disk)
      → let after = (with_files lru join raise host leaf m o).0 in
        (after.in_flight ≡ m.in_flight) × (after.tasks ≡ m.tasks) × (after.fresh ≡ m.fresh)
  unfolding with_files add_to_cache
  with_files_same host leaf m none = (refl, refl, refl)
  with_files_same host leaf m (some d) = (refl, refl, refl)

  pub generated_same :
      (host dir suffix : String) (m : Leaves lru) (r : Thrown ⊎ Leaf)
      → let after = (generated lru join raise host dir suffix m r).0 in
        (after.in_flight ≡ m.in_flight) × (after.tasks ≡ m.tasks) × (after.fresh ≡ m.fresh)
  unfolding generated
  generated_same host dir suffix m (inl e) = (refl, refl, refl)
  generated_same host dir suffix m (inr leaf) =
      with_files_same host leaf m (save_to_file join suffix dir leaf m.disk)

  left_out :
      (host : String) (flights : Assoc String Ref) (task id : Ref) (t : Task) (r : Thrown ⊎ Leaf)
      → lookup host flights ≡ some task
      → IsFound flights id t
      → IsFound (remove host flights) id (if task == id then settled r else t)
  left_out host flights task id t r p q = elim (Bool-cases (task == id)) [
    | inl e ↦ rw e tt
    | inr e ↦ rw e (
        removed-IsFound host flights id t
          (inr (task, p, λ same. ground (arith, nat_beq_iff task id))) q)
  ]

  pub settled-AreFound :
      (task : Ref) (suffix : String) (r : Thrown ⊎ Leaf) (m : Leaves lru) (t : Task)
      → m.tasks task ≡ t
      → AreFound m
      → AreFound (settle_task lru join raise task suffix m r t)
  unfolding settle_task settle
  settled-AreFound task suffix r m (settled x) p h = h
  settled-AreFound task suffix r m (running host dir) p h =
      let (flights, tasks, _) = generated_same host dir suffix m r in
      let here = subst (IsFound m.in_flight task) p (h task) in
      λ id. rw (flights, tasks) (left_out host m.in_flight task id (m.tasks id) _ here (h id))
