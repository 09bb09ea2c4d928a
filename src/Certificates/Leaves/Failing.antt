-- ===== src/Certificates/Leaves/Failing.antt =====
-- A task that fails before its first `await` stays in flight.
use mitm_core.Prelude.{
  ◌<◌, String, Option, none, some, List, [], ◌∷◌, string_eq, nat_eq, ◌⊎◌, inl, inr, ◌≡◌, ◌≢◌, refl,
  sym, subst, ap, arith, eq_iff, nat_beq_iff,
}
use mitm_core.Prelude.Assoc.{lookup, remove, lookup-insert, lookup-remove}
use mitm_core.Prelude.Text.{to_lower}
use mitm_core.Net.{Ref}
use mitm_core.Signals.{Thrown}
use mitm_core.Certificates.{Leaf, LruOf}
use mitm_core.Certificates.Files.{Found, missing, found, find_files}
use mitm_core.Certificates.Leaves.{
  Task, running, settled, waits, Leaves, add_to_cache, get_leaf_from_cache, on_generated,
  begin_task, put_in_flight, start_or_join, cached_or, settle, settle_task,
}
use mitm_core.Certificates.Leaves.Once.{
  CacheEvent, asked, done, evicted, edited, on_cache_event, on_cache_events, IsFound, AreFound,
  generated_same,
}
use mitm_core.Certificates.Leaves.Runs.{on_cache_event-AreFound, joined, failed_task}

module _ (lru : LruOf Leaf) (join : String → String → String) (raise : Thrown) (host : String)
    (id : Ref) where
  -- The failed task is the one that the host finds.
  abbrev pub HasFailed : Leaves lru → Type 0
  HasFailed m =
      (lookup host m.in_flight ≡ some id) × (m.tasks id ≡ settled (inl raise)) × (id < m.fresh)

  put-HasFailed :
      (other : String) (m : Leaves lru) (t : Task)
      → host ≢ other
      → HasFailed m
      → HasFailed (put_in_flight lru join raise other (m, t)).0
  unfolding put_in_flight
  put-HasFailed other m t apart (f, e, lt) = (
    ground (arith, lookup-insert other host m.fresh m.in_flight, eq_iff other host),
    ground (arith, nat_beq_iff m.fresh id),
    omega (arith, lt),
  )

  removed-HasFailed :
      (other : String) (m : Leaves lru)
      → host ≢ other
      → HasFailed m
      → HasFailed (record m { in_flight = remove other m.in_flight })
  removed-HasFailed other m apart (f, e, lt) =
      (ground (arith, lookup-remove other host m.in_flight, eq_iff other host), e, lt)

  begun-HasFailed :
      (other dir : String) (m : Leaves lru) (f : Found)
      → host ≢ other
      → HasFailed m
      → HasFailed (put_in_flight lru join raise other (begin_task lru join raise other dir m f)).0
  unfolding begin_task add_to_cache
  begun-HasFailed other dir m missing apart h = put-HasFailed other m (running other dir) apart h
  begun-HasFailed other dir m Found.unreadable apart h =
      put-HasFailed other _ (settled (inl raise)) apart (removed-HasFailed other m apart h)
  begun-HasFailed other dir m (found leaf) apart h =
      put-HasFailed other _ (settled (inr leaf)) apart
        (removed-HasFailed other (add_to_cache lru other leaf m) apart h)

  start_or_join-HasFailed :
      (other dir : String) (m : Leaves lru) (o : Option Ref)
      → lookup other m.in_flight ≡ o
      → HasFailed m
      → HasFailed (start_or_join lru join raise other dir m o).0
  unfolding start_or_join
  start_or_join-HasFailed other dir m (some task) p h = h
  start_or_join-HasFailed other dir m none p h =
      begun-HasFailed other dir m (find_files join dir m.disk)
        (λ same. ground (arith, h.0, subst (λ o. lookup o m.in_flight ≡ none) (sym same) p)) h

  cached_or-HasFailed :
      (other dir : String) (m : Leaves lru) (o : Option Leaf)
      → HasFailed m
      → HasFailed (cached_or lru join raise other dir m o).0
  unfolding cached_or
  cached_or-HasFailed other dir m (some leaf) h = h
  cached_or-HasFailed other dir m none h =
      start_or_join-HasFailed other dir m (lookup other m.in_flight) refl h

  -- A task that runs is not the failed one, and its host is another one.
  other_task :
      (task : Ref) (m : Leaves lru) (other dir : String)
      → m.tasks task ≡ running other dir
      → m.tasks id ≡ settled (inl raise)
      → task ≢ id
  other_task task m other dir p e same = absurd (cc (sym p, ap m.tasks same, e))

  settled-HasFailed :
      (task : Ref) (suffix : String) (r : Thrown ⊎ Leaf) (m : Leaves lru) (t : Task)
      → m.tasks task ≡ t
      → IsFound lru join raise m.in_flight task t
      → HasFailed m
      → HasFailed (settle_task lru join raise task suffix m r t)
  unfolding settle_task settle
  settled-HasFailed task suffix r m (settled x) p own h = h
  settled-HasFailed task suffix r m (running other dir) p own (f, e, lt) =
      let (flights, tasks, fresh) = generated_same lru join raise other dir suffix m r in
      let apart = other_task task m other dir p e in
      rw (flights, tasks, fresh)
        (
          ground (arith, lookup-remove other host m.in_flight, eq_iff other host, own, f, apart),
          ground (arith, nat_beq_iff task id, apart, e),
          lt,
        )

  on_cache_event-HasFailed :
      (e : CacheEvent lru join raise) (m : Leaves lru)
      → AreFound lru join raise m
      → HasFailed m
      → HasFailed (on_cache_event lru join raise e m)
  unfolding on_cache_event get_leaf_from_cache on_generated
  on_cache_event-HasFailed (asked other dir) m a h =
      let (store, hit) = lru.find (to_lower other) m.cache in
      cached_or-HasFailed other dir (record m { cache = store }) hit h
  on_cache_event-HasFailed (done task suffix r) m a h =
      settled-HasFailed task suffix r m (m.tasks task) refl (a task) h
  on_cache_event-HasFailed (evicted store) m a h = h
  on_cache_event-HasFailed (edited d) m a h = h

  on_cache_events-HasFailed :
      (events : List (CacheEvent lru join raise)) (m : Leaves lru)
      → AreFound lru join raise m
      → HasFailed m
      → HasFailed (on_cache_events lru join raise events m)
  unfolding on_cache_events
  on_cache_events-HasFailed [] m a h = h
  on_cache_events-HasFailed (e ∷ es) m a h =
      on_cache_events-HasFailed es _ (on_cache_event-AreFound lru join raise e m a)
        (on_cache_event-HasFailed e m a h)

module _ (lru : LruOf Leaf) (join : String → String → String) (raise : Thrown) where
  -- A pair of files that cannot be read at a call that starts a task makes the host fail for good:
  -- whatever is asked for after that, whichever workers are done, entries expire or files change, the
  -- failed task stays in flight, and a call for the host that the cache does not answer returns it.
  pub failure_stays :
      (host dir later_dir : String) (m : Leaves lru) (events : List (CacheEvent lru join raise))
      → ((id : Ref) → IsFound lru join raise m.in_flight id (m.tasks id))
      → (lru.find (to_lower host) m.cache).1 ≡ none
      → lookup host m.in_flight ≡ none
      → find_files join dir m.disk ≡ Found.unreadable
      → (lru.find
          (to_lower host)
          (on_cache_events lru join raise events
            (get_leaf_from_cache lru join raise host dir m).0).cache).1
        ≡ none
      → let after =
          on_cache_events lru join raise events (get_leaf_from_cache lru join raise host dir m).0 in
        (after.tasks m.fresh ≡ settled (inl raise))
        × (lookup host after.in_flight ≡ some m.fresh)
        × ((get_leaf_from_cache lru join raise host later_dir after).1 ≡ waits m.fresh)
  unfolding on_cache_event
  failure_stays host dir later_dir m events a e p q r =
      let called = get_leaf_from_cache lru join raise host dir m in
      let (t, _, f, made) = failed_task lru join raise host dir m e p q in
      let after = on_cache_events lru join raise events called.0 in
      let (flight, failed, _) =
        on_cache_events-HasFailed lru join raise host m.fresh events called.0
          (on_cache_event-AreFound lru join raise (asked host dir) m a) (f, t, made) in
      (failed, flight, joined lru join raise host later_dir after m.fresh r flight)
