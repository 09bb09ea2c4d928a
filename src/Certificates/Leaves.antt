-- ===== src/Certificates/Leaves.antt =====
-- CertificateCacheManager.ts: the cache of leaves, and the tasks that find or make one.
pub mod Once
pub mod Runs
pub mod Failing
use mitm_core.Prelude.{
  ℕ, suc, String, Bool, true, false, Option, none, some, List, [], ◌∷◌, if◌then◌else◌, string_eq,
  nat_eq, ◌⊎◌, inl, inr, update, or_else,
}
use mitm_core.Prelude.Assoc.{Assoc, lookup, insert, remove}
use mitm_core.Prelude.Text.{to_lower}
use mitm_core.Net.{Ref, Buffer}
use mitm_core.Signals.{Thrown}
use mitm_core.Certificates.{Leaf, LruOf}
use mitm_core.Certificates.Files.{Disk, Found, missing, found, find_files, save_to_file}

-- A task's promise: the worker of the host runs, with the directory for its files, or it settled.
pub data Task : Type 0 where
  running : String → String → Task
  settled : Thrown ⊎ Leaf → Task

-- What a call returns: a leaf at once, or a task that it waits for.
pub data Answer : Type 0 where
  cached : Leaf → Answer
  waits : Ref → Answer

module _ (lru : LruOf Leaf) where
  -- The static fields; the promises lie in a heap, since callers share them.
  pub record Leaves : Type 0 where
    pub cache : lru.Store
    pub in_flight : Assoc String Ref
    pub tasks : Ref → Task
    pub fresh : Ref
    pub disk : Disk

  unfoldable pub add_to_cache : String → Leaf → Leaves → Leaves
  add_to_cache host leaf m = record m { cache = lru.insert (to_lower host) leaf m.cache }

  unfoldable pub delete_from_cache : String → Leaves → Leaves
  delete_from_cache host m = record m { cache = lru.delete (to_lower host) m.cache }

  unfoldable pub clear_cache : Leaves → Leaves
  clear_cache m = record m { cache = lru.clear m.cache }

  module _ (join : String → String → String) (raise : Thrown) where
    -- The stretch of a new task up to its first `await`. Where it finds the files, or an exception
    -- is thrown, it never waits: its `finally` has run before the caller puts it into `inFlight`.
    pub begin_task : String → String → Leaves → Found → Leaves × Task
    unfolding add_to_cache
    begin_task host dir m missing = (m, running host dir)
    begin_task host dir m Found.unreadable =
        (record m { in_flight = remove host m.in_flight }, settled (inl raise))
    begin_task host dir m (found leaf) = (
      record (add_to_cache host leaf m) { in_flight = remove host m.in_flight },
      settled (inr leaf),
    )

    pub put_in_flight : String → Leaves × Task → Leaves × Answer
    put_in_flight host (m, task) = (
      record m {
        in_flight = insert host m.fresh m.in_flight;
        tasks = update m.fresh task m.tasks;
        fresh = suc m.fresh;
      },
      waits m.fresh,
    )

    start_or_join : String → String → Leaves → Option Ref → Leaves × Answer
    unfolding begin_task put_in_flight
    start_or_join host dir m (some task) = (m, waits task)
    start_or_join host dir m none =
        put_in_flight host (begin_task host dir m (find_files join dir m.disk))

    unfoldable pub cached_or : String → String → Leaves → Option Leaf → Leaves × Answer
    unfolding start_or_join
    cached_or host dir m (some leaf) = (m, cached leaf)
    cached_or host dir m none = start_or_join host dir m (lookup host m.in_flight)

    -- `getLeafFromCache`; `dir` is the directory for the host's files under `leafDir`, or under the
    -- configured one.
    unfoldable pub get_leaf_from_cache : String → String → Leaves → Leaves × Answer
    unfolding cached_or
    get_leaf_from_cache host dir m =
        let (store, hit) = lru.find (to_lower host) m.cache in
        cached_or host dir (record m { cache = store }) hit

    -- The rest of a task once the worker is done; it throws if the directory cannot be made.
    with_files : String → Leaf → Leaves → Option Disk → Leaves × (Thrown ⊎ Leaf)
    unfolding add_to_cache
    with_files host leaf m none = (m, inl raise)
    with_files host leaf m (some d) = (add_to_cache host leaf (record m { disk = d }), inr leaf)

    pub generated : String → String → String → Leaves → Thrown ⊎ Leaf → Leaves × (Thrown ⊎ Leaf)
    unfolding with_files
    generated host dir suffix m (inl e) = (m, inl e)
    generated host dir suffix m (inr leaf) =
        with_files host leaf m (save_to_file join suffix dir leaf m.disk)

    -- The `finally` of the task.
    settle : Ref → String → Leaves × (Thrown ⊎ Leaf) → Leaves
    settle task host (m, r) = record m {
      in_flight = remove host m.in_flight;
      tasks = update task (settled r) m.tasks;
    }

    unfoldable pub settle_task : Ref → String → Leaves → Thrown ⊎ Leaf → Task → Leaves
    unfolding generated settle
    settle_task task suffix m r (running host dir) =
        settle task host (generated host dir suffix m r)
    settle_task task suffix m r (settled _) = m

    -- The worker of a task is done, with a leaf or an exception.
    unfoldable pub on_generated : Ref → String → Thrown ⊎ Leaf → Leaves → Leaves
    unfolding settle_task
    on_generated task suffix r m = settle_task task suffix m r (m.tasks task)
