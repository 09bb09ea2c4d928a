-- ===== src/Certificates/Contexts.antt =====
-- core/security/SecureContextManager.ts. A secure context is a reference; `create` is
-- `tls.createSecureContext`, which throws on what is no certificate.
use mitm_core.Prelude.{
  suc, String, Bool, true, Option, none, some, if◌then◌else◌, string_eq, nat_eq, ◌⊎◌, inl, inr,
  update, ◌≡◌, refl, ap,
}
use mitm_core.Prelude.Assoc.{Assoc, lookup, insert, remove, lookup-remove_self}
use mitm_core.Net.{Ref}
use mitm_core.Signals.{Thrown, error}
use mitm_core.Certificates.{Leaf, LruOf}

-- A generation: it runs for a host, or it settled.
pub data Generation : Type 0 where
  generating : String → Generation
  over : Thrown ⊎ Ref → Generation

-- What a call does first: it throws, has a context, waits for a leaf, or waits for a generation.
pub data ContextAnswer : Type 0 where
  refused : Thrown → ContextAnswer
  ready : Ref → ContextAnswer
  wants_leaf : ContextAnswer
  waits : Ref → ContextAnswer

module _ (lru : LruOf Ref) where
  pub record Contexts : Type 0 where
    pub ctx_cache : lru.Store
    pub in_flight : Assoc String Ref
    pub generations : Ref → Generation
    pub fresh : Ref

  cached_context : Contexts → Option Ref → Contexts × ContextAnswer
  cached_context c none = (c, wants_leaf)
  cached_context c (some ctx) = (c, ready ctx)

  -- `getSecureContext` up to the leaf; `has_ca` tells whether `config.rootCa` is set.
  unfoldable pub get_secure_context : Bool → String → Contexts → Contexts × ContextAnswer
  unfolding cached_context
  get_secure_context has_ca host c =
      let (store, hit) = lru.find host c.ctx_cache in
      if has_ca
      then cached_context (record c { ctx_cache = store }) hit
      else (c, refused (error "No CA Provided" none))

  created : String → Contexts → Thrown ⊎ Ref → Contexts × (Thrown ⊎ Ref)
  created host c (inl e) = (c, inl e)
  created host c (inr ctx) = (record c { ctx_cache = lru.insert host ctx c.ctx_cache }, inr ctx)

  -- A leaf or an exception, and the context that is made of it and kept.
  unfoldable pub on_leaf :
      (Leaf → Thrown ⊎ Ref) → String → Thrown ⊎ Leaf → Contexts → Contexts × (Thrown ⊎ Ref)
  unfolding created
  on_leaf create host (inl e) c = (c, inl e)
  on_leaf create host (inr leaf) c = created host c (create leaf)

  generate_or_join : String → Contexts → Option Ref → Contexts × ContextAnswer
  generate_or_join host c (some task) = (c, waits task)
  generate_or_join host c none = (
    record c {
      in_flight = insert host c.fresh c.in_flight;
      generations = update c.fresh (generating host) c.generations;
      fresh = suc c.fresh;
    },
    waits c.fresh,
  )

  -- `generateSecureContext`: the worker is always awaited, so the caller puts the task in flight
  -- before its `finally` takes it out.
  unfoldable pub generate_secure_context : Bool → String → Contexts → Contexts × ContextAnswer
  unfolding generate_or_join
  generate_secure_context has_ca host c =
      if has_ca
      then generate_or_join host c (lookup host c.in_flight)
      else (c, refused (error "No CA Provided" none))

  over_with : Ref → String → Contexts × (Thrown ⊎ Ref) → Contexts
  over_with task host (c, r) = record c {
    in_flight = remove host c.in_flight;
    generations = update task (over r) c.generations;
  }

  end_generation : (Leaf → Thrown ⊎ Ref) → Ref → Thrown ⊎ Leaf → Contexts → Generation → Contexts
  unfolding over_with on_leaf
  end_generation create task r c (generating host) = over_with task host (on_leaf create host r c)
  end_generation create task r c (over _) = c

  -- The worker of a generation is done.
  unfoldable pub on_context_generated :
      (Leaf → Thrown ⊎ Ref) → Ref → Thrown ⊎ Leaf → Contexts → Contexts
  unfolding end_generation
  on_context_generated create task r c = end_generation create task r c (c.generations task)

  -- A generation that made a context leaves it to the next call: that has it at once, while the
  -- cache keeps it; and the host is no longer in flight, whether the worker or `tls` threw or not.
  pub generated_is_ready :
      (create : Leaf → Thrown ⊎ Ref) (task ctx : Ref) (host : String) (leaf : Leaf) (c : Contexts)
      → c.generations task ≡ generating host
      → create leaf ≡ inr ctx
      → let after = on_context_generated create task (inr leaf) c in
        (lookup host after.in_flight ≡ none) × ((get_secure_context true host after).1 ≡ ready ctx)
  unfolding on_context_generated end_generation over_with on_leaf created get_secure_context
      cached_context
  generated_is_ready create task ctx host leaf c p q =
      rw (p, q, lru.find-insert host ctx c.ctx_cache) (lookup-remove_self host c.in_flight, refl)

  created_failed :
      (host : String) (e : Thrown) (c : Contexts) (r : Thrown ⊎ Ref)
      → (created host c r).1 ≡ inl e
      → created host c r ≡ (c, inl e)
  unfolding created
  created_failed host e c (inl x) q = ap (λ r. (c, r)) q
  created_failed host e c (inr ctx) q = absurd cc

  on_leaf_failed :
      (create : Leaf → Thrown ⊎ Ref) (host : String) (r : Thrown ⊎ Leaf) (e : Thrown) (c : Contexts)
      → (on_leaf create host r c).1 ≡ inl e
      → on_leaf create host r c ≡ (c, inl e)
  unfolding on_leaf
  on_leaf_failed create host (inl x) e c q = ap (λ r. (c, r)) q
  on_leaf_failed create host (inr leaf) e c q = created_failed host e c (create leaf) q

  -- A generation that fails takes its host out of flight, and leaves the cache as it was, so the
  -- next call tries again.
  pub failed_is_retried :
      (create : Leaf → Thrown ⊎ Ref) (task : Ref) (host : String) (r : Thrown ⊎ Leaf) (e : Thrown)
      (c : Contexts)
      → c.generations task ≡ generating host
      → (on_leaf create host r c).1 ≡ inl e
      → let after = on_context_generated create task r c in
        (after.ctx_cache ≡ c.ctx_cache)
        × ((generate_secure_context true host after).1 ≡ waits c.fresh)
  unfolding on_context_generated end_generation over_with generate_secure_context generate_or_join
  failed_is_retried create task host r e c p q =
      rw (p, on_leaf_failed create host r e c q, lookup-remove_self host c.in_flight) (refl, refl)
