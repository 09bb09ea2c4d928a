-- ===== src/Cache/Serve/Revalidation.antt =====
-- Whether a stale entry can be revalidated.
use mitm_core.Prelude.{ℕ, String, true, false, ◌≡◌, Option, none, some, arith, ◌⊎◌}
use mitm_core.Net.{IncomingMessage}
use mitm_core.Scope.{RequestScope}
use mitm_core.Cache.Store.{Lru, Cache}
use mitm_core.Cache.Processor.{Processor}
use mitm_core.Cache.Serve.{try_serve_hit, try_serve_revalidation}

-- The head of the response went out before the end of `s`; a response object stays the same one.
abbrev pub HasSentHead : RequestScope → Type 0
HasSentHead s = elim s.request.client.res [ none ↦ ⊥ | some res ↦ res.headers_sent ≡ true ]

module _ (lru : Lru) (date_parse : String → Option ℕ) where
  -- If a request was not served from the cache, then either its entry is forgotten, or there was
  -- none, or the cache is not used, or the head of the response was already sent.
  missed :
      (now : ℕ) (p : Processor) (c : Cache lru) (s : RequestScope)
      → (try_serve_hit lru now p c s).answer ≡ false
      → ((try_serve_hit lru now p c s).processor.use_response_cache ≡ false)
        ⊎ ((try_serve_hit lru now p c s).processor.cached_res ≡ none)
        ⊎ HasSentHead s
  unfolding try_serve_hit
  missed now p c s h = ground arith

  -- A request that was looked up in the cache and not served from it is never served by a
  -- revalidation afterwards, whatever the upstream answers, even a 304: the lookup has forgotten
  -- the stale entry, or the head of the response was sent already. (A head that is sent stays sent.)
  pub revalidation_never :
      (now later : ℕ) (p : Processor) (c c' : Cache lru) (s t : RequestScope)
      (upstream : IncomingMessage)
      → (try_serve_hit lru now p c s).answer ≡ false
      → (HasSentHead s → HasSentHead t)
      → (try_serve_revalidation lru date_parse later
          (try_serve_hit lru now p c s).processor
          c'
          t
          upstream).answer
        ≡ false
  unfolding try_serve_revalidation
  revalidation_never now later p c c' s t upstream h keeps = ground (arith, missed now p c s h)
