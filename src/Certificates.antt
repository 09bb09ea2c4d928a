-- ===== src/Certificates.antt =====
-- The certificates that the proxy shows to its clients: the cache of leaves with its files
-- (core/cache/CertificateCacheManager.ts), the worker that issues them (core/workers/Cert_Worker.ts)
-- and the secure contexts made of them (core/security/SecureContextManager.ts). `lru-cache`, `forge`,
-- `path` and `tls` are libraries, and parameters here.
pub mod Files
pub mod Leaves
pub mod Worker
pub mod Contexts
use mitm_core.Prelude.{String, Bool, Option, none, some, is_some, ◌≡◌}
use mitm_core.Net.{Buffer}

pub record Leaf : Type 0 where
  pub key : Buffer
  pub cert : Buffer

-- An `LRUCache`, and what its documentation says: what was just set is found, what was deleted is
-- not, and nothing is found in a cache that was cleared. A lookup may change the order of eviction.
pub record LruOf (V : Type 0) : Type 1 where
  pub Store : Type 0
  pub find : String → Store → Store × Option V
  pub insert : String → V → Store → Store
  pub delete : String → Store → Store
  pub clear : Store → Store
  pub find-insert :
      (key : String) (value : V) (s : Store) → (find key (insert key value s)).1 ≡ some value
  pub find-clear : (key : String) (s : Store) → (find key (clear s)).1 ≡ none
