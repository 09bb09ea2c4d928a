-- ===== src/Cache/Store.antt =====
-- ResponseCache: the store behind `get`, `set`, `delete` and `generateKey`. `lru-cache` is a library,
-- so its instance is a parameter. It holds references, since a hit hands out the stored object
-- itself, which `tryServeRevalidation` changes in place.
use Prim.Native.String.{◌++◌}
use mitm_core.Prelude.{
  ℕ, ◌+◌, String, Option, none, ◌≡◌, update, or_else, length, if◌then◌else◌, ◌==◌, nat_eq,
  string_eq,
}
use mitm_core.Net.{Ref, Buffer, Headers, IncomingMessage, header_text}

pub record CachedResponse : Type 0 where
  pub status : ℕ
  pub etag : Option String
  pub headers : Headers
  pub body : Buffer
  pub expires : ℕ

-- The options `maxSize` and `ttl` of the cache, in bytes and in milliseconds.
abbrev pub max_size : ℕ
max_size = 52428800

abbrev pub ttl : ℕ
ttl = 300000

-- What the source calls on an `LRUCache`, and what the library documents of it: a deleted key is not
-- found. A lookup may change the order of eviction. Both calls are given the time at which they are
-- made, since entries outlive the `ttl` by no lookup, and `insert` is given the size that
-- `sizeCalculation` computes.
pub record Lru : Type 1 where
  pub Store : Type 0
  pub find : ℕ → String → Store → Store × Option Ref
  pub insert : ℕ → String → Ref → ℕ → Store → Store
  pub delete : String → Store → Store
  pub find-delete : (now : ℕ) (key : String) (s : Store) → (find now key (delete key s)).1 ≡ none

module _ (lru : Lru) where
  pub record Cache : Type 0 where
    pub store : lru.Store
    pub entries : Ref → CachedResponse
    pub fresh : Ref

  unfoldable pub get : ℕ → String → Cache → Cache × Option Ref
  get now key c =
      let (store, found) = lru.find now key c.store in (record c { store = store }, found)

  -- `value.body.length || 1`.
  abbrev pub size_calculation : CachedResponse → ℕ
  size_calculation value = if length value.body == 0 then 1 else length value.body

  unfoldable pub set : ℕ → String → CachedResponse → Cache → Cache
  set now key value c = record {
    store = lru.insert now key c.fresh (size_calculation value) c.store;
    entries = update c.fresh value c.entries;
    fresh = c.fresh + 1;
  }

  unfoldable pub delete : String → Cache → Cache
  delete key c = record c { store = lru.delete key c.store }

-- `${…}` of an optional text.
abbrev shown : Option String → String
shown t = or_else t "undefined"

unfoldable pub generate_key : IncomingMessage → String
generate_key req =
    let accepted = or_else (header_text "accept-encoding" req.headers) "" in
    let encoding = if accepted == "" then "identity" else accepted in
    shown req.method
    ++ ":"
    ++ shown (header_text "host" req.headers)
    ++ shown req.url
    ++ ":"
    ++ encoding
