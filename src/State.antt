-- ===== src/State.antt =====
-- core/state/StateStore.ts: the flags of a request, a map from names to values.
use mitm_core.Prelude.{string_eq, String, Bool, true, false, Option, none, some, []}
use mitm_core.Prelude.Assoc
use mitm_core.Prelude.Assoc.{Assoc, lookup, insert, remove}
use mitm_core.Net.{Ref}

pub data StateValue : Type 0 where
  flag : Bool → StateValue
  other : Ref → StateValue

pub record StateStore : Type 0 where
  pub entries : Assoc String StateValue

abbrev pub new_store : StateStore
new_store = record { entries = [] }

unfoldable pub set : String → StateValue → StateStore → StateStore
set key value store = record { entries = insert key value store.entries }

unfoldable pub get : String → StateStore → Option StateValue
get key store = lookup key store.entries

unfoldable pub has : String → StateStore → Bool
has key store = Assoc.has key store.entries

-- The new store, and whether the key was there.
unfoldable pub delete : String → StateStore → StateStore × Bool
delete key store = (record { entries = remove key store.entries }, Assoc.has key store.entries)

-- `if (state.get(key))`; a value that is no flag is an object.
abbrev pub is_set : String → StateStore → Bool
is_set key store = elim (lookup key store.entries) [
  | none ↦ false
  | some (flag b) ↦ b
  | some (other r) ↦ true
]
