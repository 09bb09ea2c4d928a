-- ===== src/Prelude/Assoc.antt =====
-- JavaScript's `Map` and plain records: one entry for each key, in the order of first insertion.
use mathlib.Core.Path.{◌≡◌, refl}
use mathlib.Core.Bool.{Bool, true}
use mathlib.Core.Option.{Option, none, some}
use mathlib.Core.List.{List, [], ◌∷◌}
use native.Mathlib.Omega.{arith}
use mitm_core.Prelude.Tests.{Eq, ◌==◌, if◌then◌else◌, is_some}

abbrev pub Assoc {ℓ κ} : Type ℓ → Type κ → Type (ℓ ⊔ κ)
Assoc K V = List (K × V)

pub beq_refl {ℓ} : {K : Type ℓ} ⦃e : Eq K⦄ (k : K) → (k == k) ≡ true
beq_refl ⦃e⦄ k = (e.beq_iff k k).1 refl

module _ {ℓ κ} {K : Type ℓ} {V : Type κ} ⦃e : Eq K⦄ where
  unfoldable pub lookup : K → Assoc K V → Option V
  lookup key [] = none
  lookup key (entry ∷ rest) = if entry.0 == key then some entry.1 else lookup key rest

  unfoldable pub remove : K → Assoc K V → Assoc K V
  remove key [] = []
  remove key (entry ∷ rest) =
      let others = remove key rest in if entry.0 == key then others else entry ∷ others

  -- An entry that is there keeps its place.
  unfoldable pub insert : K → V → Assoc K V → Assoc K V
  insert key value [] = (key, value) ∷ []
  insert key value (entry ∷ rest) =
      let others = insert key value rest in
      if entry.0 == key then (key, value) ∷ rest else entry ∷ others

  abbrev pub has : K → Assoc K V → Bool
  has key entries = is_some (lookup key entries)

  pub lookup-remove :
      (key other : K) (entries : Assoc K V)
      → lookup other (remove key entries) ≡ (if key == other then none else lookup other entries)
  unfolding remove lookup
  lookup-remove key other [] = ground arith
  lookup-remove key other ((i, w) ∷ rest) =
      ground (
        arith,
        e.beq_iff key other,
        e.beq_iff i key,
        e.beq_iff i other,
        lookup-remove key other rest,
      )

  pub lookup-insert :
      (key other : K) (value : V) (entries : Assoc K V)
      → lookup other (insert key value entries)
        ≡ (if key == other then some value else lookup other entries)
  unfolding insert lookup
  lookup-insert key other value [] = refl
  lookup-insert key other value ((i, w) ∷ rest) = ground (
    arith,
    e.beq_iff key other,
    e.beq_iff i key,
    e.beq_iff i other,
    lookup-insert key other value rest,
  )

  pub lookup-remove_self : (key : K) (entries : Assoc K V) → lookup key (remove key entries) ≡ none
  lookup-remove_self key entries = ground (arith, lookup-remove key key entries, e.beq_iff key key)

  pub lookup-insert_self :
      (key : K) (value : V) (entries : Assoc K V)
      → lookup key (insert key value entries) ≡ some value
  lookup-insert_self key value entries =
      ground (arith, lookup-insert key key value entries, e.beq_iff key key)
