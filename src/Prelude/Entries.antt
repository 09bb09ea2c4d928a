-- ===== src/Prelude/Entries.antt =====
-- What holds of every entry of a `Map`, and that no two of its keys have the same value.
use mathlib.Core.Path.{◌≡◌, sym, ◌∙◌, subst}
use mathlib.Core.Option.{some}
use mathlib.Core.Logic.{◌≢◌, ◌⊎◌, inl, inr}
use native.Mathlib.Omega.{arith}
use mitm_core.Prelude.Tests.{Eq}
use mitm_core.Prelude.Assoc.{Assoc, lookup, insert, remove, lookup-insert, lookup-remove}

module _ {ℓ κ} {K : Type ℓ} {V : Type κ} ⦃e : Eq K⦄ where
  abbrev pub Each : (K → V → Type κ) → Assoc K V → Type (ℓ ⊔ κ)
  Each P entries = (k : K) (v : V) → lookup k entries ≡ some v → P k v

  abbrev pub AreOnce : Assoc K V → Type (ℓ ⊔ κ)
  AreOnce entries =
      (k l : K) (v : V) → lookup k entries ≡ some v → lookup l entries ≡ some v → k ≡ l

  pub insert_cases :
      (key k : K) (value v : V) (entries : Assoc K V)
      → lookup k (insert key value entries) ≡ some v
      → ((key ≡ k) × (value ≡ v)) ⊎ (lookup k entries ≡ some v)
  insert_cases key k value v entries p =
      ground (arith, lookup-insert key k value entries, e.beq_iff key k)

  pub removed_entry :
      (key k : K) (v : V) (entries : Assoc K V)
      → lookup k (remove key entries) ≡ some v
      → lookup k entries ≡ some v
  removed_entry key k v entries p = ground (arith, lookup-remove key k entries)

  pub Each-insert :
      (P : K → V → Type κ) (key : K) (value : V) (entries : Assoc K V)
      → P key value
      → Each P entries
      → Each P (insert key value entries)
  Each-insert P key value entries new old k v p = elim (insert_cases key k value v entries p) [
    | inl (same, held) ↦ subst (λ i. P i v) same (subst (λ w. P key w) held new)
    | inr there ↦ old k v there
  ]

  pub Each-remove :
      (P : K → V → Type κ) (key : K) (entries : Assoc K V)
      → Each P entries
      → Each P (remove key entries)
  Each-remove P key entries old k v p = old k v (removed_entry key k v entries p)

  pub AreOnce-insert :
      (key : K) (value : V) (entries : Assoc K V)
      → Each (λ k v. v ≢ value) entries
      → AreOnce entries
      → AreOnce (insert key value entries)
  AreOnce-insert key value entries new once k l v p q =
      elim (insert_cases key k value v entries p) [
        | inl (k_key, k_new) ↦ elim (insert_cases key l value v entries q) [
          | inl (l_key, _) ↦ sym k_key ∙ l_key
          | inr l_old ↦ elim (new l v l_old (sym k_new)) [ ]
        ]
        | inr k_old ↦ elim (insert_cases key l value v entries q) [
          | inl (_, l_new) ↦ elim (new k v k_old (sym l_new)) [ ]
          | inr l_old ↦ once k l v k_old l_old
        ]
      ]

  pub AreOnce-remove :
      (key : K) (entries : Assoc K V) → AreOnce entries → AreOnce (remove key entries)
  AreOnce-remove key entries once k l v p q =
      once k l v (removed_entry key k v entries p) (removed_entry key l v entries q)
