-- ===== src/Prelude/Dictionary.antt =====
-- Python dictionaries: association lists in insertion order, where an assignment to a present key
-- keeps its place.
use mathlib.Core.Path.{◌≡◌, refl}
use mathlib.Core.Logic.{◌≢◌, ◌↔◌}
use mathlib.Core.Bool.{Bool, true, ◌||◌}
use mathlib.Core.Option.{Option, none, some}
use mathlib.Core.List.{List, [], ◌∷◌}
use native.Mathlib.Omega.{arith}
use auto_lfs_builder.Prelude.Tests.{if◌then◌else◌}
use auto_lfs_builder.Prelude.Equality.{Eq, ◌==◌, contains}

abbrev pub Dict {ℓ κ} : Type ℓ → Type κ → Type (ℓ ⊔ κ)
Dict K V = List (K × V)

unfoldable pub keys {ℓ κ} : {K : Type ℓ} {V : Type κ} → Dict K V → List K
keys [] = []
keys ((k, v) ∷ d) = k ∷ keys d

module _ {ℓ κ} {K : Type ℓ} {V : Type κ} ⦃e : Eq K⦄ where
  -- `d.get(k)`
  unfoldable pub lookup : K → Dict K V → Option V
  lookup k [] = none
  lookup k ((j, v) ∷ d) = if j == k then some v else lookup k d

  -- `d.get(k, default)`
  unfoldable pub lookup_or : K → Dict K V → V → V
  unfolding lookup
  lookup_or k d default = elim (lookup k d) [ some v ↦ v | none ↦ default ]

  -- `k in d`
  unfoldable pub has_key : K → Dict K V → Bool
  unfolding contains keys
  has_key k d = contains k (keys d)

  -- `d[k] = v`
  unfoldable pub insert : K → V → Dict K V → Dict K V
  insert k v [] = (k, v) ∷ []
  insert k v ((j, w) ∷ d) = if j == k then (j, v) ∷ d else (j, w) ∷ insert k v d

  pub lookup-nil : (k : K) → lookup k [] ≡ none
  unfolding lookup
  lookup-nil k = refl

  pub lookup-insert :
      (k j : K) (v : V) (d : Dict K V)
      → lookup j (insert k v d) ≡ (if k == j then some v else lookup j d)
  unfolding lookup insert
  lookup-insert k j v [] = refl
  lookup-insert k j v ((i, w) ∷ d) =
      ground (arith, e.beq_iff k j, e.beq_iff i k, e.beq_iff i j, lookup-insert k j v d)

  pub has_key-insert :
      (k j : K) (v : V) (d : Dict K V) → has_key j (insert k v d) ≡ (has_key j d || k == j)
  unfolding has_key insert
  has_key-insert k j v [] = ground (arith, e.beq_iff k j, e.beq_iff j k)
  has_key-insert k j v ((i, w) ∷ d) =
      ground (arith, e.beq_iff k j, e.beq_iff i k, e.beq_iff j i, has_key-insert k j v d)

  pub has_key-lookup : (k : K) (d : Dict K V) → (lookup k d ≢ none) ↔ (has_key k d ≡ true)
  unfolding has_key lookup
  has_key-lookup k [] = (λ h. absurd (h refl), λ h. cc)
  has_key-lookup k ((j, v) ∷ d) = ground (arith, e.beq_iff k j, e.beq_iff j k, has_key-lookup k d)
