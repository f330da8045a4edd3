-- ===== src/Common/BTree.antt =====
-- `BTreeMap` and `BTreeSet` of the standard library, as far as the crates use them: entries in the
-- order of their keys. A set is a map to the unit, as it is in Rust.
pub mod Lookup
pub mod Extensional
pub mod Sets
pub mod Keys
use Prim.Native.Nat.Ordering.{lt, eq, gt}
use mathlib.Core.List.{List, [], ◌∷◌}
use mathlib.Core.Option.{Option, none, some}
use para_p2p.Common.Order.{Ord, ◌≺◌}

abbrev pub BTreeMap {ℓ κ} : Type ℓ → Type κ → Type (ℓ ⊔ κ)
BTreeMap K V = List (K × V)

abbrev pub BTreeSet {ℓ} : Type ℓ → Type ℓ
BTreeSet K = BTreeMap K (Unit {0})

module _ {ℓ κ} {K : Type ℓ} {V : Type κ} where
  -- The values in the order of their keys.
  unfoldable pub values : BTreeMap K V → List V
  values [] = []
  values ((j, v) ∷ m) = v ∷ values m

  unfoldable pub keys : BTreeMap K V → List K
  keys [] = []
  keys ((j, v) ∷ m) = j ∷ keys m

module _ {ℓ κ} {K : Type ℓ} {V : Type κ} ⦃o : Ord K⦄ where
  unfoldable pub get : K → BTreeMap K V → Option V
  get k [] = none
  get k ((j, v) ∷ m) = elim (o.cmp k j) [ lt ↦ none | eq ↦ some v | gt ↦ get k m ]

  -- `map.entry(k)`, then the value that `f` makes of the old one.
  unfoldable pub upsert : K → (Option V → V) → BTreeMap K V → BTreeMap K V
  upsert k f [] = (k, f none) ∷ []
  upsert k f ((j, v) ∷ m) = elim (o.cmp k j) [
    | lt ↦ (k, f none) ∷ (j, v) ∷ m
    | eq ↦ (j, f (some v)) ∷ m
    | gt ↦ (j, v) ∷ upsert k f m
  ]

  -- Every key of the map stands after `k`.
  abbrev pub Above : K → BTreeMap K V → Type 0
  Above k [] = Unit
  Above k ((j, v) ∷ m) = (k ≺ j) × Above k m

  abbrev pub IsSorted : BTreeMap K V → Type 0
  IsSorted [] = Unit
  IsSorted ((j, v) ∷ m) = Above j m × IsSorted m

module _ {ℓ κ μ} {K : Type ℓ} {V : Type κ} {W : Type μ} ⦃o : Ord K⦄ where
  -- `for (k, w) in other { let slot = map.entry(k); … }`
  unfoldable pub merge_with : (Option V → W → V) → BTreeMap K V → BTreeMap K W → BTreeMap K V
  merge_with f m [] = m
  merge_with f m ((k, w) ∷ n) = merge_with f (upsert k (λ old. f old w) m) n

module _ {ℓ} {K : Type ℓ} ⦃o : Ord K⦄ where
  abbrev pub insert : K → BTreeSet K → BTreeSet K
  insert k s = upsert k (λ _. tt) s

  abbrev pub extend : BTreeSet K → BTreeSet K → BTreeSet K
  extend s t = merge_with (λ _ _. tt) s t
