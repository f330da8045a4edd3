-- ===== src/Common/BTree/Lookup.antt =====
-- What a map holds under a key after each operation, and that the operations keep it sorted.
use Prim.Native.Nat.Ordering.{lt, eq, gt}
use mathlib.Core.Path.{◌≡◌, refl}
use mathlib.Core.List.{[], ◌∷◌}
use mathlib.Core.Option.{Option, none, some}
use native.Mathlib.Omega.{arith}
use para_p2p.Common.Order.{Ord, ◌≺◌, cmp_refl, lt_of_gt, gt_of_lt, gt_trans}
use para_p2p.Common.BTree.{BTreeMap, get, upsert, merge_with, Above, IsSorted}

module _ {ℓ κ} {K : Type ℓ} {V : Type κ} ⦃o : Ord K⦄ where
  pub get-upsert :
      (q k : K) (f : Option V → V) (m : BTreeMap K V)
      → get q (upsert k f m)
        ≡ elim (o.cmp q k) [ lt ↦ get q m | eq ↦ some (f (get k m)) | gt ↦ get q m ]
  unfolding get upsert
  get-upsert q k f [] = ground arith
  get-upsert q k f ((j, v) ∷ m) = ground (
    arith,
    get-upsert q k f m,
    o.eq_of_cmp k j,
    o.eq_of_cmp q k,
    o.lt_trans q k j,
    gt_trans q k j,
    gt_of_lt k j,
    cmp_refl k,
  )

  pub get-upsert_self :
      (k : K) (f : Option V → V) (m : BTreeMap K V) → get k (upsert k f m) ≡ some (f (get k m))
  get-upsert_self k f m = ground (arith, get-upsert k k f m, cmp_refl k)

  pub get-Above : (k : K) (m : BTreeMap K V) → Above k m → get k m ≡ none
  unfolding get
  get-Above k [] h = refl
  get-Above k ((j, v) ∷ m) h = ground arith

  pub Above-trans : (k j : K) (m : BTreeMap K V) → k ≺ j → Above j m → Above k m
  Above-trans k j [] p h = tt
  Above-trans k j ((i, v) ∷ m) p h = (o.lt_trans k j i p h.0, Above-trans k j m p h.1)

  Above-upsert :
      (j k : K) (f : Option V → V) (m : BTreeMap K V) → j ≺ k → Above j m → Above j (upsert k f m)
  unfolding upsert
  Above-upsert j k f [] p h = (p, tt)
  Above-upsert j k f ((i, v) ∷ m) p h = ground (arith, Above-upsert j k f m)

  pub upsert-IsSorted :
      (k : K) (f : Option V → V) (m : BTreeMap K V) → IsSorted m → IsSorted (upsert k f m)
  unfolding upsert
  upsert-IsSorted k f [] h = (tt, tt)
  upsert-IsSorted k f ((j, v) ∷ m) h =
      ground (arith, upsert-IsSorted k f m, Above-upsert j k f m, lt_of_gt k j, Above-trans k j m)

-- What one key holds after the loop over `n`.
abbrev pub joined {κ μ} :
    {V : Type κ} {W : Type μ} → (Option V → W → V) → Option V → Option W → Option V
joined f old none = old
joined f old (some w) = some (f old w)

module _ {ℓ κ μ} {K : Type ℓ} {V : Type κ} {W : Type μ} ⦃o : Ord K⦄ where
  pub merge_with-IsSorted :
      (f : Option V → W → V) (m : BTreeMap K V) (n : BTreeMap K W)
      → IsSorted m
      → IsSorted (merge_with f m n)
  unfolding merge_with
  merge_with-IsSorted f m [] h = h
  merge_with-IsSorted f m ((k, w) ∷ n) h =
      merge_with-IsSorted f (upsert k (λ old. f old w) m) n (upsert-IsSorted k _ m h)

  pub get-merge_with :
      (f : Option V → W → V) (q : K) (m : BTreeMap K V) (n : BTreeMap K W)
      → IsSorted n
      → get q (merge_with f m n) ≡ joined f (get q m) (get q n)
  unfolding merge_with get
  get-merge_with f q m [] h = refl
  get-merge_with f q m ((k, w) ∷ n) h = ground (
    arith,
    get-merge_with f q (upsert k (λ old. f old w) m) n h.1,
    get-upsert q k (λ old. f old w) m,
    get-Above k n h.0,
    o.eq_of_cmp q k,
    get-Above q n,
    Above-trans q k n,
  )
