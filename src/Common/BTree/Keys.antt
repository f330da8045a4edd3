-- ===== src/Common/BTree/Keys.antt =====
-- The keys and the values of a sorted map: the keys in rising order, so without repetition, and those
-- that it holds.
use mathlib.Core.Path.{◌≡◌}
use mathlib.Core.Logic.{inl, inr}
use mathlib.Core.List.{List, [], ◌∷◌, Memᴰ}
use mathlib.Core.List.Memᴰ.{head, tail}
use mathlib.Core.Option.{some}
use native.Mathlib.Omega.{arith}
use para_p2p.Common.Basics.{All}
use para_p2p.Common.Order.{Ord, ◌≺◌, cmp_refl, gt_of_lt, Ordering-cases}
use para_p2p.Common.BTree.{BTreeMap, get, keys, values, Above, IsSorted}

module _ {ℓ} {K : Type ℓ} ⦃o : Ord K⦄ where
  abbrev pub Rising : List K → Type ℓ
  Rising [] = Unit
  Rising (x ∷ xs) = All (λ y. x ≺ y) xs × Rising xs

module _ {ℓ κ} {K : Type ℓ} {V : Type κ} ⦃o : Ord K⦄ where
  Above-keys : (k : K) (m : BTreeMap K V) → Above k m → All (λ j. k ≺ j) (keys m)
  unfolding keys
  Above-keys k [] h = tt
  Above-keys k ((j, v) ∷ m) h = (h.0, Above-keys k m h.1)

  pub keys-Rising : (m : BTreeMap K V) → IsSorted m → Rising (keys m)
  unfolding keys
  keys-Rising [] h = tt
  keys-Rising ((j, v) ∷ m) h = (Above-keys j m h.0, keys-Rising m h.1)

  pub Memᴰ-keys_of_get : (q : K) (v : V) (m : BTreeMap K V) → get q m ≡ some v → Memᴰ q (keys m)
  unfolding keys get
  Memᴰ-keys_of_get q v [] h = absurd (cc h)
  Memᴰ-keys_of_get q v ((j, w) ∷ m) h = elim (Ordering-cases (o.cmp q j)) [
    | inl less ↦ absurd (ground arith)
    | inr (inl same) ↦ head (o.eq_of_cmp q j same)
    | inr (inr more) ↦ tail (Memᴰ-keys_of_get q v m (ground arith))
  ]

  Above-Memᴰ : (k q : K) (m : BTreeMap K V) → Above k m → Memᴰ q (keys m) → k ≺ q
  unfolding keys
  Above-Memᴰ k q [] h o = elim o [ ]
  Above-Memᴰ k q ((j, v) ∷ m) h (head e) = rw e h.0
  Above-Memᴰ k q ((j, v) ∷ m) h (tail o) = Above-Memᴰ k q m h.1 o

  pub get_of_Memᴰ-keys :
      (q : K) (m : BTreeMap K V) → IsSorted m → Memᴰ q (keys m) → (v : V) × (get q m ≡ some v)
  unfolding keys get
  get_of_Memᴰ-keys q [] h mem = elim mem [ ]
  get_of_Memᴰ-keys q ((j, v) ∷ m) h (head e) = (v, ground (arith, cmp_refl j))
  get_of_Memᴰ-keys q ((j, v) ∷ m) h (tail mem) =
      let (u, e) = get_of_Memᴰ-keys q m h.1 mem in
      (u, ground (arith, gt_of_lt j q (Above-Memᴰ j q m h.0 mem)))

  pub get_of_Memᴰ-values :
      (v : V) (m : BTreeMap K V) → IsSorted m → Memᴰ v (values m) → (k : K) × (get k m ≡ some v)
  unfolding values get
  get_of_Memᴰ-values v [] h mem = elim mem [ ]
  get_of_Memᴰ-values v ((j, w) ∷ m) h (head e) = (j, ground (arith, cmp_refl j))
  get_of_Memᴰ-values v ((j, w) ∷ m) h (tail mem) =
      let (k, e) = get_of_Memᴰ-values v m h.1 mem in
      (k, ground (arith, gt_of_lt j k (Above-Memᴰ j k m h.0 (Memᴰ-keys_of_get k v m e))))
