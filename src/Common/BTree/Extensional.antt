-- ===== src/Common/BTree/Extensional.antt =====
-- Sorted maps that hold the same under every key are equal.
use mathlib.Core.Path.{◌≡◌, refl}
use mathlib.Core.List.{[], ◌∷◌}
use mathlib.Core.Option.{none, some}
use native.Mathlib.Omega.{arith}
use para_p2p.Common.Order.{Ord, ◌≺◌, cmp_refl, lt_of_gt, gt_of_lt, Ordering-cases}
use para_p2p.Common.BTree.{BTreeMap, get, Above, IsSorted}
use para_p2p.Common.BTree.Lookup.{get-Above, Above-trans}

module _ {ℓ κ} {K : Type ℓ} {V : Type κ} ⦃o : Ord K⦄ where
  get_head : (j : K) (v : V) (m : BTreeMap K V) → get j ((j, v) ∷ m) ≡ some v
  unfolding get
  get_head j v m = ground (arith, cmp_refl j)

  get_tail : (k j : K) (v : V) (m : BTreeMap K V) → j ≺ k → get k ((j, v) ∷ m) ≡ get k m
  unfolding get
  get_tail k j v m h = ground (arith, gt_of_lt j k)

  -- A key before the head is not held.
  get_before : (k j : K) (v : V) (m : BTreeMap K V) → k ≺ j → get k ((j, v) ∷ m) ≡ none
  unfolding get
  get_before k j v m h = ground arith

  -- Where the heads differ, the lesser one tells the maps apart.
  heads_agree :
      (j : K) (v : V) (m : BTreeMap K V) (i : K) (w : V) (n : BTreeMap K V)
      → get j ((j, v) ∷ m) ≡ get j ((i, w) ∷ n)
      → get i ((j, v) ∷ m) ≡ get i ((i, w) ∷ n)
      → j ≡ i
  heads_agree j v m i w n p q = ground (
    arith,
    Ordering-cases (o.cmp j i),
    o.eq_of_cmp j i,
    lt_of_gt j i,
    get_head j v m,
    get_head i w n,
    get_before j i w n,
    get_before i j v m,
  )

  heads_hold :
      (j : K) (v : V) (m : BTreeMap K V) (i : K) (w : V) (n : BTreeMap K V)
      → j ≡ i
      → get j ((j, v) ∷ m) ≡ get j ((i, w) ∷ n)
      → v ≡ w
  heads_hold j v m i w n h p = ground (arith, get_head j v m, get_head i w n)

  tails_agree :
      (j : K) (v : V) (m : BTreeMap K V) (i : K) (w : V) (n : BTreeMap K V) (k : K)
      → j ≡ i
      → Above j m
      → Above i n
      → get k ((j, v) ∷ m) ≡ get k ((i, w) ∷ n)
      → get k m ≡ get k n
  tails_agree j v m i w n k h a b p = ground (
    arith,
    Ordering-cases (o.cmp k j),
    o.eq_of_cmp k j,
    lt_of_gt k j,
    get_tail k j v m,
    get_tail k i w n,
    get-Above k m,
    get-Above k n,
    Above-trans k j m,
    Above-trans k i n,
  )

  get_nil : (k : K) → get {V = V} k [] ≡ none
  unfolding get
  get_nil k = refl

  pub ext : (m n : BTreeMap K V) → IsSorted m → IsSorted n → ((k : K) → get k m ≡ get k n) → m ≡ n
  ext [] [] h k e = refl
  ext [] ((j, v) ∷ n) h k e = absurd (cc (get_nil j, e j, get_head j v n))
  ext ((j, v) ∷ m) [] h k e = absurd (cc (get_nil j, e j, get_head j v m))
  ext ((j, v) ∷ m) ((i, w) ∷ n) h k e =
      let same : j ≡ i = heads_agree j v m i w n (e j) (e i) in
      let held : v ≡ w = heads_hold j v m i w n same (e j) in
      let rest : m ≡ n = ext m n h.1 k.1 (λ q. tails_agree j v m i w n q same h.0 k.0 (e q)) in cc
