-- ===== src/Crdt/GCounter/Value.antt =====
-- What `GCounter.value` reads after an update and after a merge.
use para_p2p.Common.{
  ℕ, ◌+◌, ◌≤◌, ◌≡◌, max, min, String, List, [], ◌∷◌, arith, unwrap_or, foldl, saturating_add,
  u64_max,
}
use para_p2p.Common.Order.{string_ord}
use para_p2p.Common.BTree.{BTreeMap, upsert, merge_with, values}
use para_p2p.Crdt.GCounter.{GCounter, increment, value, merge}

abbrev sum : List ℕ → ℕ
sum [] = 0
sum (x ∷ xs) = x + sum xs

foldl-saturating_add :
    (acc : ℕ) (xs : List ℕ)
    → acc ≤ u64_max
    → foldl saturating_add acc xs ≡ min u64_max (acc + sum xs)
foldl-saturating_add acc [] h = omega arith
foldl-saturating_add acc (x ∷ xs) h = ground (arith, foldl-saturating_add (saturating_add acc x) xs)

-- The value is the sum of the counts, cut off at the largest `u64`.
pub value-eq-min : (c : GCounter) → value c ≡ min u64_max (sum (values c.counts))
unfolding value
value-eq-min c = ground (arith, foldl-saturating_add 0 (values c.counts))

sum-upsert_add :
    (r : String) (n : ℕ) (m : BTreeMap String ℕ)
    → min u64_max (sum (values (upsert r (λ slot. saturating_add (unwrap_or slot 0) n) m)))
      ≡ min u64_max (sum (values m) + n)
unfolding upsert values
sum-upsert_add r n [] = ground arith
sum-upsert_add r n ((j, v) ∷ m) = ground (arith, sum-upsert_add r n m)

-- An increment raises the value by its amount, up to the cut-off, whichever replica makes it.
pub value-increment :
    (c : GCounter) (r : String) (n : ℕ) → value (increment c r n) ≡ saturating_add (value c) n
unfolding increment
value-increment c r n =
    ground (arith, value-eq-min c, value-eq-min (increment c r n), sum-upsert_add r n c.counts)

sum_le-upsert-max :
    (r : String) (n : ℕ) (m : BTreeMap String ℕ)
    → sum (values m) ≤ sum (values (upsert r (λ slot. max (unwrap_or slot 0) n) m))
unfolding upsert values
sum_le-upsert-max r n [] = ground arith
sum_le-upsert-max r n ((j, v) ∷ m) = ground (arith, sum_le-upsert-max r n m)

sum_le-merge_with :
    (m n : BTreeMap String ℕ)
    → sum (values m) ≤ sum (values (merge_with (λ slot count. max (unwrap_or slot 0) count) m n))
unfolding merge_with
sum_le-merge_with m [] = omega arith
sum_le-merge_with m ((r, k) ∷ n) = omega (
  arith,
  sum_le-upsert-max r k m,
  sum_le-merge_with (upsert r (λ slot. max (unwrap_or slot 0) k) m) n,
)

-- A merge never lowers the value that a replica shows.
pub value-le-merge : (a b : GCounter) → value a ≤ value (merge a b)
unfolding merge
value-le-merge a b =
    ground (arith, value-eq-min a, value-eq-min (merge a b), sum_le-merge_with a.counts b.counts)
