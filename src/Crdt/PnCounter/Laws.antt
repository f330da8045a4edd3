-- ===== src/Crdt/PnCounter/Laws.antt =====
-- `PnCounter` is the product of two joins, and its value is the difference of two counters.
use para_p2p.Common.{ℕ, ◌+◌, ◌≤◌, ◌≡◌, String, arith, u64_max}
use para_p2p.Common.Int.{sub_ℕ, ◌≤ℤ◌, i64_min, i64_max}
use para_p2p.Crdt.GCounter
use para_p2p.Crdt.GCounter.Laws as GCounterLaws
use para_p2p.Crdt.GCounter.Value.{value-increment}
use para_p2p.Crdt.Mergeable.{Mergeable}
use para_p2p.Crdt.PnCounter.{PnCounter, new, increment, decrement, value, merge}

abbrev pub IsValid : PnCounter → Type 0
IsValid c = GCounterLaws.IsValid c.positive × GCounterLaws.IsValid c.negative

pub new-IsValid : IsValid new
unfolding new
new-IsValid = (GCounterLaws.new-IsValid, GCounterLaws.new-IsValid)

pub increment-IsValid : (c : PnCounter) (r : String) (n : ℕ) → IsValid c → IsValid (increment c r n)
unfolding increment
increment-IsValid c r n v = (GCounterLaws.increment-IsValid c.positive r n v.0, v.1)

pub decrement-IsValid : (c : PnCounter) (r : String) (n : ℕ) → IsValid c → IsValid (decrement c r n)
unfolding decrement
decrement-IsValid c r n v = (v.0, GCounterLaws.increment-IsValid c.negative r n v.1)

pub merge-IsValid : (a b : PnCounter) → IsValid a → IsValid b → IsValid (merge a b)
unfolding merge
merge-IsValid a b va vb = (
  GCounterLaws.merge-IsValid a.positive b.positive va.0 vb.0,
  GCounterLaws.merge-IsValid a.negative b.negative va.1 vb.1,
)

pub merge_comm : (a b : PnCounter) → IsValid a → IsValid b → merge a b ≡ merge b a
unfolding merge
merge_comm a b va vb = λ i. record {
  positive = GCounterLaws.merge_comm a.positive b.positive va.0 vb.0 i;
  negative = GCounterLaws.merge_comm a.negative b.negative va.1 vb.1 i;
}

pub merge_assoc :
    (a b c : PnCounter)
    → IsValid a
    → IsValid b
    → IsValid c
    → merge (merge a b) c ≡ merge a (merge b c)
unfolding merge
merge_assoc a b c va vb vc = λ i. record {
  positive = GCounterLaws.merge_assoc a.positive b.positive c.positive va.0 vb.0 vc.0 i;
  negative = GCounterLaws.merge_assoc a.negative b.negative c.negative va.1 vb.1 vc.1 i;
}

pub merge_idem : (a : PnCounter) → IsValid a → merge a a ≡ a
unfolding merge
merge_idem a va = λ i. record {
  positive = GCounterLaws.merge_idem a.positive va.0 i;
  negative = GCounterLaws.merge_idem a.negative va.1 i;
}

instance abbrev pub pncounter_mergeable : Mergeable PnCounter
pncounter_mergeable = record {
  merge = merge;
  IsValid = IsValid;
  merge-IsValid = merge-IsValid;
  merge_comm = merge_comm;
  merge_assoc = merge_assoc;
  merge_idem = merge_idem;
}

-- The value never leaves the range of `i64`.
pub value_bounds : (c : PnCounter) → (i64_min ≤ℤ value c) × (value c ≤ℤ i64_max)
unfolding value
value_bounds c = ground arith

-- Inside that range the value is the exact difference of the two totals.
pub value_exact :
    (c : PnCounter)
    → i64_min ≤ℤ sub_ℕ (GCounter.value c.positive) (GCounter.value c.negative)
    → sub_ℕ (GCounter.value c.positive) (GCounter.value c.negative) ≤ℤ i64_max
    → value c ≡ sub_ℕ (GCounter.value c.positive) (GCounter.value c.negative)
unfolding value
value_exact c low high = ground arith

-- An increment and a decrement by one amount cancel, whichever replicas make them, where neither
-- total is cut off.
value-decrement-increment :
    (c : PnCounter) (r s : String) (n : ℕ)
    → GCounter.value c.positive + n ≤ u64_max
    → GCounter.value c.negative + n ≤ u64_max
    → value (decrement (increment c r n) s n) ≡ value c
unfolding value increment decrement
value-decrement-increment c r s n p q =
    ground (arith, value-increment c.positive r n, value-increment c.negative s n)

-- On the states that the operations build, the order of two merges does not matter, nor their
-- grouping, and a merge with itself changes nothing.
pub PnCounter-join :
    (a b c : PnCounter)
    → IsValid a
    → IsValid b
    → IsValid c
    → (merge a b ≡ merge b a) × (merge (merge a b) c ≡ merge a (merge b c)) × (merge a a ≡ a)
PnCounter-join a b c va vb vc = (merge_comm a b va vb, merge_assoc a b c va vb vc, merge_idem a va)
