-- ===== src/Crdt/GCounter/Laws.antt =====
-- `GCounter.merge` takes the larger count of each replica, and is a join.
use para_p2p.Common.{ℕ, max, ◌≡◌, refl, String, Option, none, some, arith, unwrap_or}
use para_p2p.Common.Order.{string_ord}
use para_p2p.Common.BTree.{get, IsSorted}
use para_p2p.Common.BTree.Lookup.{get-merge_with, merge_with-IsSorted, upsert-IsSorted, joined}
use para_p2p.Common.BTree.Extensional.{ext}
use para_p2p.Crdt.GCounter.{GCounter, new, increment, merge}
use para_p2p.Crdt.Mergeable.{Mergeable}

abbrev pub IsValid : GCounter → Type 0
IsValid c = IsSorted c.counts

abbrev pub raise : Option ℕ → ℕ → ℕ
raise slot count = max (unwrap_or slot 0) count

pub new-IsValid : IsValid new
unfolding new
new-IsValid = tt

pub increment-IsValid : (c : GCounter) (r : String) (n : ℕ) → IsValid c → IsValid (increment c r n)
unfolding increment
increment-IsValid c r n v = upsert-IsSorted r _ c.counts v

pub merge-IsValid : (a b : GCounter) → IsValid a → IsValid b → IsValid (merge a b)
unfolding merge
merge-IsValid a b va vb = merge_with-IsSorted _ a.counts b.counts va

pub get-merge :
    (a b : GCounter) (r : String)
    → IsValid b
    → get r (merge a b).counts ≡ joined raise (get r a.counts) (get r b.counts)
unfolding merge
get-merge a b r vb = get-merge_with raise r a.counts b.counts vb

pub GCounter-ext :
    (a b : GCounter)
    → IsValid a
    → IsValid b
    → ((r : String) → get r a.counts ≡ get r b.counts)
    → a ≡ b
GCounter-ext a b va vb h = λ i. record { counts = ext a.counts b.counts va vb h i }

joined_comm : (x y : Option ℕ) → joined raise x y ≡ joined raise y x
joined_comm none none = refl
joined_comm none (some y) = ground arith
joined_comm (some x) none = ground arith
joined_comm (some x) (some y) = ground arith

joined_assoc :
    (x y z : Option ℕ) → joined raise (joined raise x y) z ≡ joined raise x (joined raise y z)
joined_assoc x y none = refl
joined_assoc x none (some z) = ground arith
joined_assoc x (some y) (some z) = ground arith

joined_idem : (x : Option ℕ) → joined raise x x ≡ x
joined_idem none = refl
joined_idem (some x) = ground arith

-- The order in which two counters meet does not matter.
pub merge_comm : (a b : GCounter) → IsValid a → IsValid b → merge a b ≡ merge b a
merge_comm a b va vb =
    GCounter-ext (merge a b) (merge b a) (merge-IsValid a b va vb) (merge-IsValid b a vb va) λ r.
      ground (
        arith,
        get-merge a b r vb,
        get-merge b a r va,
        joined_comm (get r a.counts) (get r b.counts),
      )

pub merge_assoc :
    (a b c : GCounter)
    → IsValid a
    → IsValid b
    → IsValid c
    → merge (merge a b) c ≡ merge a (merge b c)
merge_assoc a b c va vb vc =
    GCounter-ext (merge (merge a b) c) (merge a (merge b c))
      (merge-IsValid (merge a b) c (merge-IsValid a b va vb) vc)
      (merge-IsValid a (merge b c) va (merge-IsValid b c vb vc))
      λ r. ground (
        arith,
        get-merge a b r vb,
        get-merge (merge a b) c r vc,
        get-merge b c r vc,
        get-merge a (merge b c) r (merge-IsValid b c vb vc),
        joined_assoc (get r a.counts) (get r b.counts) (get r c.counts),
      )

pub merge_idem : (a : GCounter) → IsValid a → merge a a ≡ a
merge_idem a va =
    GCounter-ext (merge a a) a (merge-IsValid a a va va) va
      λ r. ground (arith, get-merge a a r va, joined_idem (get r a.counts))

instance abbrev pub gcounter_mergeable : Mergeable GCounter
gcounter_mergeable = record {
  merge = merge;
  IsValid = IsValid;
  merge-IsValid = merge-IsValid;
  merge_comm = merge_comm;
  merge_assoc = merge_assoc;
  merge_idem = merge_idem;
}
