-- ===== src/Crdt/GSet/Laws.antt =====
-- `GSet.merge` is union.
use mathlib.Core.List.{Memᴰ}
use para_p2p.Common.{
  ap, suc, sym, refl, true, inl, inr, Option-cases, length, arith, [], ◌∷◌, ◌↔◌, ◌≡◌, String, ◌||◌,
}
use para_p2p.Common.Order.{string_ord}
use para_p2p.Common.BTree.Keys.{Rising, keys-Rising, get_of_Memᴰ-keys, Memᴰ-keys_of_get}
use para_p2p.Common.BTree.{BTreeMap, get, keys, IsSorted}
use para_p2p.Common.BTree.Lookup.{upsert-IsSorted}
use para_p2p.Common.BTree.Sets.{
  is_eq, contains-insert, contains-extend, extend-IsSorted, extend_comm, extend_assoc, extend_idem,
}
use para_p2p.Crdt.GSet.{members, len, GSet, new, insert, contains, merge}
use para_p2p.Crdt.Mergeable.{Mergeable}

abbrev pub IsValid : GSet → Type 0
IsValid s = IsSorted s.members

pub new-IsValid : IsValid new
unfolding new
new-IsValid = tt

pub insert-IsValid : (s : GSet) (e : String) → IsValid s → IsValid (insert s e)
unfolding insert
insert-IsValid s e v = upsert-IsSorted e (λ _. tt) s.members v

pub merge-IsValid : (a b : GSet) → IsValid a → IsValid b → IsValid (merge a b)
unfolding merge
merge-IsValid a b va vb = extend-IsSorted a.members b.members va

pub merge_comm : (a b : GSet) → IsValid a → IsValid b → merge a b ≡ merge b a
unfolding merge
merge_comm a b va vb = λ i. record { members = extend_comm a.members b.members va vb i }

pub merge_assoc :
    (a b c : GSet) → IsValid a → IsValid b → IsValid c → merge (merge a b) c ≡ merge a (merge b c)
unfolding merge
merge_assoc a b c va vb vc =
    λ i. record { members = extend_assoc a.members b.members c.members va vb vc i }

pub merge_idem : (a : GSet) → IsValid a → merge a a ≡ a
unfolding merge
merge_idem a va = λ i. record { members = extend_idem a.members va i }

instance abbrev pub gset_mergeable : Mergeable GSet
gset_mergeable = record {
  merge = merge;
  IsValid = IsValid;
  merge-IsValid = merge-IsValid;
  merge_comm = merge_comm;
  merge_assoc = merge_assoc;
  merge_idem = merge_idem;
}

-- An element is a member after an insertion if it is the one inserted or was a member before.
pub contains-insert_lem :
    (s : GSet) (e q : String) → contains (insert s e) q ≡ is_eq (string_ord.cmp q e) || contains s q
unfolding insert contains
contains-insert_lem s e q = contains-insert q e s.members

-- A merge has the members of both sets, and no others.
pub contains-merge :
    (a b : GSet) (q : String) → IsValid b → contains (merge a b) q ≡ contains a q || contains b q
unfolding merge contains
contains-merge a b q vb = contains-extend q a.members b.members vb

-- `members` lists each member once, in rising order.
pub members-Rising : (s : GSet) → IsValid s → Rising (members s)
unfolding members
members-Rising s v = keys-Rising s.members v

-- It lists the strings that `contains` finds, and no others.
pub mem-members_iff :
    (s : GSet) (q : String) → IsValid s → Memᴰ q (members s) ↔ (contains s q ≡ true)
unfolding members contains
mem-members_iff s q v = (
  λ h. let (u, e) = get_of_Memᴰ-keys q s.members v h in ground arith,
  λ h. elim (Option-cases (get q s.members)) [
    | inl e ↦ absurd (ground arith)
    | inr (u, e) ↦ Memᴰ-keys_of_get q u s.members e
  ],
)

length-keys {κ} : {V : Type κ} (m : BTreeMap String V) → length (keys m) ≡ length m
unfolding keys
length-keys [] = refl
length-keys ((j, v) ∷ m) = ap suc (length-keys m)

-- `len` counts the members, and `is_empty` tells whether there are none.
pub len-eq-length : (s : GSet) → len s ≡ length (members s)
unfolding len members
len-eq-length s = sym (length-keys s.members)

-- On the states that the operations build, the order of two merges does not matter, nor their
-- grouping, and a merge with itself changes nothing.
pub GSet-join :
    (a b c : GSet)
    → IsValid a
    → IsValid b
    → IsValid c
    → (merge a b ≡ merge b a) × (merge (merge a b) c ≡ merge a (merge b c)) × (merge a a ≡ a)
GSet-join a b c va vb vc = (merge_comm a b va vb, merge_assoc a b c va vb vc, merge_idem a va)
