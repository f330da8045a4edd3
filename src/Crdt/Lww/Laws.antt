-- ===== src/Crdt/Lww/Laws.antt =====
-- `LwwRegister.merge` is the maximum of a total order, so it is a join on all states.
use para_p2p.Common.{◌≡◌, refl, ◌⊎◌}
use para_p2p.Common.Order.{Ord}
use para_p2p.Common.Order.Larger.{larger, larger_cases, larger_comm, larger_assoc, larger_idem}
use para_p2p.Crdt.Lww.{LwwRegister, merge, write_ord}
use para_p2p.Crdt.Mergeable.{Mergeable}

module _ {ℓ} {V : Type ℓ} ⦃o : Ord V⦄ where
  pub merge-eq-larger : (a b : LwwRegister V) → merge a b ≡ larger a b
  unfolding merge larger
  merge-eq-larger a b = refl

  -- A merge invents nothing: it is one of the two registers.
  pub merge_cases : (a b : LwwRegister V) → (merge a b ≡ a) ⊎ (merge a b ≡ b)
  unfolding merge larger
  merge_cases a b = larger_cases a b

  -- The two registers meet in one state, whichever of them merges the other.
  pub merge_comm : (a b : LwwRegister V) → merge a b ≡ merge b a
  unfolding merge larger
  merge_comm a b = larger_comm a b

  pub merge_assoc : (a b c : LwwRegister V) → merge (merge a b) c ≡ merge a (merge b c)
  unfolding merge larger
  merge_assoc a b c = larger_assoc a b c

  pub merge_idem : (a : LwwRegister V) → merge a a ≡ a
  unfolding merge larger
  merge_idem a = larger_idem a

  instance abbrev pub lww_mergeable : Mergeable (LwwRegister V)
  lww_mergeable = record {
    merge = merge;
    IsValid = λ r. Unit;
    merge-IsValid = λ a b va vb. tt;
    merge_comm = λ a b va vb. merge_comm a b;
    merge_assoc = λ a b c va vb vc. merge_assoc a b c;
    merge_idem = λ a va. merge_idem a;
  }
