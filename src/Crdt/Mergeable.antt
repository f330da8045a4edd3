-- ===== src/Crdt/Mergeable.antt =====
-- The trait `Mergeable` of crates/noeta-crdt/src/lib.rs as an interface: a merge that is
-- commutative, associative and idempotent on the states that the type's operations reach. Its
-- instances are the CRDTs beside this module. `deliver` is how a replica takes in what its peers
-- send, one state after another.
pub mod Convergence
use para_p2p.Common.{◌≡◌, List, foldl}

pub record Mergeable {ℓ} (A : Type ℓ) : Type (ℓ + 1) where
  pub merge : A → A → A
  -- What every state holds that the operations of the type build.
  pub IsValid : A → Type ℓ
  pub merge-IsValid : (a b : A) → IsValid a → IsValid b → IsValid (merge a b)
  pub merge_comm : (a b : A) → IsValid a → IsValid b → merge a b ≡ merge b a
  pub merge_assoc :
      (a b c : A) → IsValid a → IsValid b → IsValid c → merge (merge a b) c ≡ merge a (merge b c)
  pub merge_idem : (a : A) → IsValid a → merge a a ≡ a

module _ {ℓ} {A : Type ℓ} (m : Mergeable A) where
  -- A replica in the state `s` merges the states that it receives, in the order of their arrival.
  abbrev pub deliver : A → List A → A
  deliver s received = foldl m.merge s received

  -- `a` is already reflected in `b`.
  abbrev pub Reflects : A → A → Type ℓ
  Reflects b a = m.merge b a ≡ b
