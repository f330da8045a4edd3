-- ===== src/Crdt/OrSet.antt =====
-- crates/noeta-crdt/src/orset.rs: a set whose elements can be removed and added again. Each
-- insertion has a tag, and a removal entombs the tags that it can see.
pub mod Tags
pub mod Laws
pub mod Membership
pub mod Counters
pub mod Fresh
pub mod Edits
pub mod Peers
pub mod Members
use para_p2p.Common.{
  ℕ, String, Bool, List, [], ◌∷◌, ◌++◌, Option, none, some, not, unwrap_or, any, filter, maximum,
  length, map, false, ◌==◌, if◌then◌else◌,
}
use para_p2p.Common.Order.{Ord}
use para_p2p.Common.BTree
use para_p2p.Common.BTree.{BTreeMap, BTreeSet, get, upsert, merge_with, keys, values, extend}
use para_p2p.Common.BTree.Sets
use para_p2p.Crdt.Clock.{Dot, next_after, dot_ord}

pub record OrSet {ℓ} (V : Type ℓ) : Type ℓ where
  -- The tags of every insertion of an element.
  pub adds : BTreeMap V (BTreeSet Dot)
  pub removed : BTreeSet Dot

-- `tags.iter().any(|tag| !removed.contains(tag))`
pub any_live : BTreeSet Dot → BTreeSet Dot → Bool
any_live removed tags = any (λ tag. not (Sets.contains tag removed)) (keys tags)

counters : BTreeSet Dot → List ℕ
counters tags = map (λ tag. tag.counter) (keys tags)

all_counters : List (BTreeSet Dot) → List ℕ
all_counters [] = []
all_counters (tags ∷ rest) = counters tags ++ all_counters rest

module _ {ℓ} {V : Type ℓ} where
  unfoldable pub new : OrSet V
  new = record { adds = []; removed = [] }

  -- The highest counter of any tag, the entombed ones included.
  unfoldable pub highest_counter : OrSet V → ℕ
  unfolding counters all_counters
  highest_counter s = unwrap_or (maximum (all_counters (values s.adds) ++ counters s.removed)) 0

module _ {ℓ} {V : Type ℓ} ⦃o : Ord V⦄ where
  unfoldable pub insert : OrSet V → String → V → OrSet V
  insert s replica element =
      let tag = next_after (highest_counter s) replica in
      record {
        adds = upsert element (λ tags. BTree.insert tag (unwrap_or tags [])) s.adds;
        removed = s.removed;
      }

  -- The tags that the state has seen of an element.
  unfoldable pub tags_of : OrSet V → V → BTreeSet Dot
  tags_of s element = unwrap_or (get element s.adds) []

  unfoldable pub remove : OrSet V → V → OrSet V
  remove s element = record {
    adds = s.adds;
    removed = elim (get element s.adds) [ none ↦ s.removed | some tags ↦ extend s.removed tags ];
  }

  unfoldable pub contains : OrSet V → V → Bool
  unfolding any_live
  contains s element = elim (get element s.adds) [
    | none ↦ false
    | some tags ↦ any_live s.removed tags
  ]

  unfoldable pub merge : OrSet V → OrSet V → OrSet V
  merge s other = record {
    adds = merge_with (λ old tags. extend (unwrap_or old []) tags) s.adds other.adds;
    removed = extend s.removed other.removed;
  }

module _ {ℓ} {V : Type ℓ} where
  members_from : BTreeSet Dot → BTreeMap V (BTreeSet Dot) → List V
  unfolding any_live
  members_from removed [] = []
  members_from removed ((element, tags) ∷ adds) =
      if any_live removed tags
      then element ∷ members_from removed adds
      else members_from removed adds

  unfoldable pub members : OrSet V → List V
  unfolding members_from
  members s = members_from s.removed s.adds

  unfoldable pub len : OrSet V → ℕ
  len s = length (members s)

  unfoldable pub is_empty : OrSet V → Bool
  is_empty s = length (members s) == 0
