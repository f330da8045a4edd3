-- ===== src/Crdt/GSet.antt =====
-- `GSet` of crates/noeta-crdt/src/lib.rs: a set of strings that only grows.
pub mod Laws
use para_p2p.Common.{ℕ, String, Bool, List, [], ◌==◌, length}
use para_p2p.Common.BTree
use para_p2p.Common.BTree.{BTreeSet, keys}
use para_p2p.Common.BTree.Sets
use para_p2p.Common.Order.{string_ord}

pub record GSet : Type 0 where
  pub members : BTreeSet String

unfoldable pub new : GSet
new = record { members = [] }

unfoldable pub insert : GSet → String → GSet
insert s element = record { members = BTree.insert element s.members }

unfoldable pub contains : GSet → String → Bool
contains s element = Sets.contains element s.members

unfoldable pub members : GSet → List String
members s = keys s.members

unfoldable pub len : GSet → ℕ
len s = length s.members

unfoldable pub is_empty : GSet → Bool
is_empty s = length s.members == 0

unfoldable pub merge : GSet → GSet → GSet
merge s other = record { members = BTree.extend s.members other.members }
